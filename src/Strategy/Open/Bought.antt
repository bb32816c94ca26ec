-- ===== src/Strategy/Open/Bought.antt =====
-- What an open sends and records.
use openwallstreet.Prelude.{
  ℕ, ◌≡◌, ◌≢◌, ◌⊎◌, inl, inr, refl, ◌∙◌, arith, true, false, Option, none, some, List, ◌∷◌,
  Bool-cases,
}
use openwallstreet.Float
use openwallstreet.Float.{Float, zero_float}
use openwallstreet.Data.Ledger.{key_eq}
use openwallstreet.Placement.Direct.{buy}
use openwallstreet.Strategy.Decision.{SignalWork, Directive}
use openwallstreet.Strategy.State.{
  Position, unknown, BarLog, Decision, opened, open_failed, is_executed, open_position,
  log_decision, record_open,
}
use openwallstreet.Strategy.State.Rows.{
  Fewer-OneOpen, OneOpen, record_add-Fewer, record_open-OneOpen, record_unknown-Fewer,
  record_close-none,
}
use openwallstreet.Strategy.Sdk.{
  Ident, exact, imprecise, unresolved, Resolved, resolve_exact, Approval, approved, not_approved,
  Answers, Sent, approve,
}
use openwallstreet.Strategy.Sdk
use openwallstreet.Strategy.Stops.{Executor, send, load_open_view}
use openwallstreet.Strategy.Stops.Quiet.{
  trades, Quiet, Quiet-trans, load_open_view-Quiet, cancel_protective-Quiet,
  ensure_protective-Quiet,
}
use openwallstreet.Strategy.Close.{Flow, refused, note, stamp, tracked_of}
use openwallstreet.Strategy.Close.Logged.{append_event-Quiet, stamp-Quiet}
use openwallstreet.Strategy.Open.{
  key_of, executed_quantity, open_rows, add_rows, attribute, record_unknown, book_open, settle_open,
  fixed_amount, confidence, propose_open, execute_open,
}

-- What the attribution of an open leaves alone, and that it keeps one open row for each key.
pub record Booked (s s' : Executor) : Type 0 where
  pub log : s'.log ≡ s.log
  pub rows : OneOpen s.rows → OneOpen s'.rows
  pub trades_kept : trades s'.sent ≡ trades s.sent

pub Quiet-Booked : {s s' : Executor} → Quiet s s' → Booked s s'
Quiet-Booked {s} {s'} h = record {
  log = h.log;
  rows = Fewer-OneOpen s.rows s'.rows h.rows;
  trades_kept = h.trades_kept;
}

Booked-trans : {s t u : Executor} → Booked s t → Booked t u → Booked s u
Booked-trans h k = record {
  log = k.log ∙ h.log;
  rows = λ one. k.rows (h.rows one);
  trades_kept = k.trades_kept ∙ h.trades_kept;
}

add_rows-Quiet : (w : SignalWork) (q : Float) (n : ℕ) (s : Executor) → Quiet s (add_rows w q n s)
add_rows-Quiet w q n s = record {
  log = refl;
  rows = record_add-Fewer (key_of w) q w.bar_ts.wall n w.close_by_time w.max_hold_bars s.rows;
  trades_kept = refl;
}

open_rows-Booked :
    (w : SignalWork) (q : Float) (n : ℕ) (s : Executor)
    → open_position (key_of w) s.rows ≡ none
    → Booked s (open_rows w q n s)
open_rows-Booked w q n s free = record {
  log = refl;
  rows =
      record_open-OneOpen (key_of w) q w.bar_ts.wall n w.close_by_time w.max_hold_bars s.rows free;
  trades_kept = refl;
}

attribute-Booked :
    (w : SignalWork) (q : Float) (n : ℕ) (s : Executor) → Booked s (attribute w q n s)
unfolding attribute
attribute-Booked w q n s = attributed (open_position (key_of w) s.rows) refl
  where
    attributed :
        (o : Option Position) → open_position (key_of w) s.rows ≡ o → Booked s (attribute w q n s)
    attributed none e = rw (attribute, e) (open_rows-Booked w q n s e)
    attributed (some p) e =
        rw (attribute, e)
          (Quiet-Booked (
            Quiet-trans (add_rows-Quiet w q n s)
              (cancel_protective-Quiet (key_of w) (tracked_of (some p)) (add_rows w q n s))))

record_unknown-Quiet :
    (a : Answers) (w : SignalWork) (n : ℕ) (s : Executor) → Quiet s (record_unknown a w n s)
unfolding record_unknown
record_unknown-Quiet a w n s = record {
  log = refl;
  rows =
      record_unknown-Fewer (key_of w) zero_float w.bar_ts.wall n w.close_by_time w.max_hold_bars
        s.rows;
  trades_kept = refl;
}

book_open-Booked :
    (a : Answers) (w : SignalWork) (n : ℕ) (q : Float) (s : Executor)
    → Booked s (book_open a w n q s)
unfolding book_open
book_open-Booked a w n q s = elim (Bool-cases (Float.le q zero_float)) [
  | inl nothing ↦ rw nothing (Quiet-Booked (record_unknown-Quiet a w n s))
  | inr some_quantity ↦
      let t = attribute w q n s in
      let u = stamp a (key_of w) t in
      rw some_quantity (
        Booked-trans (attribute-Booked w q n s) (
          Quiet-Booked (
            Quiet-trans (stamp-Quiet a (key_of w) t) (
              Quiet-trans (load_open_view-Quiet u)
                (ensure_protective-Quiet a (key_of w) (load_open_view u))))))
]

-- An open adds at most one row to the log, which is an open or close only of the signal's key and bar.
pub record Opened (w : SignalWork) (s s' : Executor) : Type 0 where
  pub rows : OneOpen s.rows → OneOpen s'.rows
  pub log :
      (s'.log ≡ s.log)
      ⊎ ((l : BarLog) × (s'.log ≡ l ∷ s.log)
          × ((is_executed l.decision ≡ false) ⊎ ((l.key ≡ key_of w) × (l.bar_ts ≡ w.bar_ts.wall))))

note-Opened :
    (a : Answers) (w : SignalWork) (d : Decision) {s u : Executor}
    → Booked (note a (key_of w) w.bar_ts.wall buy d s) u
    → Opened w s u × (trades u.sent ≡ trades s.sent)
unfolding log_decision
note-Opened a w d h =
    (record { rows = h.rows; log = inr (_, h.log, inr (refl, refl)) }, h.trades_kept)

settle_open-Opened :
    (a : Answers) (w : SignalWork) (n : ℕ) (s : Executor)
    → let s' = (settle_open a w n s).1 in Opened w s s' × (trades s'.sent ≡ trades s.sent)
unfolding settle_open
settle_open-Opened a w n s = settled a.approval refl
  where
    settled :
        (o : Option Approval)
        → a.approval ≡ o
        → let s' = (settle_open a w n s).1 in Opened w s s' × (trades s'.sent ≡ trades s.sent)
    settled none e = rw (settle_open, e) (record { rows = λ one. one; log = inl refl }, refl)
    settled (some not_approved) e =
        let failed = note a (key_of w) w.bar_ts.wall buy open_failed s in
        rw (settle_open, e)
          (note-Opened a w open_failed
            (Quiet-Booked (append_event-Quiet a (key_of w) buy zero_float failed)))
    settled (some (approved ids)) e =
        let done = note a (key_of w) w.bar_ts.wall buy opened s in
        rw (settle_open, e)
          (note-Opened a w opened (book_open-Booked a w n (executed_quantity a ids) done))

-- The proposal to buy that an open sends.
abbrev pub purchase : SignalWork → Directive → Ident → Sent
purchase w d i =
    Sdk.buy (key_of w) w.bar_ts.wall i d.quantity (fixed_amount w d.quantity) (confidence w)

-- No trade, or one purchase of the instrument that the conid resolves to exactly.
abbrev pub Bought : Answers → SignalWork → Directive → Executor → Executor → Type 0
Bought a w d s s' =
    (trades s'.sent ≡ trades s.sent)
    ⊎ ((i : Ident) × (trades s'.sent ≡ purchase w d i ∷ trades s.sent)
        × (resolve_exact a.resolver w.conid ≡ exact i))

propose_open-Opened :
    (a : Answers) (w : SignalWork) (d : Directive) (i : Ident) (s : Executor)
    → resolve_exact a.resolver w.conid ≡ exact i
    → let s' = (propose_open a w d i s).1 in Opened w s s' × Bought a w d s s'
unfolding propose_open trades
propose_open-Opened a w d i s exactly = proposed a.proposal_id refl
  where
    proposed :
        (o : Option ℕ)
        → a.proposal_id ≡ o
        → let s' = (propose_open a w d i s).1 in Opened w s s' × Bought a w d s s'
    proposed none e = rw (propose_open, e) (record { rows = λ one. one; log = inl refl }, inl refl)
    proposed (some n) e =
        let asked = send (approve n) (send (purchase w d i) s) in
        let (opens, same) = settle_open-Opened a w n asked in
        rw (propose_open, e) (record { rows = opens.rows; log = opens.log }, inr (i, same, exactly))

propose_open-ne-refused :
    (a : Answers) (w : SignalWork) (d : Directive) (i : Ident) (s : Executor)
    → (propose_open a w d i s).0 ≢ refused
unfolding propose_open settle_open
propose_open-ne-refused a w d i s h = ground arith

-- What an open may do: a refusal changes nothing; elsewhere its log and rows, and its trades.
pub record Opens (a : Answers) (w : SignalWork) (d : Directive) (s : Executor) (r : Flow × Executor)
    : Type 0 where
  pub refusal : r.0 ≡ refused → r.1 ≡ s
  pub kept : Opened w s r.1
  pub bought : Bought a w d s r.1

pub execute_open-Opens :
    (a : Answers) (w : SignalWork) (d : Directive) (s : Executor)
    → Opens a w d s (execute_open a w d s)
unfolding execute_open
execute_open-Opens a w d s = resolved (resolve_exact a.resolver w.conid) refl
  where
    resolved :
        (r : Resolved) → resolve_exact a.resolver w.conid ≡ r → Opens a w d s (execute_open a w d s)
    resolved (exact i) e =
        let (opens, bought) = propose_open-Opened a w d i s e in
        rw (execute_open, e)
          (record {
            refusal = λ h. absurd (propose_open-ne-refused a w d i s h);
            kept = opens;
            bought = bought;
          })
    resolved imprecise e =
        rw (execute_open, e)
          (record {
            refusal = λ h. refl;
            kept = record { rows = λ one. one; log = inl refl };
            bought = inl refl;
          })
    resolved unresolved e =
        rw (execute_open, e)
          (record {
            refusal = λ h. refl;
            kept = record { rows = λ one. one; log = inl refl };
            bought = inl refl;
          })

record_unknown-flat :
    (a : Answers) (w : SignalWork) (n : ℕ) (s : Executor)
    → open_position (key_of w) (record_unknown a w n s).rows ≡ none
unfolding record_unknown
record_unknown-flat a w n s =
    record_close-none (key_of w) unknown none
      (record_open (key_of w) zero_float w.bar_ts.wall n w.close_by_time w.max_hold_bars s.rows)
      refl

-- An open that is approved, and whose executed quantity tests as 0 or less, which NaN does not, leaves no open
-- position of its strategy and conid: also where it adds to a position that is held, which then is attributed
-- to nobody.
pub execute_open-unattributed :
    (a : Answers) (w : SignalWork) (d : Directive) (s : Executor) (i : Ident) (n : ℕ) (ids : List ℕ)
    → resolve_exact a.resolver w.conid ≡ exact i
    → a.proposal_id ≡ some n
    → a.approval ≡ some (approved ids)
    → Float.le (executed_quantity a ids) zero_float ≡ true
    → open_position (key_of w) (execute_open a w d s).1.rows ≡ none
unfolding execute_open propose_open settle_open book_open
execute_open-unattributed a w d s i n ids exactly proposed granted nothing =
    rw (execute_open, exactly, propose_open, proposed, settle_open, granted, book_open, nothing)
      (record_unknown-flat a w n
        (note a (key_of w) w.bar_ts.wall buy opened (send (approve n) (send (purchase w d i) s))))
