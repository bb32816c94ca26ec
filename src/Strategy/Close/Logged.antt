-- ===== src/Strategy/Close/Logged.antt =====
-- What a close records.
use openwallstreet.Prelude.{
  ℕ, ◌≡◌, ◌⊎◌, inl, inr, refl, ap, ◌∙◌, arith, false, Option, some, List, ◌∷◌, Option-cases,
}
use openwallstreet.Float.{Float}
use openwallstreet.Data.Ledger.{Key, key_eq}
use openwallstreet.Placement.Direct.{Action, sell}
use openwallstreet.Strategy.State.{
  Status, closed_by_strategy, BarLog, Decision, closed, close_failed, is_executed, log_decision,
}
use openwallstreet.Strategy.State.Rows.{Fewer, Fewer-trans, record_close-Fewer}
use openwallstreet.Strategy.Sdk.{approved, not_approved, Answers}
use openwallstreet.Strategy.Stops.{Executor}
use openwallstreet.Strategy.Stops.Quiet.{
  trades, Quiet, Quiet-refl, Quiet-trans, load_open_view-Quiet,
}
use openwallstreet.Strategy.Close.{note, append_event, close_rows, stamp, settle_close}

-- At most one row is added to the log: an open or close only of the key and bar, and only by trades.
pub record Logged (k : Key) (bar : ℕ) (s s' : Executor) : Type 0 where
  pub rows : Fewer s.rows s'.rows
  pub log :
      (s'.log ≡ s.log)
      ⊎ ((l : BarLog) × (s'.log ≡ l ∷ s.log)
          × ((is_executed l.decision ≡ false) ⊎ ((l.key ≡ k) × (l.bar_ts ≡ bar))))

pub Quiet-Logged : (k : Key) (bar : ℕ) {s s' : Executor} → Quiet s s' → Logged k bar s s'
Quiet-Logged k bar h = record { rows = h.rows; log = inl h.log }

pub append_event-Quiet :
    (a : Answers) (k : Key) (x : Action) (q : Float) (s : Executor)
    → Quiet s (append_event a k x q s)
unfolding append_event
append_event-Quiet a k x q s = record { log = refl; rows = λ j. omega arith; trades_kept = refl }

-- A row of the log, then what leaves the log alone.
pub note-Logged :
    (a : Answers) (k : Key) (bar : ℕ) (x : Action) (d : Decision) {s u : Executor}
    → Quiet (note a k bar x d s) u
    → Logged k bar s u
unfolding log_decision
note-Logged a k bar x d h = record { rows = h.rows; log = inr (_, h.log, inr (refl, refl)) }

pub close_rows-Fewer :
    (k : Key) (st : Status) (o : Option ℕ) (s : Executor) → Fewer s.rows (close_rows k st o s).rows
close_rows-Fewer k st o s = record_close-Fewer k st o s.rows

pub stamp-Quiet : (a : Answers) (k : Key) (s : Executor) → Quiet s (stamp a k s)
stamp-Quiet a k s = record { log = refl; rows = λ j. omega arith; trades_kept = refl }

pub close_rows-Quiet :
    (k : Key) (st : Status) (o : Option ℕ) (s : Executor) → Quiet s (close_rows k st o s)
close_rows-Quiet k st o s = record {
  log = refl;
  rows = close_rows-Fewer k st o s;
  trades_kept = refl;
}

-- The end of a close sends nothing.
abbrev pub IsSettled : Key → ℕ → Executor → Executor → Type 0
IsSettled k bar s s' = Logged k bar s s' × (trades s'.sent ≡ trades s.sent)

pub Quiet-IsSettled : (k : Key) (bar : ℕ) {s s' : Executor} → Quiet s s' → IsSettled k bar s s'
Quiet-IsSettled k bar h = (Quiet-Logged k bar h, h.trades_kept)

pub settle_close-IsSettled :
    (a : Answers) (k : Key) (bar : ℕ) (qty : Float) (n : ℕ) (s : Executor)
    → IsSettled k bar s (settle_close a k bar qty n s).1
unfolding settle_close
settle_close-IsSettled a k bar qty n s = elim (Option-cases a.approval) [
  | inl raised ↦ rw (settle_close, raised) (Quiet-IsSettled k bar (Quiet-refl s))
  | inr (not_approved, e) ↦
      rw (settle_close, e)
        (let rejected = append_event-Quiet a k sell qty (note a k bar sell close_failed s) in
          (note-Logged a k bar sell close_failed rejected, rejected.trades_kept))
  | inr (approved ids, e) ↦
      rw (settle_close, e)
        (let noted = note a k bar sell closed s in
          let rows = close_rows k closed_by_strategy (some n) noted in
          let done =
            Quiet-trans (close_rows-Quiet k closed_by_strategy (some n) noted)
              (Quiet-trans (stamp-Quiet a k rows) (load_open_view-Quiet (stamp a k rows))) in
          (note-Logged a k bar sell closed done, done.trades_kept))
]

pub Quiet-Logged-trans :
    (k : Key) (bar : ℕ) {s t u : Executor} → Quiet s t → Logged k bar t u → Logged k bar s u
Quiet-Logged-trans k bar {s} {t} {u} h l = record {
  rows = Fewer-trans s.rows t.rows u.rows h.rows l.rows;
  log = elim l.log [
    | inl same ↦ inl (same ∙ h.log)
    | inr (x, added, which) ↦ inr (x, added ∙ ap (λ (ls : List BarLog). x ∷ ls) h.log, which)
  ];
}
