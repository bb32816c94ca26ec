-- ===== src/Strategy/Executor/Steps.antt =====
-- One item of the queue: what it adds to the log, and the rows that it leaves open.
use openwallstreet.Prelude.{
  ℕ, ◌≡◌, ◌≢◌, ◌⊎◌, inl, inr, refl, sym, ap, ◌∙◌, subst, false, Option, none, some, List, ◌∷◌,
  Bool-cases,
}
use openwallstreet.Float.{Float}
use openwallstreet.Data.Ledger.{Key, key_eq}
use openwallstreet.Placement.Direct.{Action, sell}
use openwallstreet.Strategy.Decision.{
  SignalWork, Directive, Kind, skip, decide_signal, Trigger, check_time_exit,
}
use openwallstreet.Strategy.Decision.Rules.{decide_signal-IsAllowed}
use openwallstreet.Strategy.State.{
  Position, Status, closed_externally, BarLog, Decision, skipped, is_executed, executed_for_bar,
  log_decision, all_open,
}
use openwallstreet.Strategy.State
use openwallstreet.Strategy.State.Rows.{Fewer-OneOpen, OneOpen}
use openwallstreet.Strategy.Sdk.{Answers}
use openwallstreet.Strategy.Stops.{Executor, ensure_protective}
use openwallstreet.Strategy.Stops.Quiet.{Quiet, Quiet-refl, ensure_protective-Quiet}
use openwallstreet.Strategy.Close.{Flow, finished, refused, crashed, note, execute_close}
use openwallstreet.Strategy.Close.Logged.{Logged}
use openwallstreet.Strategy.Close.Sold.{execute_close-Closes, execute_close-refused}
use openwallstreet.Strategy.Open.{key_of, execute_open}
use openwallstreet.Strategy.Open.Bought.{Opened, execute_open-Opens}
use openwallstreet.Strategy.Executor.{
  reconcile_once, warn_if_stale_gate_inert, gates, manifest_gate, on_refusal, open_gated, or_zero,
  follow, process_signal, BarWork, bar_key, exit_position, process_held, process_bar, Item,
  of_signal, of_bar, work_on,
}
use openwallstreet.Strategy.Executor.Idle.{reconcile_once-Quiet, warn_if_stale_gate_inert-Quiet}

-- At most one row is added, and no bar is executed twice.
pub record Stepped (s s' : Executor) : Type 0 where
  pub rows : OneOpen s.rows → OneOpen s'.rows
  pub log :
      (s'.log ≡ s.log)
      ⊎ ((l : BarLog) × (s'.log ≡ l ∷ s.log)
          × ((is_executed l.decision ≡ false) ⊎ (executed_for_bar l.key l.bar_ts s.log ≡ false)))

pub Quiet-Stepped : {s s' : Executor} → Quiet s s' → Stepped s s'
Quiet-Stepped {s} {s'} h = record { rows = Fewer-OneOpen s.rows s'.rows h.rows; log = inl h.log }

Quiet-Stepped-trans : {s t : Executor} (u : Executor) → Quiet s t → Stepped t u → Stepped s u
Quiet-Stepped-trans {s} {t} u h k = record {
  rows = λ one. k.rows (Fewer-OneOpen s.rows t.rows h.rows one);
  log = elim k.log [
    | inl same ↦ inl (same ∙ h.log)
    | inr (l, added, which) ↦ inr (
      l,
      added ∙ ap (λ (ls : List BarLog). l ∷ ls) h.log,
      subst
          (λ log. (is_executed l.decision ≡ false) ⊎ (executed_for_bar l.key l.bar_ts log ≡ false))
          h.log which,
    )
  ];
}

-- A row for a bar that has not been executed.
new_row :
    (k : Key) (bar : ℕ) (s : Executor) (l : BarLog)
    → executed_for_bar k bar s.log ≡ false
    → (is_executed l.decision ≡ false) ⊎ ((l.key ≡ k) × (l.bar_ts ≡ bar))
    → (is_executed l.decision ≡ false) ⊎ (executed_for_bar l.key l.bar_ts s.log ≡ false)
new_row k bar s l new (inl idle) = inl idle
new_row k bar s l new (inr (same_key, same_bar)) = inr (rw (same_key, same_bar) new)

Opened-Stepped :
    (w : SignalWork) {s s' : Executor}
    → executed_for_bar (key_of w) w.bar_ts.wall s.log ≡ false
    → Opened w s s'
    → Stepped s s'
Opened-Stepped w {s} new h = record {
  rows = h.rows;
  log = elim h.log [
    | inl same ↦ inl same
    | inr (l, added, which) ↦ inr (l, added, new_row (key_of w) w.bar_ts.wall s l new which)
  ];
}

Logged-Stepped :
    (k : Key) (bar : ℕ) {s s' : Executor}
    → executed_for_bar k bar s.log ≡ false
    → Logged k bar s s'
    → Stepped s s'
Logged-Stepped k bar {s} {s'} new h = record {
  rows = Fewer-OneOpen s.rows s'.rows h.rows;
  log = elim h.log [
    | inl same ↦ inl same
    | inr (l, added, which) ↦ inr (l, added, new_row k bar s l new which)
  ];
}

note-Stepped :
    (a : Answers) (k : Key) (bar : ℕ) (x : Action) (d : Decision) (s : Executor)
    → is_executed d ≡ false
    → Stepped s (note a k bar x d s)
unfolding log_decision
note-Stepped a k bar x d s idle = record { rows = λ one. one; log = inr (_, refl, inl idle) }

on_refusal-Stepped :
    (a : Answers) (k : Key) (bar : ℕ) (x : Action) (s : Executor) (r : Flow × Executor)
    → (r.0 ≡ refused → r.1 ≡ s)
    → Stepped s r.1
    → Stepped s (on_refusal a k bar x r)
unfolding on_refusal
on_refusal-Stepped a k bar x s (refused, s') unchanged h =
    subst (λ t. Stepped s (note a k bar x State.refused t)) (sym (unchanged refl))
      (note-Stepped a k bar x State.refused s refl)
on_refusal-Stepped a k bar x s (finished, s') unchanged h = h
on_refusal-Stepped a k bar x s (crashed, s') unchanged h = h

close-Stepped :
    (a : Answers) (k : Key) (bar : ℕ) (x : Action) (q : Float) (s : Executor)
    → executed_for_bar k bar s.log ≡ false
    → Stepped s (on_refusal a k bar x (execute_close a k bar q s))
close-Stepped a k bar x q s new =
    on_refusal-Stepped a k bar x s (execute_close a k bar q s) (execute_close-refused a k bar q s)
      (Logged-Stepped k bar new (execute_close-Closes a k bar q s).0)

open_gated-Stepped :
    (a : Answers) (w : SignalWork) (d : Directive) (s : Executor)
    → executed_for_bar (key_of w) w.bar_ts.wall s.log ≡ false
    → Stepped s (open_gated a w d s)
unfolding open_gated
open_gated-Stepped a w d s new = gated (manifest_gate a w d s)
  where
    gated :
        (o : Option Directive)
        → Stepped s (elim o [
          | some refusal ↦ note a (key_of w) w.bar_ts.wall w.action State.refused s
          | none ↦ on_refusal a (key_of w) w.bar_ts.wall w.action (execute_open a w d s)
        ])
    gated (some refusal) = note-Stepped a (key_of w) w.bar_ts.wall w.action State.refused s refl
    gated none =
        let opens = execute_open-Opens a w d s in
        on_refusal-Stepped a (key_of w) w.bar_ts.wall w.action s (execute_open a w d s)
          opens.refusal (Opened-Stepped w new opens.kept)

follow-Stepped :
    (a : Answers) (w : SignalWork) (d : Directive) (kind : Kind) (s : Executor)
    → (kind ≢ skip → executed_for_bar (key_of w) w.bar_ts.wall s.log ≡ false)
    → Stepped s (follow a w d kind s)
unfolding follow
follow-Stepped a w d Kind.skip s new =
    note-Stepped a (key_of w) w.bar_ts.wall w.action skipped s refl
follow-Stepped a w d Kind.open_position s new = open_gated-Stepped a w d s (new (λ e. cc e))
follow-Stepped a w d Kind.close_position s new =
    close-Stepped a (key_of w) w.bar_ts.wall w.action (or_zero d.quantity) s (new (λ e. cc e))
follow-Stepped a w d Kind.refused s new = Quiet-Stepped (Quiet-refl s)

pub process_signal-Stepped :
    (a : Answers) (w : SignalWork) (s : Executor) → Stepped s (process_signal a w s)
unfolding process_signal gates
process_signal-Stepped a w s =
    let g = gates a w s in
    let d = decide_signal w g in
    let t = warn_if_stale_gate_inert w g.age s in
    let quiet = warn_if_stale_gate_inert-Quiet w g.age s in
    Quiet-Stepped-trans (follow a w d d.kind t) quiet (
      follow-Stepped a w d d.kind t (λ acts.
        ap (executed_for_bar (key_of w) w.bar_ts.wall) quiet.log
        ∙ (decide_signal-IsAllowed w g acts).new_bar))

exit_position-Stepped :
    (a : Answers) (b : BarWork) (p : Position) (s : Executor) → Stepped s (exit_position a b p s)
unfolding exit_position
exit_position-Stepped a b p s =
    elim (Bool-cases (executed_for_bar (bar_key b) b.bar_ts.wall s.log)) [
      | inl twice ↦ rw twice (Quiet-Stepped (Quiet-refl s))
      | inr new ↦ rw new (close-Stepped a (bar_key b) b.bar_ts.wall sell p.quantity s new)
    ]

pub process_bar-Stepped : (a : Answers) (b : BarWork) (s : Executor) → Stepped s (process_bar a b s)
unfolding process_bar process_held
process_bar-Stepped a b s = barred (State.open_position (bar_key b) s.rows)
  where
    quiet : Quiet s (ensure_protective a (bar_key b) s)
    quiet = ensure_protective-Quiet a (bar_key b) s

    triggered :
        (p : Position) (o : Option Trigger)
        → Stepped s (elim o [
          | none ↦ ensure_protective a (bar_key b) s
          | some t ↦ exit_position a b p (ensure_protective a (bar_key b) s)
        ])
    triggered p none = Quiet-Stepped quiet
    triggered p (some t) =
        Quiet-Stepped-trans (exit_position a b p (ensure_protective a (bar_key b) s)) quiet
          (exit_position-Stepped a b p (ensure_protective a (bar_key b) s))

    barred : (o : Option Position) → Stepped s (elim o [ none ↦ s | some p ↦ process_held a b p s ])
    barred none = Quiet-Stepped (Quiet-refl s)
    barred (some p) =
        triggered p (check_time_exit b.bar_ts b.bars_held p.close_by_time p.max_hold_bars)

pub work_on-Stepped : (x : Answers × Item) (s : Executor) → Stepped s (work_on x s)
unfolding work_on
work_on-Stepped (a, of_signal w) s =
    Quiet-Stepped-trans (process_signal a w (reconcile_once a s)) (reconcile_once-Quiet a s)
      (process_signal-Stepped a w (reconcile_once a s))
work_on-Stepped (a, of_bar b) s =
    Quiet-Stepped-trans (process_bar a b (reconcile_once a s)) (reconcile_once-Quiet a s)
      (process_bar-Stepped a b (reconcile_once a s))
