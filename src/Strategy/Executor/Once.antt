-- ===== src/Strategy/Executor/Once.antt =====
-- What holds after any history of the executor: signals and bars, whatever the SDK answers, and restarts.
use openwallstreet.Prelude.{
  ℕ, suc, ◌≤◌, ◌≡◌, ◌⊎◌, inl, inr, refl, subst, arith, Bool, true, false, ◌==◌, Option, List, [],
  ◌∷◌, if◌then◌else◌, Bool-cases,
}
use openwallstreet.Float.{Float}
use openwallstreet.Data.Ledger.{Key, key_eq}
use openwallstreet.Risk.Events.{TradingEvent}
use openwallstreet.Strategy.State.{BarLog, is_executed, is_executed_at, executed_for_bar}
use openwallstreet.Strategy.State.Rows.{OneOpen, opens_at}
use openwallstreet.Strategy.Sdk.{Answers}
use openwallstreet.Strategy.Stops.{Executor, load_open_view}
use openwallstreet.Strategy.Executor.{Item, work_on, run, new_executor}
use openwallstreet.Strategy.Executor.Steps.{Stepped, work_on-Stepped}

-- How often a bar has been executed, as an open or a close.
pub executions : Key → ℕ → List BarLog → ℕ
executions k bar [] = 0
executions k bar (l ∷ ls) =
    let rest = executions k bar ls in if is_executed_at k bar l then suc rest else rest

executions-none :
    (k : Key) (bar : ℕ) (log : List BarLog)
    → executed_for_bar k bar log ≡ false
    → executions k bar log ≡ 0
unfolding executions executed_for_bar
executions-none k bar [] h = refl
executions-none k bar (l ∷ ls) h = ground (arith, executions-none k bar ls)

-- One open row for each key, and one execution of each bar.
pub record IsOnce (s : Executor) : Type 0 where
  pub rows : OneOpen s.rows
  pub bars : (k : Key) (bar : ℕ) → executions k bar s.log ≤ 1

add-once :
    (k : Key) (bar : ℕ) (l : BarLog) (log : List BarLog)
    → executions k bar log ≤ 1
    → (is_executed l.decision ≡ false) ⊎ (executed_for_bar l.key l.bar_ts log ≡ false)
    → executions k bar (l ∷ log) ≤ 1
unfolding executions
add-once k bar l log h (inl idle) = ground arith
add-once k bar l log h (inr new) = elim (Bool-cases (is_executed_at k bar l)) [
  | inr other ↦ rw other h
  | inl here ↦
      let same : (l.key == k) ≡ true = ground arith in
      let same_bar : l.bar_ts ≡ bar = ground arith in
      let fresh : executed_for_bar k bar log ≡ false =
        subst (λ (x : Key). executed_for_bar x bar log ≡ false) ((key_eq.same_iff l.key k).0 same)
          (subst (λ x. executed_for_bar l.key x log ≡ false) same_bar new) in
      rw here (omega (arith, executions-none k bar log fresh))
]

Stepped-IsOnce : {s s' : Executor} → Stepped s s' → IsOnce s → IsOnce s'
Stepped-IsOnce {s} {s'} step h = record {
  rows = step.rows h.rows;
  bars = λ k bar. elim step.log [
    | inl same ↦ rw same (h.bars k bar)
    | inr (l, added, which) ↦ rw added (add-once k bar l s.log (h.bars k bar) which)
  ];
}

run-keeps : (xs : List (Answers × Item)) (s : Executor) → IsOnce s → IsOnce (run xs s)
unfolding run
run-keeps [] s h = h
run-keeps (x ∷ xs) s h = run-keeps xs (work_on x s) (Stepped-IsOnce (work_on-Stepped x s) h)

-- The service starts again on the tables that it left.
abbrev pub restart : Executor → Executor
restart s = new_executor s.paper_trading s.cooldown_seconds s.events s.rows s.log

-- Some runs of the service, one after the other.
unfoldable pub live : List (List (Answers × Item)) → Executor → Executor
live [] s = s
live (xs ∷ lives) s = live lives (run xs (restart s))

restart-IsOnce : (s : Executor) → IsOnce s → IsOnce (restart s)
unfolding new_executor load_open_view
restart-IsOnce s h = record { rows = h.rows; bars = h.bars }

live-keeps :
    (lives : List (List (Answers × Item))) (s : Executor) → IsOnce s → IsOnce (live lives s)
unfolding live
live-keeps [] s h = h
live-keeps (xs ∷ lives) s h =
    live-keeps lives (run xs (restart s)) (run-keeps xs (restart s) (restart-IsOnce s h))

-- Over any history of signals, bars and restarts on empty tables, whatever the SDK answers: of each strategy
-- and conid at most one position is open, and no bar of theirs is executed more than once.
pub live-IsOnce :
    (paper_trading : Bool) (cooldown : Float) (events : Option (List TradingEvent))
    (lives : List (List (Answers × Item)))
    → IsOnce (live lives (new_executor paper_trading cooldown events [] []))
unfolding new_executor load_open_view opens_at executions
live-IsOnce paper_trading cooldown events lives =
    live-keeps lives (new_executor paper_trading cooldown events [] [])
      (record { rows = λ k. omega arith; bars = λ k bar. omega arith })
