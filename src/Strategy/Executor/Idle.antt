-- ===== src/Strategy/Executor/Idle.antt =====
-- What leaves the log alone and trades nothing: the reconciliation and the warnings.
use openwallstreet.Prelude.{
  ◌≡◌, inl, inr, refl, ap, arith, true, false, Option, none, some, List, [], ◌∷◌, if◌then◌else◌,
  Bool-cases, lookup,
}
use openwallstreet.Float
use openwallstreet.Float.{Float, zero_float}
use openwallstreet.Data.Ledger.{Key, key_eq}
use openwallstreet.Strategy.Decision.{SignalWork}
use openwallstreet.Strategy.State.{Position, closed_externally, all_open}
use openwallstreet.Strategy.Sdk.{Holding, Answers, broker_quantity, empty_broker_grace_seconds}
use openwallstreet.Strategy.Stops.{Inert, undatable_bar, Executor, load_open_view}
use openwallstreet.Strategy.Stops.Quiet.{
  trades, Quiet, Quiet-refl, Quiet-trans, load_open_view-Quiet, cancel_protective-Quiet,
}
use openwallstreet.Strategy.Close.{close_rows, tracked_of}
use openwallstreet.Strategy.Close.Logged.{close_rows-Quiet}
use openwallstreet.Strategy.Open.{key_of}
use openwallstreet.Strategy.Executor.{
  close_absent, close_all_absent, reconcile_rows, reconcile_empty, reconcile_read, reconcile_open,
  reconcile_once, first_empty, warn, same_inert, warn_if_stale_gate_inert,
}
use openwallstreet.Strategy.Decision.{accept_empty_broker_read}

pub close_absent-Quiet :
    (hs : List Holding) (p : Position) (s : Executor) → Quiet s (close_absent hs p s)
unfolding close_absent
close_absent-Quiet hs p s = elim (Bool-cases (Float.le (broker_quantity p.key.1 hs) zero_float)) [
  | inr there ↦ rw there (Quiet-refl s)
  | inl absent ↦ rw absent (
      Quiet-trans (close_rows-Quiet p.key closed_externally none s) (
        cancel_protective-Quiet p.key (tracked_of (some p))
          (close_rows p.key closed_externally none s)))
]

pub close_all_absent-Quiet :
    (hs : List Holding) (ps : List Position) (s : Executor) → Quiet s (close_all_absent hs ps s)
unfolding close_all_absent
close_all_absent-Quiet hs [] s = Quiet-refl s
close_all_absent-Quiet hs (p ∷ ps) s =
    Quiet-trans (close_absent-Quiet hs p s) (close_all_absent-Quiet hs ps (close_absent hs p s))

-- A change of the fields that the log, the rows and the trades do not show.
pub same-Quiet :
    (s s' : Executor) → s'.log ≡ s.log → s'.rows ≡ s.rows → s'.sent ≡ s.sent → Quiet s s'
same-Quiet s s' l r t = record {
  log = l;
  rows = λ j. rw r (omega arith);
  trades_kept = ap trades t;
}

pub reconcile_rows-Quiet : (hs : List Holding) (s : Executor) → Quiet s (reconcile_rows hs s)
unfolding reconcile_rows
reconcile_rows-Quiet hs s =
    let t = close_all_absent hs (all_open s.rows) s in
    Quiet-trans (close_all_absent-Quiet hs (all_open s.rows) s)
      (Quiet-trans (load_open_view-Quiet t) (same-Quiet (load_open_view t) _ refl refl refl))

pub reconcile_empty-Quiet : (a : Answers) (s : Executor) → Quiet s (reconcile_empty a s)
unfolding reconcile_empty
reconcile_empty-Quiet a s =
    let seen = some (first_empty a.reconcile_clock s.first_empty_broker_read) in
    let t = record s { first_empty_broker_read = seen } in
    elim (Bool-cases
      (accept_empty_broker_read seen a.reconcile_clock (empty_broker_grace_seconds a))) [
        | inl late ↦
            rw late (Quiet-trans (same-Quiet s t refl refl refl) (reconcile_rows-Quiet [] t))
        | inr early ↦ rw early (same-Quiet s t refl refl refl)
      ]

pub reconcile_read-Quiet :
    (a : Answers) (o : Option (List Holding)) (s : Executor) → Quiet s (reconcile_read a o s)
unfolding reconcile_read
reconcile_read-Quiet a none s = Quiet-refl s
reconcile_read-Quiet a (some []) s = reconcile_empty-Quiet a s
reconcile_read-Quiet a (some (h ∷ hs)) s =
    let t = record s { first_empty_broker_read = none } in
    Quiet-trans (same-Quiet s t refl refl refl) (reconcile_rows-Quiet (h ∷ hs) t)

pub reconcile_open-Quiet :
    (a : Answers) (ps : List Position) (s : Executor) → Quiet s (reconcile_open a ps s)
unfolding reconcile_open
reconcile_open-Quiet a [] s = same-Quiet s _ refl refl refl
reconcile_open-Quiet a (p ∷ ps) s = reconcile_read-Quiet a a.reconcile_holdings s

pub reconcile_once-Quiet : (a : Answers) (s : Executor) → Quiet s (reconcile_once a s)
unfolding reconcile_once
reconcile_once-Quiet a s =
    elim s.reconciled as (λ b. Quiet s (if b then s else reconcile_open a (all_open s.rows) s)) [
      | true ↦ Quiet-refl s
      | false ↦ reconcile_open-Quiet a (all_open s.rows) s
    ]

pub warn-Quiet : (k : Key) (r : Inert) (s : Executor) → Quiet s (warn k r s)
warn-Quiet k r s = elim (Bool-cases (same_inert (lookup k s.stale_gate_warned) r)) [
  | inl known ↦ rw known (Quiet-refl s)
  | inr new ↦ rw new (same-Quiet s _ refl refl refl)
]

pub warn_if_stale_gate_inert-Quiet :
    (w : SignalWork) (age : Option Float) (s : Executor)
    → Quiet s (warn_if_stale_gate_inert w age s)
unfolding warn_if_stale_gate_inert
warn_if_stale_gate_inert-Quiet w age s =
    elim (Bool-cases (Float.le w.bar_size_seconds zero_float)) [
      | inl inert ↦ rw inert (warn-Quiet (key_of w) _ s)
      | inr known ↦ rw known (dated age)
    ]
  where
    dated :
        (o : Option Float)
        → Quiet s (elim o [ none ↦ warn (key_of w) undatable_bar s | some _ ↦ s ])
    dated none = warn-Quiet (key_of w) undatable_bar s
    dated (some x) = Quiet-refl s
