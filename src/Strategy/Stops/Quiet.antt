-- ===== src/Strategy/Stops/Quiet.antt =====
-- What the operations on stops leave alone: the log, the attribution of positions, and the trades.
use openwallstreet.Prelude.{
  ℕ, ◌≡◌, inl, inr, refl, ◌∙◌, arith, Option, none, some, List, [], ◌∷◌, eqb, Bool-cases,
  Option-cases,
}
use openwallstreet.Float
use openwallstreet.Float.{zero_float}
use openwallstreet.Data.Ledger.{Key, key_eq}
use openwallstreet.Orders.Protective.{ProtectiveStop}
use openwallstreet.Strategy.State.{Position, open_position}
use openwallstreet.Strategy.State.Rows.{Fewer, Fewer-trans, set_protective-Fewer}
use openwallstreet.Strategy.Sdk.{
  exact, imprecise, unresolved, resolve_exact, Placing, placed, not_placed, Answers,
  protective_stop_pct, own_live_protectives, Sent, buy, sell, approve, cancel, protect,
}
use openwallstreet.Strategy.Stops.{
  Executor, send, track, load_open_view, cancel_protective, is_tracked, is_live, track_placed,
  place_stop, holding_of, plan_for, place_missing, repair, ensure_for, ensure_protective,
}

-- The proposals to buy and to sell among what has been sent.
unfoldable pub trades : List Sent → List Sent
trades [] = []
trades (buy k bar i q m c ∷ xs) = buy k bar i q m c ∷ trades xs
trades (sell k bar i q ∷ xs) = sell k bar i q ∷ trades xs
trades (approve n ∷ xs) = trades xs
trades (cancel k o ∷ xs) = trades xs
trades (protect k i q p ∷ xs) = trades xs

pub record Quiet (s s' : Executor) : Type 0 where
  pub log : s'.log ≡ s.log
  pub rows : Fewer s.rows s'.rows
  pub trades_kept : trades s'.sent ≡ trades s.sent

pub Quiet-refl : (s : Executor) → Quiet s s
Quiet-refl s = record { log = refl; rows = λ j. omega arith; trades_kept = refl }

pub Quiet-trans : {s t u : Executor} → Quiet s t → Quiet t u → Quiet s u
Quiet-trans {s} {t} {u} h k = record {
  log = k.log ∙ h.log;
  rows = Fewer-trans s.rows t.rows u.rows h.rows k.rows;
  trades_kept = k.trades_kept ∙ h.trades_kept;
}

pub track-Quiet : (k : Key) (o : Option ℕ) (s : Executor) → Quiet s (track k o s)
track-Quiet k o s = record {
  log = refl;
  rows = set_protective-Fewer k o s.rows;
  trades_kept = refl;
}

send-cancel-Quiet : (k : Key) (o : ℕ) (s : Executor) → Quiet s (send (cancel k o) s)
unfolding trades
send-cancel-Quiet k o s = record { log = refl; rows = λ j. omega arith; trades_kept = refl }

pub load_open_view-Quiet : (s : Executor) → Quiet s (load_open_view s)
unfolding load_open_view
load_open_view-Quiet s = record { log = refl; rows = λ j. omega arith; trades_kept = refl }

pub cancel_protective-Quiet : (k : Key) (o : ℕ) (s : Executor) → Quiet s (cancel_protective k o s)
unfolding cancel_protective
cancel_protective-Quiet k o s = elim (Bool-cases (eqb o 0)) [
  | inl absent ↦ rw absent (Quiet-refl s)
  | inr given ↦
      rw given (Quiet-trans (send-cancel-Quiet k o s) (track-Quiet k none (send (cancel k o) s)))
]

track_placed-Quiet : (k : Key) (x : Option Placing) (s : Executor) → Quiet s (track_placed k x s)
unfolding track_placed
track_placed-Quiet k none s = Quiet-refl s
track_placed-Quiet k (some not_placed) s = Quiet-refl s
track_placed-Quiet k (some (placed o)) s = elim (Bool-cases (eqb o 0)) [
  | inl absent ↦ rw absent (Quiet-refl s)
  | inr given ↦ rw given (track-Quiet k (some o) s)
]

send-protect-Quiet :
    (k : Key) (x : Sent) (s : Executor) → trades (x ∷ s.sent) ≡ trades s.sent → Quiet s (send x s)
send-protect-Quiet k x s h = record { log = refl; rows = λ j. omega arith; trades_kept = h }

place_stop-Quiet :
    (a : Answers) (k : Key) (plan : ProtectiveStop) (s : Executor) → Quiet s (place_stop a k plan s)
unfolding place_stop trades
place_stop-Quiet a k plan s =
    elim (resolve_exact a.stop_resolver k.1)
      as (λ r. Quiet s (elim r [
        | exact i ↦
            track_placed k a.stop_placing (send (protect k i plan.quantity plan.stop_price) s)
        | _ ↦ s
      ])) [
        | exact i ↦
            let sent = send (protect k i plan.quantity plan.stop_price) s in
            Quiet-trans (send-protect-Quiet k (protect k i plan.quantity plan.stop_price) s refl)
              (track_placed-Quiet k a.stop_placing sent)
        | imprecise ↦ Quiet-refl s
        | unresolved ↦ Quiet-refl s
      ]

place_missing-Quiet :
    (a : Answers) (k : Key) (p : Position) (s : Executor) → Quiet s (place_missing a k p s)
unfolding place_missing
place_missing-Quiet a k p s = elim (Option-cases a.stop_holdings) [
  | inl unread ↦ rw (place_missing, unread) (Quiet-refl s)
  | inr (hs, read) ↦ elim (Option-cases (holding_of k.1 hs)) [
    | inl absent ↦ rw (place_missing, read, absent) (Quiet-refl s)
    | inr (h, found) ↦ elim (Option-cases (plan_for a p h)) [
      | inl unplanned ↦ rw (place_missing, read, found, unplanned) (Quiet-refl s)
      | inr (plan, planned) ↦ rw (place_missing, read, found, planned) (place_stop-Quiet a k plan s)
    ]
  ]
]

repair-Quiet :
    (a : Answers) (k : Key) (p : Position) (own : List ℕ) (s : Executor)
    → Quiet s (repair a k p own s)
unfolding repair
repair-Quiet a k p [] s =
    Quiet-trans (track-Quiet k none s) (place_missing-Quiet a k p (track k none s))
repair-Quiet a k p (o ∷ os) s = track-Quiet k (some o) s

ensure_for-Quiet :
    (a : Answers) (k : Key) (p : Position) (s : Executor) → Quiet s (ensure_for a k p s)
unfolding ensure_for
ensure_for-Quiet a k p s = elim (Bool-cases (is_tracked p.protective_order_id)) [
  | inr untracked ↦ rw (ensure_for, untracked) (place_missing-Quiet a k p s)
  | inl tracked ↦
      let own = own_live_protectives k a.stop_trades in
      elim (Bool-cases (is_live p.protective_order_id own)) [
        | inl alive ↦ rw (ensure_for, tracked, alive) (Quiet-refl s)
        | inr dead ↦ rw (ensure_for, tracked, dead) (repair-Quiet a k p own s)
      ]
]

pub ensure_protective-Quiet :
    (a : Answers) (k : Key) (s : Executor) → Quiet s (ensure_protective a k s)
unfolding ensure_protective
ensure_protective-Quiet a k s = elim (Bool-cases (Float.le (protective_stop_pct a) zero_float)) [
  | inl off ↦ rw (ensure_protective, off) (Quiet-refl s)
  | inr on ↦ elim (Option-cases (open_position k s.rows)) [
    | inl flat ↦ rw (ensure_protective, on, flat) (Quiet-refl s)
    | inr (p, found) ↦ rw (ensure_protective, on, found) (ensure_for-Quiet a k p s)
  ]
]
