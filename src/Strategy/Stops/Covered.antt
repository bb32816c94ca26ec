-- ===== src/Strategy/Stops/Covered.antt =====
-- The stops that are placed.
use openwallstreet.Prelude.{
  ℕ, ◌≡◌, ◌⊎◌, inl, inr, refl, ap, ◌∙◌, false, Option, none, some, List, [], ◌∷◌, eqb, Bool-cases,
}
use openwallstreet.Float
use openwallstreet.Float.{Float, zero_float}
use openwallstreet.Data.Ledger.{Key, key_eq}
use openwallstreet.Orders.Protective.{ProtectiveStop}
use openwallstreet.Orders.Protective.Plan.{IsProtection, protective_stop_plan-IsProtection}
use openwallstreet.Strategy.State.{Position, open_position}
use openwallstreet.Strategy.Sdk.{
  Ident, exact, imprecise, unresolved, Resolved, resolve_exact, Holding, Placing, placed,
  not_placed, Answers, protective_stop_pct, own_live_protectives, protect,
}
use openwallstreet.Strategy.Stops.{
  Executor, send, track, is_tracked, is_live, track_placed, place_stop, holding_of, plan_for,
  place_missing, repair, ensure_for, ensure_protective,
}

track_placed-sent :
    (k : Key) (x : Option Placing) (s : Executor) → (track_placed k x s).sent ≡ s.sent
unfolding track_placed
track_placed-sent k none s = refl
track_placed-sent k (some not_placed) s = refl
track_placed-sent k (some (placed o)) s = elim (Bool-cases (eqb o 0)) [
  | inl absent ↦ rw absent refl
  | inr given ↦ rw given refl
]

-- A stop for a position: the broker's row, and a plan that protects.
pub record Placed (a : Answers) (k : Key) (p : Position) (i : Ident) (plan : ProtectiveStop)
    : Type 0 where
  pub row : Holding
  pub holdings : List Holding
  pub read : a.stop_holdings ≡ some holdings
  pub mine : holding_of k.1 holdings ≡ some row
  pub protects : IsProtection p.quantity row.position row.avg_cost (protective_stop_pct a) plan
  pub instrument : resolve_exact a.stop_resolver k.1 ≡ exact i

-- Nothing is sent, or one stop for the position.
abbrev pub Protects : Answers → Key → Position → Executor → Executor → Type 0
Protects a k p s s' =
    (s'.sent ≡ s.sent)
    ⊎ ((i : Ident) × (plan : ProtectiveStop) × (s'.sent
          ≡ protect k i plan.quantity plan.stop_price ∷ s.sent)
        × Placed a k p i plan)

place_stop-sent :
    (a : Answers) (k : Key) (plan : ProtectiveStop) (s : Executor) (i : Ident)
    → resolve_exact a.stop_resolver k.1 ≡ exact i
    → (place_stop a k plan s).sent ≡ protect k i plan.quantity plan.stop_price ∷ s.sent
unfolding place_stop
place_stop-sent a k plan s i exactly =
    rw (place_stop, exactly)
      (track_placed-sent k a.stop_placing (send (protect k i plan.quantity plan.stop_price) s))

place_stop-Protects :
    (a : Answers) (k : Key) (p : Position) (plan : ProtectiveStop) (s : Executor) (h : Holding)
    (hs : List Holding)
    → a.stop_holdings ≡ some hs
    → holding_of k.1 hs ≡ some h
    → plan_for a p h ≡ some plan
    → Protects a k p s (place_stop a k plan s)
unfolding place_stop plan_for
place_stop-Protects a k p plan s h hs read mine planned =
    resolved (resolve_exact a.stop_resolver k.1) refl
  where
    resolved :
        (r : Resolved)
        → resolve_exact a.stop_resolver k.1 ≡ r
        → Protects a k p s (place_stop a k plan s)
    resolved (exact i) e = inr (
      i,
      plan,
      place_stop-sent a k plan s i e,
      record {
        row = h;
        holdings = hs;
        read = read;
        mine = mine;
        protects =
            protective_stop_plan-IsProtection p.quantity h.position h.avg_cost
              (protective_stop_pct a) planned;
        instrument = e;
      },
    )
    resolved imprecise e = inl (rw (place_stop, e) refl)
    resolved unresolved e = inl (rw (place_stop, e) refl)

place_missing-Protects :
    (a : Answers) (k : Key) (p : Position) (s : Executor) → Protects a k p s (place_missing a k p s)
unfolding place_missing
place_missing-Protects a k p s = held a.stop_holdings refl
  where
    planned :
        (hs : List Holding) (h : Holding) (o : Option ProtectiveStop)
        → a.stop_holdings ≡ some hs
        → holding_of k.1 hs ≡ some h
        → plan_for a p h ≡ o
        → Protects a k p s (elim o [ none ↦ s | some plan ↦ place_stop a k plan s ])
    planned hs h none read mine e = inl refl
    planned hs h (some plan) read mine e = place_stop-Protects a k p plan s h hs read mine e

    found :
        (hs : List Holding) (o : Option Holding)
        → a.stop_holdings ≡ some hs
        → holding_of k.1 hs ≡ o
        → Protects a k p s (elim o [
          | none ↦ s
          | some h ↦ elim (plan_for a p h) [ none ↦ s | some plan ↦ place_stop a k plan s ]
        ])
    found hs none read e = inl refl
    found hs (some h) read e = planned hs h (plan_for a p h) read e refl

    held :
        (o : Option (List Holding))
        → a.stop_holdings ≡ o
        → Protects a k p s (elim o [
          | none ↦ s
          | some hs ↦ elim (holding_of k.1 hs) [
            | none ↦ s
            | some h ↦ elim (plan_for a p h) [ none ↦ s | some plan ↦ place_stop a k plan s ]
          ]
        ])
    held none e = inl refl
    held (some hs) e = found hs (holding_of k.1 hs) e refl

repair-Protects :
    (a : Answers) (k : Key) (p : Position) (own : List ℕ) (s : Executor)
    → Protects a k p s (repair a k p own s)
unfolding repair
repair-Protects a k p [] s = place_missing-Protects a k p (track k none s)
repair-Protects a k p (o ∷ os) s = inl refl

ensure_for-Protects :
    (a : Answers) (k : Key) (p : Position) (s : Executor) → Protects a k p s (ensure_for a k p s)
unfolding ensure_for
ensure_for-Protects a k p s = elim (Bool-cases (is_tracked p.protective_order_id)) [
  | inr untracked ↦ rw (ensure_for, untracked) (place_missing-Protects a k p s)
  | inl tracked ↦
      let own = own_live_protectives k a.stop_trades in
      elim (Bool-cases (is_live p.protective_order_id own)) [
        | inl alive ↦ rw (ensure_for, tracked, alive) (inl refl)
        | inr dead ↦ rw (ensure_for, tracked, dead) (repair-Protects a k p own s)
      ]
]

-- Where `_ensure_protective` finds an open position it sends at most one stop: in the instrument that the
-- conid resolves to exactly, of a positive quantity within what is attributed and what the broker's first row
-- of the conid holds, at a positive price strictly below that row's cost and not above the price that the
-- percentage asks for.
pub ensure_protective-Protects :
    (a : Answers) (k : Key) (s : Executor) (p : Position)
    → open_position k s.rows ≡ some p
    → Protects a k p s (ensure_protective a k s)
unfolding ensure_protective
ensure_protective-Protects a k s p found =
    elim (Bool-cases (Float.le (protective_stop_pct a) zero_float)) [
      | inl off ↦ rw (ensure_protective, off) (inl refl)
      | inr on ↦ rw (ensure_protective, on, found) (ensure_for-Protects a k p s)
    ]

place_missing-sent :
    (a : Answers) (k : Key) (p : Position) (s : Executor) (hs : List Holding) (h : Holding)
    (plan : ProtectiveStop) (i : Ident)
    → a.stop_holdings ≡ some hs
    → holding_of k.1 hs ≡ some h
    → plan_for a p h ≡ some plan
    → resolve_exact a.stop_resolver k.1 ≡ exact i
    → (place_missing a k p s).sent ≡ protect k i plan.quantity plan.stop_price ∷ s.sent
unfolding place_missing
place_missing-sent a k p s hs h plan i read mine planned exactly =
    let same : place_missing a k p s ≡ place_stop a k plan s =
      rw (place_missing, read, mine, planned) refl in
    ap (λ (r : Executor). r.sent) same ∙ place_stop-sent a k plan s i exactly

-- Where the orders cannot be read, `_ensure_protective` takes a tracked stop for one that has died: if the
-- stops are on and the broker's holding can be planned for in an exact instrument, it sends another stop for
-- the whole position, and cancels nothing.
pub ensure_protective-unread :
    (a : Answers) (k : Key) (s : Executor) (p : Position) (tracked : ℕ) (hs : List Holding)
    (h : Holding) (plan : ProtectiveStop) (i : Ident)
    → Float.le (protective_stop_pct a) zero_float ≡ false
    → open_position k s.rows ≡ some p
    → p.protective_order_id ≡ some tracked
    → eqb tracked 0 ≡ false
    → a.stop_trades ≡ none
    → a.stop_holdings ≡ some hs
    → holding_of k.1 hs ≡ some h
    → plan_for a p h ≡ some plan
    → resolve_exact a.stop_resolver k.1 ≡ exact i
    → (ensure_protective a k s).sent ≡ protect k i plan.quantity plan.stop_price ∷ s.sent
unfolding ensure_protective ensure_for repair own_live_protectives
ensure_protective-unread a k s p tracked hs h plan i on found had real unread read mine planned
      exactly =
    let held : ensure_protective a k s ≡ ensure_for a k p s =
      rw (ensure_protective, on, found) refl in
    let replaced : ensure_for a k p s ≡ place_missing a k p (track k none s) =
      rw (ensure_for, had, real, unread) refl in
    ap (λ (r : Executor). r.sent) (held ∙ replaced)
    ∙ place_missing-sent a k p (track k none s) hs h plan i read mine planned exactly
