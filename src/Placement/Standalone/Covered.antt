-- ===== src/Placement/Standalone/Covered.antt =====
-- Which protective orders are placed beside a position.
use openwallstreet.Prelude.{
  ℕ, subst, ◌≡◌, ◌≢◌, ◌↔◌, inl, inr, refl, Bool, true, false, Option, none, some, arith, String,
  string_eq, Bool-cases, Option-cases,
}
use openwallstreet.Float
use openwallstreet.Float.{Float}
use openwallstreet.Orders.Structure.{rejection_for_order}
use openwallstreet.Placement.Account.{Order, Trader}
use openwallstreet.Placement.Exposure.{order_reduces_exposure}
use openwallstreet.Placement.Sink.{
  ApprovedOrder, submitted, refused, Placed, shape_of, is_authorised, account_refusal, submit,
  spend, subscribe_place_order_direct,
}
use openwallstreet.Placement.Executioner.Authorised.{IsPinned, subscribe-IsSpendable}
use openwallstreet.Placement.Executioner.Exits.{account_refusal-none}
use openwallstreet.Placement.Standalone.{
  OrderClasses, Standalone, success, own_position, tolerated, exceeds, set_ref, build_order,
  mint_standalone, report, place_standalone_order,
}

-- An order keeps what it was made with.
abbrev pub Keeps : Order → String → Float → String → Type 0
Keeps o action quantity account =
    (o.action ≡ action) × (o.total_quantity ≡ quantity) × (o.account ≡ account)

-- The order classes keep their arguments.
pub record IsOrderly (ib : OrderClasses) : Type 0 where
  pub stop : (a : String) (q p : Float) (acc : String) → Keeps (ib.stop_order a q p acc) a q acc
  pub trail : (a : String) (q : Float) (acc : String) → Keeps (ib.trail_order a q acc) a q acc
  pub limit : (a : String) (q p : Float) (acc : String) → Keeps (ib.limit_order a q p acc) a q acc

-- What a protective order needs: it is an exit that does not exceed the position of its own contract, of a
-- known type, and sane; execution is enabled, an account is configured, and the broker accepts it.
pub record IsAdmissible (ib : OrderClasses) (t : Trader) (accepts : Bool) (s : Standalone)
    : Type 0 where
  pub exit : order_reduces_exposure t s.contract s.action s.quantity ≡ true
  pub held : Float
  pub owned : own_position t s.contract ≡ some held
  pub inside : Float.lt (tolerated held) (Float.abs s.quantity) ≡ false
  pub order : Order
  pub built : build_order ib t.ib_account s ≡ some order
  pub sane : rejection_for_order (shape_of (set_ref s order)) ≡ none
  pub enabled : t.execution_enabled ≡ true
  pub named : t.ib_account ≢ ""
  pub accepted : accepts ≡ true

module _ (ib : OrderClasses) (orderly : IsOrderly ib) (s : Standalone) where
  build_order-Keeps :
      (account : String) (o : Order)
      → build_order ib account s ≡ some o
      → Keeps (set_ref s o) s.action s.quantity account
  unfolding build_order
  build_order-Keeps account o h = ground (
    arith,
    orderly.stop s.action s.quantity s.aux_price account,
    orderly.trail s.action s.quantity account,
    orderly.limit s.action s.quantity s.limit_price account,
  )

  exceeds-false :
      (held : Option Float) (q : Float)
      → exceeds held q ≡ false
      → (x : Float) × (held ≡ some x) × (Float.lt (tolerated x) (Float.abs q) ≡ false)
  unfolding exceeds
  exceeds-false none q h = absurd (cc h)
  exceeds-false (some x) q h = (x, refl, h)

  sunk :
      (now : ℕ) (t : Trader) (accepts : Bool) (o : Order)
      → rejection_for_order (shape_of (set_ref s o)) ≡ none
      → t.execution_enabled ≡ true
      → IsPinned t (set_ref s o)
      → accepts ≡ true
      → (subscribe_place_order_direct now t accepts (mint_standalone s o)).0
        ≡ submitted (mint_standalone s o)
  unfolding subscribe_place_order_direct spend submit is_authorised mint_standalone
  sunk now t accepts o sane enabled pinned accepted =
      ground (arith, sane, enabled, accepted, account_refusal-none t (set_ref s o) pinned)

  -- The result of the sink, told on.
  report-success : (p : Placed) (a : ApprovedOrder) → (report p).0 ≡ success a → p.0 ≡ submitted a
  report-success (submitted b, events) a h = ground (arith, h)
  report-success (refused r, events) a h = absurd (cc h)

  report-submitted : (p : Placed) (a : ApprovedOrder) → p.0 ≡ submitted a → (report p).0 ≡ success a
  report-submitted (submitted b, events) a h = ground (arith, h)
  report-submitted (refused r, events) a h = absurd (cc h)

  sunk-accepted :
      (now : ℕ) (t : Trader) (accepts : Bool) (o : Order) (a : ApprovedOrder)
      → (subscribe_place_order_direct now t accepts (mint_standalone s o)).0 ≡ submitted a
      → accepts ≡ true
  unfolding subscribe_place_order_direct spend submit
  sunk-accepted now t accepts o a h =
      elim (Option-cases (account_refusal t (mint_standalone s o).order)) [
        | inl pinned ↦ ground (arith, pinned)
        | inr (r, wrong) ↦ absurd (ground (arith, wrong))
      ]

  -- What a success shows.
  abbrev Shown : Trader → Bool → ApprovedOrder → Type 0
  Shown t accepts a = IsAdmissible ib t accepts s × Keeps a.order s.action s.quantity t.ib_account

  sunk-Shown :
      (now : ℕ) (t : Trader) (accepts : Bool) (held : Float) (o : Order) (a : ApprovedOrder)
      → order_reduces_exposure t s.contract s.action s.quantity ≡ true
      → own_position t s.contract ≡ some held
      → Float.lt (tolerated held) (Float.abs s.quantity) ≡ false
      → build_order ib t.ib_account s ≡ some o
      → (report (subscribe_place_order_direct now t accepts (mint_standalone s o))).0 ≡ success a
      → Shown t accepts a
  unfolding mint_standalone
  sunk-Shown now t accepts held o a exit owned inside built h =
      let done =
        report-success (subscribe_place_order_direct now t accepts (mint_standalone s o)) a h in
      let (spendable, same) = subscribe-IsSpendable now t accepts (mint_standalone s o) a done in
      (
        record {
          exit = exit;
          held = held;
          owned = owned;
          inside = inside;
          order = o;
          built = built;
          sane = spendable.sane;
          enabled = spendable.enabled;
          named = spendable.pinned.0;
          accepted = sunk-accepted now t accepts o a done;
        },
        subst (λ b. Keeps b.order s.action s.quantity t.ib_account) same
            (build_order-Keeps t.ib_account o built),
      )

  module _ (now : ℕ) (t : Trader) (accepts : Bool) where
    success-Shown :
        (a : ApprovedOrder)
        → (place_standalone_order ib now t accepts s).0 ≡ success a
        → Shown t accepts a
    unfolding place_standalone_order
    success-Shown a h =
        elim (Bool-cases (order_reduces_exposure t s.contract s.action s.quantity)) [
          | inr opens ↦ absurd (ground (arith, opens))
          | inl exit ↦ elim (Bool-cases (exceeds (own_position t s.contract) s.quantity)) [
            | inl too_much ↦ absurd (ground (arith, exit, too_much))
            | inr covered ↦
                let (held, owned, inside) =
                  exceeds-false (own_position t s.contract) s.quantity covered in
                elim (Option-cases (build_order ib t.ib_account s)) [
                  | inl unknown ↦ absurd (ground (arith, exit, covered, unknown))
                  | inr (o, built) ↦
                      sunk-Shown now t accepts held o a exit owned inside built
                        (ground (arith, exit, covered, built))
                ]
          ]
        ]

    admissible-success :
        (h : IsAdmissible ib t accepts s)
        → (place_standalone_order ib now t accepts s).0 ≡ success (mint_standalone s h.order)
    unfolding place_standalone_order exceeds
    admissible-success h =
        let kept = build_order-Keeps t.ib_account h.order h.built in
        let done = sunk now t accepts h.order h.sane h.enabled (h.named, kept.2) h.accepted in
        let told =
          report-submitted (subscribe_place_order_direct now t accepts (mint_standalone s h.order))
            (mint_standalone s h.order) done in
        rw (place_standalone_order, h.exit, h.owned, exceeds, h.inside, h.built) told

    -- Where the order classes keep their arguments, a protective order is placed exactly when it is an exit
    -- that does not exceed the position of its own contract by more than the tolerance, its type is known and
    -- it is sane, execution is enabled, an account is configured and the broker accepts it; and the order
    -- placed has the action, the whole quantity and the configured account.
    pub place_standalone_order_iff :
        (((a : ApprovedOrder) × ((place_standalone_order ib now t accepts s).0 ≡ success a))
          ↔ IsAdmissible ib t accepts s)
        × ((a : ApprovedOrder)
            → (place_standalone_order ib now t accepts s).0 ≡ success a
            → Keeps a.order s.action s.quantity t.ib_account)
    place_standalone_order_iff = (
      (λ (a, h). (success-Shown a h).0, λ h. (mint_standalone s h.order, admissible-success h)),
      λ a h. (success-Shown a h).1,
    )
