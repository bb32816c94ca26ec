-- ===== src/Placement/Direct/Halves.antt =====
-- The opening half of an order that crosses zero.
use openwallstreet.Prelude.{
  ◌≡◌, inl, inr, refl, sym, ap, ◌∙◌, true, false, not, ◌||◌, Option, none, some, arith, Bool-cases,
  Option-cases,
}
use openwallstreet.Float.{Float}
use openwallstreet.Orders.Split.{SplitPlan, is_flip}
use openwallstreet.Placement.Account.{Ticker, Trader}
use openwallstreet.Placement.Exposure.{split_for_order}
use openwallstreet.Placement.Sink.{ApprovedOrder, submitted, Placed}
use openwallstreet.Placement.Executioner.{Call, Run, is_exit, place_order}
use openwallstreet.Placement.Executioner.Authorised.{IsGated, place_order-IsAuthorised}
use openwallstreet.Placement.Direct.{
  SimpleClasses, Simple, action_text, helper_create_order, value_hint, call_of, is_raised, both,
  place_open, place_flip, place_order_simple,
}

-- A placement that is forced open, where opens are allowed.
abbrev IsForced : Run → Simple → Placed → Type 0
IsForced w s q = (k : Call) × (q ≡ place_order w k) × (k.force_open ≡ true) × (s.allow_open ≡ true)

module _ (ib : SimpleClasses) (t : Trader) (s : Simple) (tick : Ticker) where
  place_open-IsForced :
      (w : Run) (hint : Option Float) (plan : SplitPlan) (first p q : Placed)
      → place_open ib t w s tick hint plan first ≡ both p q
      → IsForced w s q
  unfolding place_open
  place_open-IsForced w hint plan first p q h =
      elim (Bool-cases (is_raised first || not s.allow_open)) [
        | inl stop ↦ absurd (ground (arith, stop))
        | inr go ↦
            elim (Option-cases
              (helper_create_order ib t.ib_account s none (some plan.open_qty) tick)) [
                | inl failed ↦ absurd (ground (arith, go, failed))
                | inr (o, made) ↦
                    (call_of s hint true o, ground (arith, go, made), refl, ground (arith, go))
              ]
      ]

  place_flip-IsForced :
      (w₁ w₂ : Run) (hint : Option Float) (plan : SplitPlan) (p q : Placed)
      → place_flip ib t w₁ w₂ s tick hint plan ≡ both p q
      → IsForced w₂ s q
  unfolding place_flip
  place_flip-IsForced w₁ w₂ hint plan p q h =
      elim (Option-cases (helper_create_order ib t.ib_account s none (some plan.reduce_qty) tick)) [
        | inl failed ↦ absurd (ground (arith, failed))
        | inr (o, made) ↦
            place_open-IsForced w₂ hint plan (place_order w₁ (call_of s hint false o)) p q
              (ground (arith, made))
      ]

  place_order_simple-IsForced :
      (w₁ w₂ : Run) (p q : Placed)
      → place_order_simple ib t w₁ w₂ s tick ≡ both p q
      → IsForced w₂ s q
  unfolding place_order_simple
  place_order_simple-IsForced w₁ w₂ p q h =
      elim (Option-cases (helper_create_order ib t.ib_account s s.equity_amount s.quantity tick)) [
        | inl failed ↦ absurd (ground (arith, failed))
        | inr (o, made) ↦
            let plan = split_for_order t s.contract (action_text s.action) o.total_quantity in
            elim (Bool-cases (is_flip plan)) [
              | inl flips ↦
                  place_flip-IsForced w₁ w₂ (value_hint s tick o) plan p q
                    (ground (arith, made, flips))
              | inr single ↦ absurd (ground (arith, made, single))
            ]
      ]

forced-opens : (w : Run) (k : Call) → k.force_open ≡ true → is_exit w k ≡ false
unfolding is_exit
forced-opens w k h = ground (arith, h)

-- Where `place_order_simple` places both halves of an order that crosses zero and submits the second one,
-- opens are allowed, the second half is no exit, and the trading filter and the risk gate let it through at
-- the moment of its own placement.
pub place_order_simple-IsGated :
    (ib : SimpleClasses) (t : Trader) (s : Simple) (tick : Ticker) (w₁ w₂ : Run) (p q : Placed)
    (a : ApprovedOrder)
    → place_order_simple ib t w₁ w₂ s tick ≡ both p q
    → q.0 ≡ submitted a
    → (k : Call) × (q ≡ place_order w₂ k)
      × IsGated w₂ k a.checks
      × (a.is_exit ≡ false)
      × (s.allow_open ≡ true)
place_order_simple-IsGated ib t s tick w₁ w₂ p q a h done =
    let (k, placed, forced, allowed) = place_order_simple-IsForced ib t s tick w₁ w₂ p q h in
    let by = place_order-IsAuthorised w₂ k a (sym (ap (λ r. r.0) placed) ∙ done) in
    elim by.cleared_by [
      | inl (claimed, exit) ↦ absurd (cc (forced-opens w₂ k forced, exit))
      | inr (claimed, gated) ↦ (k, placed, gated, claimed, allowed)
    ]
