-- ===== src/Orders/Structure/Sane.antt =====
-- Which orders and baskets are accepted.
use openwallstreet.Prelude.{
  ◌≡◌, refl, ◌↔◌, ◌⊎◌, inl, inr, true, none, arith, string_eq, eq_iff, List, [], ◌∷◌, Option-cases,
}
use openwallstreet.Orders.Quantity.{finite_positive}
use openwallstreet.Orders.Structure.{
  normalize, structural_rejection, Order, rejection_for_order, sanity_check_basket,
}

-- A sane order: it buys or sells a finite positive quantity, and carries each price that its type needs.
pub record IsSane (o : Order) : Type 0 where
  pub side : (normalize o.action ≡ "BUY") ⊎ (normalize o.action ≡ "SELL")
  pub size : finite_positive o.total_quantity ≡ true
  pub limit :
      (normalize o.order_type ≡ "LMT") ⊎ (normalize o.order_type ≡ "STP LMT")
      → finite_positive o.lmt_price ≡ true
  pub stop :
      (normalize o.order_type ≡ "STP") ⊎ (normalize o.order_type ≡ "STP LMT")
      → finite_positive o.aux_price ≡ true

-- An order is accepted exactly when it is sane.
pub rejection_for_order_iff : (o : Order) → (rejection_for_order o ≡ none) ↔ IsSane o
unfolding rejection_for_order structural_rejection
rejection_for_order_iff o = (accepted, sane)
  where
    accepted : rejection_for_order o ≡ none → IsSane o
    accepted h = record {
      side = ground (arith, eq_iff (normalize o.action) "BUY", eq_iff (normalize o.action) "SELL");
      size = ground arith;
      limit =
          ground (
            arith,
            eq_iff (normalize o.order_type) "LMT",
            eq_iff (normalize o.order_type) "STP LMT",
          );
      stop =
          ground (
            arith,
            eq_iff (normalize o.order_type) "STP",
            eq_iff (normalize o.order_type) "STP LMT",
          );
    }

    sane : IsSane o → rejection_for_order o ≡ none
    sane h = ground (
      arith,
      eq_iff (normalize o.action) "BUY",
      eq_iff (normalize o.action) "SELL",
      eq_iff (normalize o.order_type) "LMT",
      eq_iff (normalize o.order_type) "STP",
      eq_iff (normalize o.order_type) "STP LMT",
    )

-- Every order of the list is sane.
abbrev pub AllSane : List Order → Type 0
AllSane [] = Unit {0}
AllSane (o ∷ rest) = IsSane o × AllSane rest

-- A basket is accepted exactly when every one of its orders is sane: one malformed leg refuses it whole.
pub sanity_check_basket_iff :
    (orders : List Order) → (sanity_check_basket orders ≡ true) ↔ AllSane orders
unfolding sanity_check_basket
sanity_check_basket_iff [] = (λ h. tt, λ h. refl)
sanity_check_basket_iff (o ∷ rest) =
    let ih = sanity_check_basket_iff rest in
    let head = rejection_for_order_iff o in
    elim (Option-cases (rejection_for_order o)) [
      | inl fine ↦ (
        λ h. (head.0 fine, ih.0 (rw (fine, sanity_check_basket) at h)),
        λ h. rw (fine, sanity_check_basket) (ih.1 h.1),
      )
      | inr (r, bad) ↦ (λ h. absurd (ground arith), λ h. absurd (cc (head.1 h.0, bad)))
    ]
