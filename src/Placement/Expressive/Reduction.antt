-- ===== src/Placement/Expressive/Reduction.antt =====
-- The reducing half of an order that crosses zero.
use openwallstreet.Prelude.{
  ◌≡◌, refl, sym, ap, ◌∙◌, inl, inr, true, false, some, arith, String, string_eq, upper, strip,
  Bool-cases, Option-cases,
}
use openwallstreet.Float
use openwallstreet.Float.{Float, nan, inf, neg_inf, fin, zero_float}
use openwallstreet.Float.Laws.{not_le_of_lt, le_refl, finite-ne-nan}
use openwallstreet.Orders.ExitClass.{reduces_exposure, reduces_position}
use openwallstreet.Orders.Split.{SplitPlan, is_flip, as_finite, split_sane, split_flip, split_order}
use openwallstreet.Placement.Account.{Contract, Trader}
use openwallstreet.Placement.Exposure.{
  held_position, is_side, order_reduces_exposure, split_for_order,
}

finite-abs : (x : Float) → Float.is_finite x ≡ true → Float.is_finite (Float.abs x) ≡ true
unfolding Float.is_finite Float.abs
finite-abs nan h = absurd (cc h)
finite-abs inf h = absurd (cc h)
finite-abs neg_inf h = absurd (cc h)
finite-abs (fin z) h = refl

not_positive : (z : Float) → z ≡ zero_float → Float.lt zero_float z ≡ false
unfolding Float.lt zero_float
not_positive z h = rw h refl

-- A reduction is one whatever its quantity.
reduces-any :
    (act : String) (position q w : Float)
    → reduces_exposure act (some position) (some q) ≡ true
    → Float.is_finite w ≡ true
    → Float.le w zero_float ≡ false
    → reduces_exposure act (some position) (some w) ≡ true
unfolding reduces_exposure reduces_position
reduces-any act position q w h f l = ground arith

-- The branch of a split that crosses zero.
split_sane-flip :
    (act : String) (position q : Float)
    → is_flip (split_sane act position q) ≡ true
    → (reduces_exposure act (some position) (some q) ≡ true)
      × ((split_sane act position q).reduce_qty ≡ Float.abs position)
unfolding split_sane split_flip is_flip
split_sane-flip act position q h =
    let none_left = not_positive zero_float refl in
    (ground (arith, none_left), ground (arith, none_left))

split_order-flip :
    (act : String) (held q : Float)
    → is_flip (split_order act (some held) (some q)) ≡ true
    → (split_order act (some held) (some q)
        ≡ split_sane act (as_finite (some held)) (as_finite (some q)))
unfolding split_order is_flip
split_order-flip act held q h = ground (arith, not_positive zero_float refl)

-- What a split that crosses zero says of the position and of its reducing half.
record Crosses (act : String) (held : Float) (reduce_qty : Float) : Type 0 where
  positive : Float.le reduce_qty zero_float ≡ false
  finite : Float.is_finite reduce_qty ≡ true
  readable : Float.is_finite held ≡ true
  size : reduce_qty ≡ Float.abs held
  reduces : reduces_exposure act (some held) (some reduce_qty) ≡ true

flip-finite :
    (held : Float)
    → Float.lt zero_float (Float.abs (as_finite (some held))) ≡ true
    → as_finite (some held) ≡ held × (Float.is_finite held ≡ true)
unfolding as_finite Float.abs zero_float
flip-finite held h = elim (Bool-cases (Float.is_finite held)) [
  | inl finite ↦ (ground (arith, finite), finite)
  | inr unread ↦ absurd (cc (h, not_positive (Float.abs (as_finite (some held))) (rw unread refl)))
]

flip-positive : (p : SplitPlan) → is_flip p ≡ true → Float.lt zero_float p.reduce_qty ≡ true
unfolding is_flip
flip-positive p h = ground arith

split_order-Crosses :
    (act : String) (held q : Float)
    → is_flip (split_order act (some held) (some q)) ≡ true
    → Crosses act held (split_order act (some held) (some q)).reduce_qty
split_order-Crosses act held q h =
    let e = split_order-flip act held q h in
    let (reduces, all_of) =
      split_sane-flip act (as_finite (some held)) (as_finite (some q)) (ap is_flip (sym e) ∙ h) in
    let size = ap (λ p. p.reduce_qty) e ∙ all_of in
    let some_left : Float.lt zero_float (Float.abs (as_finite (some held))) ≡ true =
      ap (Float.lt zero_float) (sym size)
      ∙ flip-positive (split_order act (some held) (some q)) h in
    let (same, finite) = flip-finite held some_left in
    let reduce = size ∙ ap Float.abs same in
    let positive =
      not_le_of_lt zero_float (Float.abs held)
        (ap (λ p. Float.lt zero_float (Float.abs p)) (sym same) ∙ some_left) in
    rw reduce (record {
      positive = positive;
      finite = finite-abs held finite;
      readable = finite;
      size = refl;
      reduces =
          reduces-any act held (as_finite (some q)) (Float.abs held)
            (ap (λ p. reduces_exposure act (some p) (some (as_finite (some q)))) (sym same)
              ∙ reduces)
            (finite-abs held finite) positive;
    })

split_sane-larger :
    (act : String) (position q : Float)
    → is_flip (split_sane act position q) ≡ true
    → Float.le q (Float.abs position) ≡ false
unfolding split_sane is_flip
split_sane-larger act position q h = ground (arith, not_positive zero_float refl)

as_finite-finite : (x : Float) → Float.is_finite x ≡ true → as_finite (some x) ≡ x
unfolding as_finite
as_finite-finite x h = ground (arith, h)

-- No order of the size of the position crosses zero.
split_order-abs :
    (act : String) (held : Float)
    → Float.is_finite held ≡ true
    → is_flip (split_order act (some held) (some (Float.abs held))) ≡ false
split_order-abs act held finite =
    elim (Bool-cases (is_flip (split_order act (some held) (some (Float.abs held))))) [
      | inr single ↦ single
      | inl flips ↦
          let e = split_order-flip act held (Float.abs held) flips in
          let larger =
            split_sane-larger act (as_finite (some held)) (as_finite (some (Float.abs held)))
              (ap is_flip (sym e) ∙ flips) in
          absurd (
            cc (
              larger,
              as_finite-finite held finite,
              as_finite-finite (Float.abs held) (finite-abs held finite),
              le_refl (Float.abs held) (finite-ne-nan (Float.abs held) (finite-abs held finite)),
            ))
    ]

-- The reducing half of an order that crosses zero is itself an exit, and it does not cross zero.
pub order_reduces_exposure-reduce_qty :
    (t : Trader) (c : Contract) (action : String) (qty : Float)
    → is_flip (split_for_order t c action qty) ≡ true
    → (order_reduces_exposure t c action (split_for_order t c action qty).reduce_qty ≡ true)
      × (is_flip (split_for_order t c action (split_for_order t c action qty).reduce_qty) ≡ false)
unfolding order_reduces_exposure split_for_order is_flip
order_reduces_exposure-reduce_qty t c action qty h =
    let act = upper (strip action) in
    let none_left = not_positive zero_float refl in
    elim (Option-cases (held_position t c)) [
      | inl unread ↦ absurd (ground (arith, unread, none_left))
      | inr (held, found) ↦
          let side : is_side act ≡ true = ground (arith, found, none_left) in
          let e : split_for_order t c action qty ≡ split_order act (some held) (some qty) =
            ground (arith, found, none_left) in
          let crosses = split_order-Crosses act held qty (ap is_flip (sym e) ∙ h) in
          let exits : order_reduces_exposure t c action
                (split_order act (some held) (some qty)).reduce_qty
              ≡ true =
            ground (arith, found, side, crosses.positive, crosses.finite, crosses.reduces) in
          let again : split_for_order t c action (split_order act (some held) (some qty)).reduce_qty
              ≡ split_order act (some held)
                  (some (split_order act (some held) (some qty)).reduce_qty) =
            ground (arith, found, side, crosses.positive, crosses.finite) in
          let single =
            ap is_flip again
            ∙ ap (λ v. is_flip (split_order act (some held) (some v))) crosses.size
            ∙ split_order-abs act held crosses.readable in
          (
            ap (λ p. order_reduces_exposure t c action p.reduce_qty) e ∙ exits,
            ap (λ p. is_flip (split_for_order t c action p.reduce_qty)) e ∙ single,
          )
    ]
