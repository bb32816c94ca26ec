-- ===== src/Orders/Split/Halves.antt =====
-- How the halves of a split relate to the request and to the position.
use openwallstreet.Prelude.{
  ℕ, ◌<◌, ◌-◌, ◌≡◌, true, false, Option, some, arith, String, if◌then◌else◌, ℤ, pos, negsuc,
  Bool-cases, inl, inr, sym,
}
use openwallstreet.Float
use openwallstreet.Float.{Float, fin, zero_float, of_ratio, magnitude}
use openwallstreet.Float.Laws.{
  finite_pos, le_of_not_lt, of_ratio-pos, add_fin-ne-nan, fin-ne-nan, le_refl, not_le_of_lt,
  min_of_le, min_of_not_le,
}
use openwallstreet.Float.Exact.{IsDouble, add-zero, zero-add, abs-IsDouble, sub-pos}
use openwallstreet.Orders.ExitClass.{reduces_exposure}
use openwallstreet.Orders.Split.{SplitPlan, split_flip, split_order}
use openwallstreet.Orders.Split.Walk.{step_down, Ends, step_down-Ends, step_down-Ends_inf}

abbrev nothing : SplitPlan
nothing = record { reduce_qty = zero_float; open_qty = zero_float }

-- A quantity that is unreadable, not finite or not positive is split into nothing.
pub split_order-degenerate :
    (action : String) (held : Option Float) (qty : Float)
    → finite_pos qty ≡ false
    → split_order action held (some qty) ≡ nothing
unfolding split_order Float.is_finite Float.lt Float.le zero_float
split_order-degenerate action held qty h = ground arith

abs-min_of_le :
    (position qty : ℤ)
    → Float.le (fin qty) (Float.abs (fin position)) ≡ true
    → Float.min (Float.abs (fin position)) (fin qty) ≡ fin qty
unfolding Float.abs
abs-min_of_le position qty h = min_of_le (pos (magnitude position)) qty h

abs-min_of_not_le :
    (position qty : ℤ)
    → Float.le (fin qty) (Float.abs (fin position)) ≡ false
    → Float.min (Float.abs (fin position)) (fin qty) ≡ Float.abs (fin position)
unfolding Float.abs
abs-min_of_not_le position qty h = min_of_not_le (pos (magnitude position)) qty h

-- For finite inputs the closing half is the smaller of the request and the position where the order
-- reduces exposure, and empty where it does not.
split_order-reduce_qty :
    (action : String) (position qty : ℤ)
    → Float.lt zero_float (fin qty) ≡ true
    → (split_order action (some (fin position)) (some (fin qty))).reduce_qty ≡ (
        if reduces_exposure action (some (fin position)) (some (fin qty))
        then Float.min (Float.abs (fin position)) (fin qty)
        else zero_float)
unfolding split_order split_flip Float.is_finite
split_order-reduce_qty action position qty h =
    let more = not_le_of_lt zero_float (fin qty) h in
    elim (Bool-cases (reduces_exposure action (some (fin position)) (some (fin qty)))) [
      | inl reduces ↦ elim (Bool-cases (Float.le (fin qty) (Float.abs (fin position)))) [
        | inl inside ↦ rw (more, reduces, inside) (sym (abs-min_of_le position qty inside))
        | inr crosses ↦ rw (more, reduces, crosses) (sym (abs-min_of_not_le position qty crosses))
      ]
      | inr opens ↦ rw (more, opens)
    ]

Ends-le :
    (a q : ℕ) (x : Float)
    → IsDouble (fin (pos a))
    → a < q
    → Ends (fin (pos a)) (fin (pos q)) x
    → Float.le (Float.add (fin (pos a)) (step_down (fin (pos a)) (fin (pos q)) x)) (fin (pos q))
      ≡ true
Ends-le a q x da less (m, e, inl none_left) =
    let sum : Float.add (fin (pos a)) (fin (pos 0)) ≡ fin (pos a) =
      unfold zero_float in add-zero (fin (pos a)) da in
    rw (e, none_left) (rw sum (unfold Float.le in ground arith))
Ends-le a q x da less (m, e, inr fits) =
    rw e (le_of_not_lt (fin (pos q)) _ (fin-ne-nan _) (add_fin-ne-nan _ _) fits)

flip-Ends :
    (a q : ℕ) → a < q → Ends (fin (pos a)) (fin (pos q)) (Float.sub (fin (pos q)) (fin (pos a)))
flip-Ends a q less = rw (sub-pos q a less) (elim (of_ratio-pos (q - a) 1) [
  | inl (m, e) ↦ rw e (step_down-Ends _ _ m)
  | inr e ↦ rw e (step_down-Ends_inf _ _)
])

-- The halves of a position-crossing order never sum to more than the request, as doubles.
flip-le :
    (a q : ℕ)
    → IsDouble (fin (pos a))
    → a < q
    → let plan = split_flip (fin (pos a)) (fin (pos q)) in
      Float.le (Float.add plan.reduce_qty plan.open_qty) (fin (pos q)) ≡ true
unfolding split_flip
flip-le a q da less = Ends-le a q _ da less (flip-Ends a q less)

flip_le :
    (a : ℕ) (qty : ℤ)
    → IsDouble (fin (pos a))
    → Float.le (fin qty) (fin (pos a)) ≡ false
    → let plan = split_flip (fin (pos a)) (fin qty) in
      Float.le (Float.add plan.reduce_qty plan.open_qty) (fin qty) ≡ true
unfolding Float.le
flip_le a (pos q) da h = unfold Float.le in flip-le a q da (ground arith)
flip_le a (negsuc q) da h = absurd (ground arith)

flip_abs :
    (position qty : ℤ)
    → IsDouble (fin position)
    → Float.le (fin qty) (Float.abs (fin position)) ≡ false
    → let plan = split_flip (Float.abs (fin position)) (fin qty) in
      Float.le (Float.add plan.reduce_qty plan.open_qty) (fin qty) ≡ true
unfolding Float.abs
flip_abs position qty dp h = flip_le (magnitude position) qty (abs-IsDouble position dp) h

-- For a finite position and a finite positive request, both doubles, the two halves never sum to more
-- than the request, whatever the direction of the order.
pub split_order-le :
    (action : String) (position qty : ℤ)
    → IsDouble (fin position)
    → IsDouble (fin qty)
    → Float.lt zero_float (fin qty) ≡ true
    → let plan = split_order action (some (fin position)) (some (fin qty)) in
      Float.le (Float.add plan.reduce_qty plan.open_qty) (fin qty) ≡ true
unfolding split_order Float.is_finite
split_order-le action position qty dp dq h =
    let more = not_le_of_lt zero_float (fin qty) h in
    elim (Bool-cases (reduces_exposure action (some (fin position)) (some (fin qty)))) [
      | inl reduces ↦ elim (Bool-cases (Float.le (fin qty) (Float.abs (fin position)))) [
        | inl inside ↦
            rw (more, reduces, inside)
              (rw (add-zero (fin qty) dq) (le_refl (fin qty) (fin-ne-nan qty)))
        | inr crosses ↦ rw (more, reduces, crosses) (flip_abs position qty dp crosses)
      ]
      | inr opens ↦
          rw (more, opens) (rw (zero-add (fin qty) dq) (le_refl (fin qty) (fin-ne-nan qty)))
    ]
