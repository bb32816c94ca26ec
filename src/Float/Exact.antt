-- ===== src/Float/Exact.antt =====
-- Doubles proper: the numbers of units that rounding leaves alone.
use openwallstreet.Prelude.{ℕ, ◌-◌, ◌<◌, ◌≡◌, ap, ◌∙◌, true, arith, ℤ, pos, negsuc, ◌+ℤ◌}
use openwallstreet.Float
use openwallstreet.Float.{
  Float, nan, inf, neg_inf, fin, zero_float, nearest, overflow, magnitude, is_pos, of_ratio,
}

-- `fin z` is a double: its magnitude has at most 53 significant bits and is below 2^1024.
abbrev pub IsDouble : Float → Type 0
IsDouble (fin z) = (nearest (magnitude z) 1 ≡ magnitude z) × (magnitude z < overflow)
IsDouble _ = ⊥

pub round_exact : (z : ℤ) → IsDouble (fin z) → Float.round z ≡ fin z
unfolding Float.round of_ratio is_pos magnitude
round_exact (pos n) h = ground arith
round_exact (negsuc n) h = ground arith

+ℤ_zero : (z : ℤ) → z +ℤ pos 0 ≡ z
unfolding ◌+ℤ◌
+ℤ_zero z = ground arith

zero-+ℤ : (z : ℤ) → pos 0 +ℤ z ≡ z
unfolding ◌+ℤ◌
zero-+ℤ z = ground arith

pub add-zero : (x : Float) → IsDouble x → Float.add x zero_float ≡ x
unfolding Float.add zero_float
add-zero nan h = absurd h
add-zero inf h = absurd h
add-zero neg_inf h = absurd h
add-zero (fin z) h = ap Float.round (+ℤ_zero z) ∙ round_exact z h

pub zero-add : (x : Float) → IsDouble x → Float.add zero_float x ≡ x
unfolding Float.add zero_float
zero-add nan h = absurd h
zero-add inf h = absurd h
zero-add neg_inf h = absurd h
zero-add (fin z) h = ap Float.round (zero-+ℤ z) ∙ round_exact z h

pub abs-IsDouble : (z : ℤ) → IsDouble (fin z) → IsDouble (Float.abs (fin z))
unfolding Float.abs magnitude
abs-IsDouble (pos n) h = ground arith
abs-IsDouble (negsuc n) h = ground arith

-- The difference of two numbers of units where the first is larger.
pub sub-pos : (q a : ℕ) → a < q → Float.sub (fin (pos q)) (fin (pos a)) ≡ of_ratio true (q - a) 1
unfolding Float.sub Float.neg Float.add Float.round is_pos magnitude ◌+ℤ◌
sub-pos q a h = ground arith
