-- ===== src/Float/Laws.antt =====
-- The order of the doubles, and when an operation stays a number.
use openwallstreet.Prelude.{
  ℕ, zero, suc, ◌≡◌, refl, ◌⊎◌, inl, inr, Bool-cases, some, ltb, lt→ltb, Bool, true, false, not,
  ◌&&◌, ◌||◌, arith, ℤ, pos, negsuc,
}
use openwallstreet.Float
use openwallstreet.Float.{Float, nan, inf, neg_inf, fin, zero_float, of_ratio, nearest, overflow}

-- For finite and strictly positive.
abbrev pub finite_pos : Float → Bool
finite_pos x = Float.is_finite x && Float.lt zero_float x

-- Away from NaN, `not (x < y)` is `y <= x`.
pub le_of_not_lt :
    (x y : Float)
    → Float.is_nan x ≡ false
    → Float.is_nan y ≡ false
    → Float.lt x y ≡ false
    → Float.le y x ≡ true
unfolding Float.is_nan Float.lt Float.le
le_of_not_lt x y hx hy h = ground arith

pub le_of_lt : (x y : Float) → Float.lt x y ≡ true → Float.le x y ≡ true
unfolding Float.lt Float.le
le_of_lt x y h = ground arith

pub le_trans : (x y z : Float) → Float.le x y ≡ true → Float.le y z ≡ true → Float.le x z ≡ true
unfolding Float.le
le_trans x y z p q = ground arith

pub lt-le_trans : (x y z : Float) → Float.lt x y ≡ true → Float.le y z ≡ true → Float.lt x z ≡ true
unfolding Float.le Float.lt
lt-le_trans x y z p q = ground arith

pub le_refl : (x : Float) → Float.is_nan x ≡ false → Float.le x x ≡ true
unfolding Float.is_nan Float.le
le_refl x h = ground arith

pub finite-ne-nan : (x : Float) → Float.is_finite x ≡ true → Float.is_nan x ≡ false
unfolding Float.is_finite Float.is_nan
finite-ne-nan x h = ground arith

pub of_ratio-ne-nan : (b : Bool) (m d : ℕ) → Float.is_nan (of_ratio b m d) ≡ false
unfolding Float.is_nan of_ratio
of_ratio-ne-nan b m d = ground arith

-- A number times a finite positive number is a number.
pub mul-ne-nan :
    (x y : Float)
    → Float.is_nan x ≡ false
    → finite_pos y ≡ true
    → Float.is_nan (Float.mul x y) ≡ false
unfolding Float.is_nan Float.mul Float.is_finite Float.lt zero_float
mul-ne-nan nan y hx hy = ground arith
mul-ne-nan inf y hx hy = ground arith
mul-ne-nan neg_inf y hx hy = ground arith
mul-ne-nan (fin a) nan hx hy = ground arith
mul-ne-nan (fin a) inf hx hy = ground arith
mul-ne-nan (fin a) neg_inf hx hy = ground arith
mul-ne-nan (fin a) (fin b) hx hy = ground arith

-- The guard `not math.isfinite(x) or x <= 0`.
pub guard-pos :
    (x : Float) → (not (Float.is_finite x) || Float.le x zero_float) ≡ not (finite_pos x)
unfolding Float.is_finite Float.le Float.lt zero_float
guard-pos x = ground arith

-- The guard `not math.isfinite(x) or x == 0.0`.
pub guard_ne :
    (x : Float)
    → (not (Float.is_finite x) || Float.eq x zero_float)
      ≡ not (Float.is_finite x && (Float.lt zero_float x || Float.lt x zero_float))
unfolding Float.is_finite Float.eq Float.lt zero_float
guard_ne x = ground arith

-- No number is both positive and negative.
pub lt_asymm : (x y : Float) → Float.lt x y ≡ true → Float.lt y x ≡ false
unfolding Float.lt
lt_asymm x y h = ground arith

-- A rounded magnitude is a number of units or an infinity.
pub of_ratio-pos :
    (num den : ℕ)
    → ((m : ℕ) × (of_ratio true num den ≡ fin (pos m))) ⊎ (of_ratio true num den ≡ inf)
unfolding of_ratio
of_ratio-pos num den = elim (Bool-cases (ltb (nearest num den) overflow)) [
  | inl small ↦ inl (nearest num den, rw small)
  | inr big ↦ inr (rw big)
]

pub add_fin-ne-nan : (a b : ℤ) → Float.is_nan (Float.add (fin a) (fin b)) ≡ false
unfolding Float.add Float.round
add_fin-ne-nan a b = of_ratio-ne-nan _ _ _

pub fin-ne-nan : (a : ℤ) → Float.is_nan (fin a) ≡ false
unfolding Float.is_nan
fin-ne-nan a = refl

pub not_le_of_lt : (x y : Float) → Float.lt x y ≡ true → Float.le y x ≡ false
unfolding Float.lt Float.le
not_le_of_lt x y h = ground arith

pub min_of_le : (x y : ℤ) → Float.le (fin y) (fin x) ≡ true → Float.min (fin x) (fin y) ≡ fin y
unfolding Float.min Float.lt Float.le
min_of_le x y h = ground arith

pub min_of_not_le : (x y : ℤ) → Float.le (fin y) (fin x) ≡ false → Float.min (fin x) (fin y) ≡ fin x
unfolding Float.min Float.lt Float.le
min_of_not_le x y h = ground arith

of_ratio-nonneg : (num den : ℕ) → Float.le zero_float (of_ratio true num den) ≡ true
unfolding Float.le zero_float of_ratio
of_ratio-nonneg num den = ground arith

-- A product with a finite positive number keeps the sign of the other.
pub mul-nonneg :
    (x y : Float)
    → Float.le zero_float x ≡ true
    → finite_pos y ≡ true
    → Float.le zero_float (Float.mul x y) ≡ true
unfolding Float.le zero_float Float.mul Float.is_finite Float.lt
mul-nonneg nan y h k = ground arith
mul-nonneg neg_inf y h k = ground arith
mul-nonneg inf (fin (pos zero)) h k = ground arith
mul-nonneg inf (fin (pos (suc n))) h k = refl
mul-nonneg inf (fin (negsuc n)) h k = ground arith
mul-nonneg inf y h k = ground arith
mul-nonneg (fin (pos n)) (fin (pos m)) h k = unfold zero_float in of_ratio-nonneg _ _
mul-nonneg (fin (pos n)) (fin (negsuc m)) h k = ground arith
mul-nonneg (fin (pos n)) y h k = ground arith
mul-nonneg (fin (negsuc n)) y h k = ground arith

pub min-le :
    (x y : Float)
    → finite_pos x ≡ true
    → finite_pos y ≡ true
    → (Float.le (Float.min x y) x ≡ true)
      × (Float.le (Float.min x y) y ≡ true)
      × (finite_pos (Float.min x y) ≡ true)
unfolding Float.min Float.lt Float.le Float.is_finite zero_float
min-le x y hx hy = ground arith

pub of_ℤ-ne-nan : (z : ℤ) → Float.is_nan (Float.of_ℤ z) ≡ false
unfolding Float.of_ℤ Float.is_nan of_ratio
of_ℤ-ne-nan z = ground arith

-- Nothing rounds to 0.0.
pub of_ratio-zero : (num den : ℕ) → num ≡ 0 → of_ratio true num den ≡ fin (pos 0)
unfolding of_ratio
of_ratio-zero num den e = rw (e, Float.nearest-zero den, lt→ltb 0 overflow Float.overflow-pos)

-- Division by what is not 0.0 or below returns.
pub div-returns :
    (x y : Float) → Float.le y zero_float ≡ false → (z : Float) × (Float.div x y ≡ some z)
unfolding Float.div Float.le zero_float
div-returns x (fin (pos zero)) h = absurd (ground arith)
div-returns x (fin (pos (suc n))) h = (_, refl)
div-returns x (fin (negsuc n)) h = absurd (ground arith)
div-returns x nan h = (_, refl)
div-returns x neg_inf h = absurd (ground arith)
div-returns nan inf h = (_, refl)
div-returns inf inf h = (_, refl)
div-returns neg_inf inf h = (_, refl)
div-returns (fin a) inf h = (_, refl)

pub div_nan : (x : Float) → Float.div x nan ≡ some nan
unfolding Float.div
div_nan nan = refl
div_nan inf = refl
div_nan neg_inf = refl
div_nan (fin z) = refl
