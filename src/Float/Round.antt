-- ===== src/Float/Round.antt =====
-- The rounding of IEEE 754 binary64, in units of the smallest subnormal 2^-1074: every finite double
-- is a whole number of units, and the exact result of an operation is a quotient of such numbers.
use openwallstreet.Prelude.{
  ℕ, zero, suc, ◌+◌, ◌-◌, ◌*◌, ◌/◌, ◌%◌, ◌^◌, ◌<◌, ◌≡◌, refl, ap, ◌∙◌, arith, ltb, leb, eqb,
  if◌then◌else◌, ◌≤◌, ◌⊎◌, inl, inr, Bool-cases,
}
use native.Mathlib.Numerals.{unary_clauses}
use native.Mathlib.Nat.{
  mul-div-le, one-le-pow, le-div_iff_mul-le, le_trans, pow-le-pow_right, mul-le-mul_left,
}

-- 1.0 in units.
unfoldable pub unit : ℕ
unit = 2 ^ 1074

-- 2^1024 in units: what does not stay below it is infinite.
unfoldable pub overflow : ℕ
overflow = 2 ^ 2098

-- The binary digits of `n` beyond `acc`, by steps of 2^k digits for k below the fuel.
digits_of : ℕ → ℕ → ℕ → ℕ
digits_of zero n acc = if eqb n 0 then acc else acc + 1
digits_of (suc k) n acc =
    let long = leb (2 ^ 2 ^ k) n in
    digits_of k (if long then n / 2 ^ 2 ^ k else n) (if long then acc + 2 ^ k else acc)

-- Exact below 2^8192: no operation on doubles has a larger exact result.
unfoldable pub bit_length : ℕ → ℕ
unfolding digits_of
bit_length n = digits_of 13 n 0

-- The distance of neighbouring doubles at magnitude `n`: 53 significant digits are kept.
unfoldable pub quantum : ℕ → ℕ
unfolding bit_length
quantum n = 2 ^ (bit_length n - 53)

-- The whole number nearest to `num / den`, an even one in a tie.
unfoldable pub round_div : ℕ → ℕ → ℕ
round_div num den =
    let twice = 2 * (num % den) in
    if ltb twice den
    then num / den
    else if ltb den twice
    then num / den + 1
    else num / den + num / den % 2

-- The magnitude of the double nearest to `num / den` units, its range unbounded.
unfoldable pub nearest : ℕ → ℕ → ℕ
nearest num den = let u = quantum (num / den) in u * round_div num (den * u)

-- The largest double below `n` units.
unfoldable pub previous : ℕ → ℕ
unfolding quantum
previous n = let u = quantum (n - 1) in u * ((n - 1) / u)

pub previous-lt : (n : ℕ) → 0 < n → previous n < n
unfolding previous
previous-lt n h = grind arith

bit_length_test : bit_length 9 ≡ 4
unfolding bit_length
bit_length_test = refl

round_div-zero : (den : ℕ) → round_div 0 den ≡ 0
unfolding round_div
round_div-zero den = grind arith

pub nearest-zero : (den : ℕ) → nearest 0 den ≡ 0
unfolding nearest
nearest-zero den =
    ap (λ (r : ℕ). quantum (0 / den) * r) (round_div-zero (den * quantum (0 / den))) ∙ omega arith

pub overflow-pos : 0 < overflow
unfolding overflow
overflow-pos = omega arith

pow-add : (a b : ℕ) → 2 ^ (a + b) ≡ 2 ^ a * 2 ^ b
pow-add a zero = grind arith
pow-add a (suc b) = simp unary_clauses (grind (arith, pow-add a b))

-- The digits of a quotient, counted on top of the 2^k that were divided off.
longer :
    (k n acc : ℕ)
    → 2 ^ 2 ^ k ≤ n
    → {r : ℕ} → (r ≡ acc + 2 ^ k) ⊎ ((d : ℕ) × (r ≡ acc + 2 ^ k + suc d) × (2 ^ d ≤ n / 2 ^ 2 ^ k))
    → (r ≡ acc) ⊎ ((d : ℕ) × (r ≡ acc + suc d) × (2 ^ d ≤ n))
longer k n acc long (inl exact) =
    let one = one-le-pow k 2 (omega arith) in
    inr (
      2 ^ k - 1,
      omega (arith, one, exact),
      le_trans (pow-le-pow_right {n = 2} (omega arith) {j = 2 ^ k} (omega arith)) long,
    )
longer k n acc long (inr (d, exact, below)) = inr (
  2 ^ k + d,
  omega arith,
  rw (pow-add (2 ^ k) d) (le_trans (mul-le-mul_left (2 ^ 2 ^ k) below) (mul-div-le n (2 ^ 2 ^ k))),
)

-- No digit is counted that the number does not have.
digits_of-cases :
    (k n acc : ℕ)
    → (digits_of k n acc ≡ acc) ⊎ ((d : ℕ) × (digits_of k n acc ≡ acc + suc d) × (2 ^ d ≤ n))
unfolding digits_of
digits_of-cases zero n acc = elim (Bool-cases (eqb n 0)) [
  | inl none_left ↦ inl (rw none_left refl)
  | inr one_left ↦ inr (0, rw one_left (omega arith), ground arith)
]
digits_of-cases (suc k) n acc = elim (Bool-cases (leb (2 ^ 2 ^ k) n)) [
  | inr short ↦ rw short (digits_of-cases k n acc)
  | inl long ↦
      rw long (longer k n acc (ground arith) (digits_of-cases k (n / 2 ^ 2 ^ k) (acc + 2 ^ k)))
]

quantum-pos : (n : ℕ) → 0 < quantum n
unfolding quantum
quantum-pos n = one-le-pow (bit_length n - 53) 2 (omega arith)

-- Neighbours of a number that is not 0 are not further apart than itself.
quantum-le : (n : ℕ) → 0 < n → quantum n ≤ n
unfolding quantum bit_length
quantum-le n h = elim (digits_of-cases 13 n 0) [
  | inl nothing ↦ rw nothing h
  | inr (d, exact, below) ↦
      rw exact (le_trans (pow-le-pow_right {n = 2} (omega arith) {j = d} (omega arith)) below)
]

round_div-pos : (num den : ℕ) → 0 < den → den ≤ num → 0 < round_div num den
unfolding round_div
round_div-pos num den h le =
    let one = (le-div_iff_mul-le {k = den} {x = 1} {y = num} h).1 (omega (arith, le)) in
    ground (arith, one)

-- A number of units that is not 0 does not round to 0.
pub nearest-pos : (n : ℕ) → 0 < n → 0 < nearest n 1
unfolding nearest
nearest-pos n h =
    let u-pos = quantum-pos n in
    let r-pos = round_div-pos n (quantum n) u-pos (quantum-le n h) in
    let whole : n / 1 ≡ n = omega arith in
    let once : 1 * quantum n ≡ quantum n = omega arith in
    rw (whole, once) (grind (arith, u-pos, r-pos))
