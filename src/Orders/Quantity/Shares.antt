-- ===== src/Orders/Quantity/Shares.antt =====
-- The share counts and the reducible quantity of trader/trading/order_math.py against their bounds.
use openwallstreet.Prelude.{
  ℕ, zero, suc, ◌≤◌, ◌<◌, ◌≡◌, true, false, ◌&&◌, some, arith, Bool-cases, Option-cases, inl, inr,
  pos, pos_part, ◌⊎◌,
}
use openwallstreet.Float
use openwallstreet.Float.{Float, zero_float}
use openwallstreet.Float.Laws.{
  finite_pos, le_of_not_lt, mul-ne-nan, finite-ne-nan, of_ℤ-ne-nan, min-le,
}
use openwallstreet.Orders.Quantity.{
  reducible_quantity, shares_of, cost, step_down, at_least_one, floor_shares_of_ratio,
  floor_shares_for_notional, whole_shares_for_notional,
}

-- The loop ends at the largest count, up to the one that it starts from, whose cost is within the amount;
-- 0 if there is none.
pub step_down_lem :
    (amount price multiplier : Float) (start : ℕ)
    → let n = step_down amount price multiplier start in
      (n ≤ start)
      × ((k : ℕ) → n < k → k ≤ start → Float.lt amount (cost k price multiplier) ≡ true)
      × (0 < n → Float.lt amount (cost n price multiplier) ≡ false)
unfolding step_down
step_down_lem amount price multiplier zero =
    (omega arith, λ k p q. absurd (omega arith), λ p. absurd (omega arith))
step_down_lem amount price multiplier (suc n) =
    let ih = step_down_lem amount price multiplier n in
    elim (Bool-cases (Float.lt amount (cost (suc n) price multiplier))) [
      | inl over ↦ rw over (omega (arith, ih.0), λ k p q. above over ih.1 k p q, ih.2)
      | inr fits ↦ rw fits (omega arith, λ k p q. absurd (omega arith), λ p. fits)
    ]
  where
    above :
        {m : ℕ}
        → Float.lt amount (cost (suc n) price multiplier) ≡ true
        → ((k : ℕ) → m < k → k ≤ n → Float.lt amount (cost k price multiplier) ≡ true)
        → (k : ℕ) → m < k
        → k ≤ suc n
        → Float.lt amount (cost k price multiplier) ≡ true
    above over ih k p q = ground (arith, ih k)

cost-ne-nan :
    (n : ℕ) (price multiplier : Float)
    → finite_pos price ≡ true
    → finite_pos multiplier ≡ true
    → Float.is_nan (cost n price multiplier) ≡ false
unfolding cost
cost-ne-nan n price multiplier hp hm =
    mul-ne-nan _ multiplier (mul-ne-nan _ price (of_ℤ-ne-nan (pos n)) hp) hm

at_least_one_inv : (m : ℕ) {n : ℕ} → at_least_one m ≡ shares_of n → (m ≡ n) × (1 ≤ n)
unfolding at_least_one
at_least_one_inv zero e = absurd (ground arith)
at_least_one_inv (suc m) e = ground arith

step_down-le :
    (amount price multiplier : Float) (start : ℕ) {n : ℕ}
    → finite_pos amount ≡ true
    → finite_pos price ≡ true
    → finite_pos multiplier ≡ true
    → at_least_one (step_down amount price multiplier start) ≡ shares_of n
    → (1 ≤ n) × (Float.le (cost n price multiplier) amount ≡ true)
step_down-le amount price multiplier start {n} ha hp hm e =
    let (same, one) = at_least_one_inv (step_down amount price multiplier start) e in
    let within = (step_down_lem amount price multiplier start).2 (omega arith) in
    (
      one,
      le_of_not_lt amount (cost n price multiplier) (finite-ne-nan amount (ground arith))
          (cost-ne-nan n price multiplier hp hm) (rw same at within),
    )

floor_shares_of_ratio-le :
    (amount price multiplier ratio : Float) {n : ℕ}
    → finite_pos amount ≡ true
    → finite_pos price ≡ true
    → finite_pos multiplier ≡ true
    → floor_shares_of_ratio amount price multiplier ratio ≡ shares_of n
    → (1 ≤ n) × (Float.le (cost n price multiplier) amount ≡ true)
unfolding floor_shares_of_ratio
floor_shares_of_ratio-le amount price multiplier ratio {n} ha hp hm e =
    elim (Option-cases (Float.floor ratio)) [
      | inl bad ↦ absurd (ground arith)
      | inr (z, whole) ↦
          step_down-le amount price multiplier (pos_part z) ha hp hm
            (rw (← e, whole, floor_shares_of_ratio))
    ]

floor_shares_for_notional-le :
    (amount price multiplier : Float) {n : ℕ}
    → finite_pos amount ≡ true
    → finite_pos price ≡ true
    → finite_pos multiplier ≡ true
    → floor_shares_for_notional amount price multiplier ≡ shares_of n
    → (1 ≤ n) × (Float.le (cost n price multiplier) amount ≡ true)
unfolding floor_shares_for_notional
floor_shares_for_notional-le amount price multiplier ha hp hm e =
    elim (Option-cases (Float.div amount (Float.mul price multiplier))) [
      | inl by_zero ↦ absurd (ground arith)
      | inr (ratio, whole) ↦
          floor_shares_of_ratio-le amount price multiplier ratio ha hp hm (ground arith)
    ]

-- A share count that is returned is at least one, and its cost, as the code computes it, is within the
-- amount.
pub whole_shares_for_notional-le :
    (amount price multiplier : Float) {n : ℕ}
    → whole_shares_for_notional (some amount) (some price) (some multiplier) ≡ shares_of n
    → (1 ≤ n) × (Float.le (cost n price multiplier) amount ≡ true)
unfolding whole_shares_for_notional
whole_shares_for_notional-le amount price multiplier e =
    elim (Bool-cases (finite_pos amount && finite_pos price && finite_pos multiplier)) [
      | inl sane ↦
          floor_shares_for_notional-le amount price multiplier (ground arith) (ground arith)
            (ground arith) (ground arith)
      | inr bad ↦ absurd (ground arith)
    ]

-- What may be reduced is within both bounds and positive where both are finite and positive, and 0.0
-- where one of them is not.
pub reducible_quantity_bounds :
    (attributed broker : Float)
    → let r = reducible_quantity (some attributed) (some broker) in
      ((finite_pos r ≡ true)
        × (Float.le r attributed ≡ true)
        × (Float.le r broker ≡ true)
        × (finite_pos attributed ≡ true)
        × (finite_pos broker ≡ true))
      ⊎ ((r ≡ zero_float) × ((finite_pos attributed ≡ false) ⊎ (finite_pos broker ≡ false)))
unfolding reducible_quantity
reducible_quantity_bounds attributed broker = ground (arith, min-le attributed broker)
