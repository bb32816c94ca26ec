-- ===== src/Orders/Protective/Plan.antt =====
-- What a planned protective stop guarantees.
use openwallstreet.Prelude.{
  ℕ, zero, suc, ◌^◌, ◌*◌, ◌-◌, ◌+◌, ◌≡◌, ◌⊎◌, refl, true, false, none, some, arith, Bool-cases,
  Option-cases, inl, inr, ℤ, pos, negsuc,
}
use openwallstreet.Float
use openwallstreet.Float.{Float, nan, inf, neg_inf, fin, zero_float}
use openwallstreet.Float.Laws.{of_ratio-zero}
use openwallstreet.Orders.Quantity.{reducible_quantity}
use openwallstreet.Orders.Quantity.Shares.{reducible_quantity_bounds}
use openwallstreet.Orders.Protective.{
  ProtectiveStop, hundred, hundredth, target_price, step_down, step_down_cents, stop_of_cents,
  stop_of_target, stop_for, protective_stop_plan,
}

-- A stop that protects: a positive quantity within what is attributed and what the broker holds, at a
-- positive price strictly below entry and not above the price that was asked for.
pub record IsProtection (attributed broker cost pct : Float) (s : ProtectiveStop) : Type 0 where
  pub positive : Float.lt zero_float s.quantity ≡ true
  pub within_attributed : Float.le s.quantity attributed ≡ true
  pub within_broker : Float.le s.quantity broker ≡ true
  pub price_pos : Float.lt zero_float s.stop_price ≡ true
  pub below_entry : Float.lt s.stop_price cost ≡ true
  pub not_above_target : Float.lt (target_price cost pct) s.stop_price ≡ false

step_down-stops :
    (target : Float) (n : ℕ)
    → (step_down target n ≡ 0)
      ⊎ (Float.lt target (hundredth (Float.of_ℤ (pos (step_down target n)))) ≡ false)
unfolding step_down
step_down-stops target zero = inl refl
step_down-stops target (suc n) =
    elim (Bool-cases (Float.lt target (hundredth (Float.of_ℤ (pos (suc n)))))) [
      | inl over ↦ rw over (step_down-stops target n)
      | inr fits ↦ rw fits (inr fits)
    ]

-- The divisor is a positive number of units.
hundred_lem : (k : ℕ) × (hundred ≡ fin (pos (suc k)))
unfolding hundred Float.literal Float.nearest Float.round_div Float.quantum Float.overflow
    Float.unit
hundred_lem = (100 * 2 ^ 1074 - 1, refl)

div-nonpos :
    (x : Float) (k : ℕ)
    → Float.lt zero_float x ≡ false
    → (y : Float) × (Float.div x (fin (pos (suc k))) ≡ some y) × (Float.lt zero_float y ≡ false)
unfolding Float.div Float.lt zero_float
div-nonpos nan k h = (_, refl, refl)
div-nonpos inf k h = absurd (ground arith)
div-nonpos neg_inf k h = (_, refl, refl)
div-nonpos (fin (pos zero)) k h =
    (_, refl, rw (of_ratio-zero (0 * Float.unit) (suc k + 0) (omega arith)))
div-nonpos (fin (pos (suc n))) k h = absurd (ground arith)
div-nonpos (fin (negsuc n)) k h = (_, refl, ground arith)

hundredth-nonpos :
    (x : Float) → Float.lt zero_float x ≡ false → Float.lt zero_float (hundredth x) ≡ false
unfolding hundredth
hundredth-nonpos x h =
    let (k, e) = hundred_lem in let (y, q, below) = div-nonpos x k h in rw (e, q, hundredth) below

of_ℤ-negsuc : (n : ℕ) → Float.lt zero_float (Float.of_ℤ (negsuc n)) ≡ false
unfolding Float.of_ℤ Float.lt zero_float Float.of_ratio
of_ℤ-negsuc n = ground arith

of_zero : Float.lt zero_float (Float.of_ℤ (pos 0)) ≡ false
unfolding Float.of_ℤ Float.lt zero_float Float.of_ratio
of_zero = rw (of_ratio-zero (0 * Float.unit) 1 (omega arith))

hundredth-of_zero : Float.lt zero_float (hundredth (Float.of_ℤ (pos 0))) ≡ false
hundredth-of_zero = hundredth-nonpos (Float.of_ℤ (pos 0)) of_zero

-- A positive stop price is one at which the loop stopped by its test.
cents-not_above :
    (target : Float) (cents : ℤ)
    → Float.lt zero_float (hundredth (Float.of_ℤ (step_down_cents target cents))) ≡ true
    → Float.lt target (hundredth (Float.of_ℤ (step_down_cents target cents))) ≡ false
unfolding step_down_cents
cents-not_above target (pos n) h = elim (step_down-stops target n) [
  | inl none_left ↦ absurd (cc (hundredth-of_zero, none_left, h))
  | inr fits ↦ fits
]
cents-not_above target (negsuc n) h =
    absurd (cc (hundredth-nonpos (Float.of_ℤ (negsuc n)) (of_ℤ-negsuc n), h))

stop_of_cents-IsProtection :
    (attributed broker cost pct quantity : Float) (cents : ℤ) {s : ProtectiveStop}
    → Float.lt zero_float quantity ≡ true
    → Float.le quantity attributed ≡ true
    → Float.le quantity broker ≡ true
    → stop_of_cents cost quantity (step_down_cents (target_price cost pct) cents) ≡ some s
    → IsProtection attributed broker cost pct s
unfolding stop_of_cents
stop_of_cents-IsProtection attributed broker cost pct quantity cents h a b e =
    ground (arith, cents-not_above (target_price cost pct) cents)

stop_for-IsProtection :
    (attributed broker cost pct quantity : Float) {s : ProtectiveStop}
    → Float.lt zero_float quantity ≡ true
    → Float.le quantity attributed ≡ true
    → Float.le quantity broker ≡ true
    → stop_for cost pct quantity ≡ some s
    → IsProtection attributed broker cost pct s
unfolding stop_for stop_of_target
stop_for-IsProtection attributed broker cost pct quantity h a b e =
    elim (Option-cases (Float.floor (Float.mul (target_price cost pct) hundred))) [
      | inl bad ↦ absurd (ground arith)
      | inr (cents, whole) ↦
          stop_of_cents-IsProtection attributed broker cost pct quantity cents h a b (ground arith)
    ]

stop_for_nothing : (cost pct : Float) → stop_for cost pct zero_float ≡ none
unfolding stop_for Float.le zero_float
stop_for_nothing cost pct = refl

-- Every planned stop is a protection: its quantity is positive and within the attributed and the broker
-- quantity, and its price is positive, below the cost and not above the target.
pub protective_stop_plan-IsProtection :
    (attributed broker cost pct : Float) {s : ProtectiveStop}
    → protective_stop_plan (some attributed) (some broker) (some cost) (some pct) ≡ some s
    → IsProtection attributed broker cost pct s
unfolding protective_stop_plan
protective_stop_plan-IsProtection attributed broker cost pct {s} e =
    elim (reducible_quantity_bounds attributed broker) [
      | inl ok ↦
          stop_for-IsProtection attributed broker cost pct
            (reducible_quantity (some attributed) (some broker)) (ground arith) ok.1 ok.2
            (ground arith)
      | inr bad ↦ absurd (ground (arith, stop_for_nothing cost pct))
    ]
