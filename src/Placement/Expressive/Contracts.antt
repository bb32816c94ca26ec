-- ===== src/Placement/Expressive/Contracts.antt =====
-- The limit on option contracts, for orders that `place_expressive_order` evaluates.
use openwallstreet.Prelude.{◌≡◌, refl, true, false, arith, ℤ, pos, negsuc, ltb_ℤ, ◌↔◌}
use openwallstreet.Float
use openwallstreet.Float.{Float, zero_float}
use openwallstreet.Risk.Checks.{RiskLimits}
use openwallstreet.Risk.Gate.{World, Request, exact, evaluate}
use openwallstreet.Risk.Gate.Bounds.{IsAllowed, approves, evaluate_iff}
use openwallstreet.Placement.Legs.{Expressive}
use openwallstreet.Placement.Expressive.{Meeting, request_of}

abbrev pub with_contracts : ℤ → RiskLimits → RiskLimits
with_contracts n l = record l { max_option_contracts_per_order = n }

-- No limit is below a quantity of zero.
zero-within : (n : ℤ) → ltb_ℤ (pos 0) n ≡ true → Float.lt (exact n) (Float.abs zero_float) ≡ false
unfolding exact Float.lt Float.abs zero_float
zero-within (pos n) h = ground arith
zero-within (negsuc n) h = absurd (ground arith)

IsAllowed-with_contracts :
    (l : RiskLimits) (w : World) (q : Request) (n : ℤ)
    → q.order_quantity ≡ zero_float
    → IsAllowed l w q
    → IsAllowed (with_contracts n l) w q
IsAllowed-with_contracts l w q n e h = record {
  order_notional = h.order_notional;
  option = λ is_option. (λ on. rw e (zero-within n on), (h.option is_option).1);
  open_orders = h.open_orders;
  loss = h.loss;
  concentration = h.concentration;
  order_rate = h.order_rate;
  turnover = h.turnover;
}

-- The gate's answer on an order of `place_expressive_order` is the same whatever the limit on option contracts
-- of one order is: an order of any number of contracts passes it.
pub evaluate-with_contracts :
    (l : RiskLimits) (m : Meeting) (x : Expressive) (n : ℤ)
    → (approves (evaluate (with_contracts n l) m.at_gate.world (request_of m x)) ≡ true)
      ↔ (approves (evaluate l m.at_gate.world (request_of m x)) ≡ true)
unfolding request_of
evaluate-with_contracts l m x n =
    let w = m.at_gate.world in
    let q = request_of m x in
    (
      λ h. (evaluate_iff l w q).1 (
          IsAllowed-with_contracts (with_contracts n l) w q l.max_option_contracts_per_order refl
            ((evaluate_iff (with_contracts n l) w q).0 h)),
      λ h.
          (evaluate_iff (with_contracts n l) w q).1
            (IsAllowed-with_contracts l w q n refl ((evaluate_iff l w q).0 h)),
    )
