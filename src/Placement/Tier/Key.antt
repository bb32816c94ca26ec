-- ===== src/Placement/Tier/Key.antt =====
-- When the approver's tier lets an order through.
use openwallstreet.Prelude.{
  ◌≡◌, ◌≢◌, ◌⊎◌, ◌↔◌, inl, inr, refl, sym, ◌∙◌, Bool, true, false, not, ◌&&◌, Option, none, some,
  arith, String, ◌==◌, string_eq, eq_iff, List, [], ◌∷◌, if◌then◌else◌, Bool-cases, Option-cases,
  upper, strip,
}
use openwallstreet.Float
use openwallstreet.Float.{Float, zero_float}
use openwallstreet.Float.Laws.{le_of_not_lt}
use openwallstreet.Orders.Quantity.{
  finite_positive, is_price, unset_sentinel, first_notional, order_notional,
}
use openwallstreet.Placement.Account.{Contract, Ticker, Trader}
use openwallstreet.Placement.Exposure.{order_reduces_exposure}
use openwallstreet.Placement.Tier.{
  multiplier_of, first_usable, snapshot_price, limit_of, anchored, tier_notional, not_valued,
  check_key, enforce_approver_tier,
}

-- A valuation that needs no key, or comes with the configured one.
abbrev pub Covered : Float → String → String → Float × Bool → Type 0
Covered threshold supplied expected (notional, evaluable) =
    (evaluable ≡ true)
    × ((Float.lt threshold notional ≡ false) ⊎ ((expected ≢ "") × (supplied ≡ expected)))

check_key_iff :
    (threshold : Float) (supplied expected : String) (v : Float × Bool)
    → (check_key threshold supplied expected v ≡ none) ↔ Covered threshold supplied expected v
unfolding check_key
check_key_iff threshold supplied expected (notional, false) =
    (λ h. absurd (cc h), λ h. absurd (cc h.0))
check_key_iff threshold supplied expected (notional, true) = (
  ground (arith, eq_iff expected "", eq_iff supplied expected),
  ground (arith, eq_iff expected "", eq_iff supplied expected),
)

module _ (t : Trader) (c : Contract) (action : String) (quantity : Float) (order_type : String)
    (limit_price : Option Float) (key : String) (force_open : Bool) (tick : Option Ticker) where
  enforce_asks :
      Float.le t.approver_required_above_usd zero_float ≡ false
      → (not force_open && order_reduces_exposure t c action quantity) ≡ false
      → enforce_approver_tier t c action quantity order_type limit_price key force_open tick
        ≡ check_key t.approver_required_above_usd key t.approver_key
            (tier_notional c action quantity order_type limit_price tick)
  unfolding enforce_approver_tier
  enforce_asks on open_side = rw (on, open_side) refl

-- The tier lets an order through exactly when it is switched off, or the order is an exit that is not
-- forced open, or the order could be valued and its notional is not above the threshold or the configured
-- key came with it.
pub enforce_approver_tier_iff :
    (t : Trader) (c : Contract) (action : String) (quantity : Float) (order_type : String)
    (limit_price : Option Float) (key : String) (force_open : Bool) (tick : Option Ticker)
    → (enforce_approver_tier t c action quantity order_type limit_price key force_open tick ≡ none)
      ↔ ((Float.le t.approver_required_above_usd zero_float ≡ true)
          ⊎ ((force_open ≡ false) × (order_reduces_exposure t c action quantity ≡ true))
          ⊎ Covered t.approver_required_above_usd key t.approver_key
              (tier_notional c action quantity order_type limit_price tick))
unfolding enforce_approver_tier
enforce_approver_tier_iff t c action quantity order_type limit_price key force_open tick =
    elim (Bool-cases (Float.le t.approver_required_above_usd zero_float)) [
      | inl off ↦ (λ h. inl off, λ h. rw off refl)
      | inr on ↦ elim (Bool-cases (not force_open && order_reduces_exposure t c action quantity)) [
        | inl exit ↦ (λ h. inr (inl (ground arith)), λ h. rw (on, exit) refl)
        | inr open_side ↦
            let covered =
              check_key_iff t.approver_required_above_usd key t.approver_key
                (tier_notional c action quantity order_type limit_price tick) in
            let asks =
              enforce_asks t c action quantity order_type limit_price key force_open tick on
                open_side in
            (
              λ h. inr (inr (covered.0 (sym asks ∙ h))),
              λ h. elim h [
                | inl off ↦ absurd (cc (on, off))
                | inr (inl exit) ↦ absurd (ground arith)
                | inr (inr paid) ↦ asks ∙ covered.1 paid
              ],
            )
      ]
    ]

sentinel_positive : finite_positive (some unset_sentinel) ≡ true
unfolding finite_positive unset_sentinel Float.is_finite Float.lt zero_float Float.overflow
    Float.quantum
sentinel_positive = refl

sentinel-le : Float.le unset_sentinel unset_sentinel ≡ true
unfolding unset_sentinel Float.le Float.overflow Float.quantum
sentinel-le = refl

finite_positive-ne-nan : (p : Float) → finite_positive (some p) ≡ true → Float.is_nan p ≡ false
unfolding finite_positive Float.is_finite Float.is_nan
finite_positive-ne-nan p h = ground arith

-- No price that is anchored on an unset limit is usable.
unset-is_price :
    (p : Float)
    → finite_positive (some p) ≡ true
    → is_price (some (Float.max p unset_sentinel)) ≡ false
unfolding is_price Float.max
unset-is_price p h = elim (Bool-cases (Float.lt p unset_sentinel)) [
  | inl below ↦ ground (arith, below, sentinel-le)
  | inr above ↦ ground (
    arith,
    above,
    le_of_not_lt p unset_sentinel (finite_positive-ne-nan p h)
        (finite_positive-ne-nan unset_sentinel sentinel_positive) above,
  )
]

first_usable-finite_positive :
    (ps : List (Option Float)) (p : Float)
    → first_usable ps ≡ some p
    → finite_positive (some p) ≡ true
unfolding first_usable
first_usable-finite_positive [] p h = absurd (cc h)
first_usable-finite_positive (q ∷ ps) p h = ground (arith, first_usable-finite_positive ps p)

order_notional_unusable :
    (p quantity mult : Float)
    → is_price (some p) ≡ false
    → order_notional (some p ∷ []) (some quantity) (some mult) ≡ (zero_float, false)
unfolding order_notional first_notional
order_notional_unusable p quantity mult h = ground (arith, h)

snapshot_price-finite_positive :
    (act : String) (tick : Option Ticker) (p : Float)
    → snapshot_price act tick ≡ some p
    → finite_positive (some p) ≡ true
unfolding snapshot_price
snapshot_price-finite_positive act none p h = absurd (cc h)
snapshot_price-finite_positive act (some tick) p h =
    first_usable-finite_positive
      ((if act == "BUY" then tick.ask else tick.bid) ∷ tick.last ∷ tick.close ∷ []) p h

limit_of_unset :
    (order_type : String)
    → upper (strip order_type) ≢ "MARKET"
    → limit_of order_type (some unset_sentinel) ≡ some unset_sentinel
unfolding limit_of
limit_of_unset order_type other =
    ground (arith, sentinel_positive, eq_iff (upper (strip order_type)) "MARKET")

tier_notional_unset :
    (c : Contract) (action : String) (quantity : Float) (order_type : String) (tick : Option Ticker)
    → upper (strip order_type) ≢ "MARKET"
    → tier_notional c action quantity order_type (some unset_sentinel) tick ≡ (zero_float, false)
unfolding tier_notional anchored
tier_notional_unset c action quantity order_type tick other =
    elim (Option-cases (snapshot_price (upper (strip action)) tick)) [
      | inl missing ↦ ground (arith, missing)
      | inr (p, found) ↦
          let usable_p = snapshot_price-finite_positive (upper (strip action)) tick p found in
          ground (
            arith,
            found,
            limit_of_unset order_type other,
            order_notional_unusable (Float.max p unset_sentinel) quantity
                (multiplier_of c.multiplier) (unset-is_price p usable_p),
          )
    ]

-- While the tier is on, an opening order that is not spelled MARKET and leaves its limit unset, as a market
-- order of ib_async does, is refused as one that cannot be valued, whatever its quantity, the snapshot and
-- the key that came with it.
pub enforce_approver_tier_unset :
    (t : Trader) (c : Contract) (action : String) (quantity : Float) (order_type key : String)
    (force_open : Bool) (tick : Option Ticker)
    → Float.le t.approver_required_above_usd zero_float ≡ false
    → (not force_open && order_reduces_exposure t c action quantity) ≡ false
    → upper (strip order_type) ≢ "MARKET"
    → enforce_approver_tier t c action quantity order_type (some unset_sentinel) key force_open tick
      ≡ some not_valued
unfolding enforce_approver_tier check_key
enforce_approver_tier_unset t c action quantity order_type key force_open tick on open_side other =
    rw (on, open_side, tier_notional_unset c action quantity order_type tick other) refl
