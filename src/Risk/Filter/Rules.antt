-- ===== src/Risk/Filter/Rules.antt =====
-- What the trading filter lets through.
use openwallstreet.Prelude.{
  ◌≡◌, refl, ◌↔◌, ◌≢◌, Bool, true, false, not, ◌&&◌, ◌||◌, Option, none, some, arith, String, ◌==◌,
  string_eq, eq_iff, List, [], ◌∷◌, upper, non_empty, Bool-cases, inl, inr,
}
use openwallstreet.Float
use openwallstreet.Float.{Float, zero_float}
use openwallstreet.Risk.Filter.{
  TradingFilter, FilterReason, exchange_denied, exchange_not_allowed, sec_type_denied,
  sec_type_not_allowed, location_denied, location_not_allowed, listed, attribute_reason,
  symbol_reason, price_reason, or_else, refusal, is_allowed,
}

-- A value passes a pair of lists: it is not denied, and it is allowed where an allowlist is given.
abbrev pub Passes : List String → List String → String → Type 0
Passes deny allow value =
    (listed (upper value) deny ≡ false) × (allow ≢ [] → listed (upper value) allow ≡ true)

-- All rules of the filter, each for the attributes that the caller gave.
pub record IsPermitted (f : TradingFilter) (symbol exchange sec_type : String) (price : Float)
    (location : String) : Type 0 where
  pub symbol_passes : Passes f.denylist f.allowlist symbol
  pub exchange_passes : exchange ≢ "" → Passes f.deny_exchanges f.exchanges exchange
  pub sec_type_passes : sec_type ≢ "" → Passes f.deny_sec_types f.sec_types sec_type
  pub location_passes : location ≢ "" → Passes f.deny_locations f.locations location
  pub price_passes :
      Float.lt zero_float price ≡ true
      → Float.lt zero_float f.min_price ≡ true
      → Float.lt price f.min_price ≡ false

or_else-none : (a b : Option FilterReason) → (or_else a b ≡ none) ↔ ((a ≡ none) × (b ≡ none))
or_else-none none b = (λ h. (refl, h), λ h. h.1)
or_else-none (some r) b = (λ h. absurd (ground arith), λ h. h.0)

no_refusal :
    (o : Option FilterReason)
    → ◌≡◌ {A = Bool} (elim o [ none ↦ true | some why ↦ false ]) true
    → o ≡ none
no_refusal none h = refl
no_refusal (some why) h = cc

-- The two tests of a pair of lists, as one Boolean.
denied_or_not_allowed : List String → List String → String → Bool
denied_or_not_allowed deny allow v = listed v deny || (non_empty allow && not (listed v allow))

denied_or_not_allowed_iff :
    (deny allow : List String) (value : String)
    → (denied_or_not_allowed deny allow (upper value) ≡ false) ↔ Passes deny allow value
unfolding denied_or_not_allowed
denied_or_not_allowed_iff deny [] value =
    (λ h. (ground arith, λ ne. absurd (ne refl)), λ h. ground (arith, h.0))
denied_or_not_allowed_iff deny (a ∷ allow) value =
    (λ h. (ground arith, λ ne. ground arith), λ h. ground (arith, h.0, h.1 (λ e. cc)))

symbol_reason-none :
    (f : TradingFilter) (symbol : String)
    → (symbol_reason f symbol ≡ none) ↔ Passes f.denylist f.allowlist symbol
unfolding symbol_reason denied_or_not_allowed
symbol_reason-none f symbol =
    let rule = denied_or_not_allowed_iff f.denylist f.allowlist symbol in
    (λ h. rule.0 (ground arith), λ h. ground (arith, rule.1 h))

non_empty-listed :
    (v : String) (names : List String) → (non_empty names && listed v names) ≡ listed v names
non_empty-listed v [] = refl
non_empty-listed v (n ∷ names) = refl

attribute_reason-none :
    (denied not_allowed : String → FilterReason) (deny allow : List String) (value : String)
    → (attribute_reason denied not_allowed deny allow value ≡ none)
      ↔ (value ≢ "" → Passes deny allow value)
unfolding attribute_reason denied_or_not_allowed
attribute_reason-none denied not_allowed deny allow value =
    let rule = denied_or_not_allowed_iff deny allow value in
    let both = non_empty-listed (upper value) deny in
    (
      λ h given. rule.0 (ground (arith, eq_iff value "", both)),
      λ h. elim (Bool-cases (value == "")) [
        | inl empty ↦ rw empty
        | inr given ↦ ground (arith, both, rule.1 (h (λ e. ground (arith, eq_iff value ""))))
      ],
    )

price_reason-none :
    (f : TradingFilter) (price : Float)
    → (price_reason f price ≡ none) ↔ (
        Float.lt zero_float price ≡ true
        → Float.lt zero_float f.min_price ≡ true
        → Float.lt price f.min_price ≡ false)
unfolding price_reason
price_reason-none f price = (
  λ h p q. ground arith,
  λ h. elim (Bool-cases (Float.lt zero_float price)) [
    | inr no_price ↦ rw no_price
    | inl priced ↦ elim (Bool-cases (Float.lt zero_float f.min_price)) [
      | inr no_floor ↦ rw (priced, no_floor)
      | inl floored ↦ rw (priced, floored, h priced floored)
    ]
  ],
)

refusal-none :
    (f : TradingFilter) (symbol exchange sec_type : String) (price : Float) (location : String)
    → (refusal f symbol exchange sec_type price location ≡ none)
      ↔ IsPermitted f symbol exchange sec_type price location
unfolding refusal
refusal-none f symbol exchange sec_type price location = (permitted, allowed)
  where
    permitted :
        refusal f symbol exchange sec_type price location ≡ none
        → IsPermitted f symbol exchange sec_type price location
    permitted h =
        let (s, r₁) = (or_else-none _ _).0 h in
        let (e, r₂) = (or_else-none _ _).0 r₁ in
        let (t, r₃) = (or_else-none _ _).0 r₂ in
        let (l, p) = (or_else-none _ _).0 r₃ in
        record {
          symbol_passes = (symbol_reason-none f symbol).0 s;
          exchange_passes = (attribute_reason-none _ _ _ _ exchange).0 e;
          sec_type_passes = (attribute_reason-none _ _ _ _ sec_type).0 t;
          location_passes = (attribute_reason-none _ _ _ _ location).0 l;
          price_passes = (price_reason-none f price).0 p;
        }

    allowed :
        IsPermitted f symbol exchange sec_type price location
        → refusal f symbol exchange sec_type price location ≡ none
    allowed h = (or_else-none (symbol_reason f symbol) _).1 (
      (symbol_reason-none f symbol).1 h.symbol_passes,
      (or_else-none _ _).1 (
        (attribute_reason-none exchange_denied exchange_not_allowed _ _ exchange).1
            h.exchange_passes,
        (or_else-none _ _).1 (
          (attribute_reason-none sec_type_denied sec_type_not_allowed _ _ sec_type).1
              h.sec_type_passes,
          (or_else-none _ _).1 (
            (attribute_reason-none location_denied location_not_allowed _ _ location).1
                h.location_passes,
            (price_reason-none f price).1 h.price_passes,
          ),
        ),
      ),
    )

-- An instrument is allowed exactly when it passes every rule of the filter.
is_allowed_iff :
    (f : TradingFilter) (symbol exchange sec_type : String) (price : Float) (location : String)
    → ((is_allowed f symbol exchange sec_type price location).0 ≡ true)
      ↔ IsPermitted f symbol exchange sec_type price location
unfolding is_allowed
is_allowed_iff f symbol exchange sec_type price location =
    let rules = refusal-none f symbol exchange sec_type price location in
    (λ h. rules.0 (no_refusal _ h), λ h. rw (rules.1 h, is_allowed))
