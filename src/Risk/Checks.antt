-- ===== src/Risk/Checks.antt =====
-- The vocabulary of the gate: limits, recorded checks and results.
use openwallstreet.Prelude.{
  ◌≡◌, ◌⊎◌, inl, inr, refl, sym, Bool, true, false, ◌&&◌, Option, none, some, arith, String,
  string_eq, [], ◌∷◌, Dict, insert, ℤ,
}
use openwallstreet.Float.{Float}

pub record RiskLimits : Type 0 where
  pub max_position_size_pct : Float
  pub max_daily_loss : Float
  pub max_open_orders : ℤ
  pub max_signals_per_hour : ℤ
  pub max_leverage : Float
  pub min_margin_cushion : Float
  pub max_order_notional : Float
  pub max_option_contracts_per_order : ℤ
  pub max_estimated_option_debit : Float
  pub max_daily_open_notional : Float
  pub max_daily_open_notional_per_strategy : Float

-- 'pass', 'fail', 'skipped:<why>', 'unevaluable:<what>'
pub data CheckOutcome : Type 0 where
  pass fail : CheckOutcome
  skipped unevaluable : String → CheckOutcome

abbrev pub Checks : Type 0
Checks = Dict String CheckOutcome

-- The refusals, without the numbers that their texts show.
pub data Reason : Type 0 where
  order_notional_exceeded option_contracts_exceeded option_debit_exceeded open_orders_exceeded :
      Reason
  daily_pnl_unread daily_loss_exceeded portfolio_value_unread position_value_unread : Reason
  concentration_too_high order_rate_exceeded turnover_unread strategy_turnover_exceeded : Reason
  account_turnover_exceeded net_liquidation_unread margin_unread leverage_exceeded : Reason
  equity_unread cushion_too_low : Reason

-- `RiskGateResult`; an approval has no reason.
pub record RiskGateResult : Type 0 where
  pub approved : Bool
  pub reason : Option Reason
  pub checks : Checks

-- How far an evaluation has come: on to the next check, returned, or raised an exception.
pub data Stage : Type 0 where
  passed : Checks → Stage
  refused : Reason → Checks → Stage
  exception : Stage

infixl 5 ◌>>=◌
abbrev pub ◌>>=◌ : Stage → (Checks → Stage) → Stage
passed c >>= f = f c
refused r c >>= f = refused r c
exception >>= f = exception

-- `checks[name] = …`
abbrev pub insert_check : String → CheckOutcome → Checks → Checks
insert_check = insert

-- A check that passed, and on.
abbrev pub record_pass : String → Checks → Stage
record_pass name c = passed (insert name pass c)

-- `checks[name] = …` and a refusal.
abbrev pub refuse : String → CheckOutcome → Reason → Checks → Stage
refuse name o r c = refused r (insert name o c)

-- The end of an evaluation; `none` is the exception.
abbrev pub finish : Stage → Option RiskGateResult
finish (passed c) = some (record { approved = true; reason = none; checks = c })
finish (refused r c) = some (record { approved = false; reason = some r; checks = c })
finish exception = none

-- A check that stands in the way of no order.
abbrev pub is_fine : CheckOutcome → Bool
is_fine pass = true
is_fine (skipped why) = true
is_fine fail = false
is_fine (unevaluable what) = false

-- Every recorded check is fine.
unfoldable pub clean : Checks → Bool
clean [] = true
clean ((k, o) ∷ c) = is_fine o && clean c

pub clean-insert_fine :
    (k : String) (o : CheckOutcome) (c : Checks)
    → is_fine o ≡ true
    → clean c ≡ true
    → clean (insert k o c) ≡ true
unfolding clean insert
clean-insert_fine k o [] h g = ground arith
clean-insert_fine k o ((j, p) ∷ c) h g = ground (arith, clean-insert_fine k o c h)

pub clean-insert_bad :
    (k : String) (o : CheckOutcome) (c : Checks) → is_fine o ≡ false → clean (insert k o c) ≡ false
unfolding clean insert
clean-insert_bad k o [] h = ground arith
clean-insert_bad k o ((j, p) ∷ c) h = ground (arith, clean-insert_bad k o c h)

-- A stage that goes on has recorded only fine checks, one that refuses names a check that is not, and one
-- that raises does so because of `P`.
abbrev pub IsSoundBut : Type 0 → Stage → Type 0
IsSoundBut P (passed c) = clean c ≡ true
IsSoundBut P (refused r c) = clean c ≡ false
IsSoundBut P exception = P

-- As it is, and none raises.
abbrev pub IsSound : Stage → Type 0
IsSound = IsSoundBut ⊥

pub >>=-IsSound :
    (m : Stage) (f : Checks → Stage)
    → IsSound m
    → ((c : Checks) → clean c ≡ true → IsSound (f c))
    → IsSound (m >>= f)
>>=-IsSound (passed c) f h k = k c h
>>=-IsSound (refused r c) f h k = h
>>=-IsSound exception f h k = h

pub IsSound-IsSoundBut : (P : Type 0) (m : Stage) → IsSound m → IsSoundBut P m
IsSound-IsSoundBut P (passed c) h = h
IsSound-IsSoundBut P (refused r c) h = h
IsSound-IsSoundBut P exception h = absurd h

pub >>=-IsSoundBut :
    (P : Type 0) (m : Stage) (f : Checks → Stage)
    → IsSound m
    → ((c : Checks) → clean c ≡ true → IsSoundBut P (f c))
    → IsSoundBut P (m >>= f)
>>=-IsSoundBut P (passed c) f h k = k c h
>>=-IsSoundBut P (refused r c) f h k = h
>>=-IsSoundBut P exception f h k = absurd h

-- An evaluation returns a result that is sound, or raises because of `P`.
pub finish_sound_but :
    (P : Type 0) (m : Stage)
    → IsSoundBut P m
    → ((r : RiskGateResult) × (finish m ≡ some r) × (r.approved ≡ clean r.checks))
      ⊎ ((finish m ≡ none) × P)
finish_sound_but P (passed c) h = inl (_, refl, sym h)
finish_sound_but P (refused r c) h = inl (_, refl, sym h)
finish_sound_but P exception h = inr (refl, h)

-- A sound evaluation returns, and approves exactly when every recorded check is fine.
pub finish_sound :
    (m : Stage)
    → IsSound m
    → (r : RiskGateResult) × (finish m ≡ some r) × (r.approved ≡ clean r.checks)
finish_sound (passed c) h = (_, refl, sym h)
finish_sound (refused r c) h = (_, refl, sym h)
finish_sound exception h = absurd h

-- Inversion of a chain that goes on.
pub >>=-passed :
    (m : Stage) (f : Checks → Stage) {c : Checks}
    → (m >>= f) ≡ passed c
    → (d : Checks) × (m ≡ passed d) × (f d ≡ passed c)
>>=-passed (passed d) f h = (d, refl, h)
>>=-passed (refused r d) f h = cc
>>=-passed exception f h = cc
