-- ===== src/Risk/Turnover/Opens.antt =====
-- What counts towards the turnover of a day.
use openwallstreet.Prelude.{
  ℕ, ◌≤◌, ◌<◌, ◌≡◌, refl, ◌⊎◌, inl, inr, Bool, true, false, not, ◌&&◌, none, some, arith, string_eq,
  List, [], ◌∷◌, any, filter, Bool-cases, Dict, contains,
}
use openwallstreet.Float.{Float}
use openwallstreet.Risk.Events.{
  TradingEvent, order_submitted, order_filled, same_type, query_since, is_exit_class,
}
use openwallstreet.Risk.Turnover.{
  Turnover, fill_prices, notional_of, tally, tally_all, no_turnover, tally_day, overflows,
  daily_open_notional,
}

-- A submission that closes: a close, a protective stop or a bracket leg, by its stamp.
unfoldable pub closes : TradingEvent → Bool
closes e = same_type e.event_type order_submitted && is_exit_class e

-- The events without the submissions that close.
unfoldable pub without_exits : List TradingEvent → List TradingEvent
without_exits = filter (λ e. not (closes e))

fills-without_exits :
    (day : ℕ) (events : List TradingEvent)
    → query_since day order_filled (without_exits events) ≡ query_since day order_filled events
unfolding query_since without_exits closes
fills-without_exits day [] = refl
fills-without_exits day (e ∷ events) = ground (arith, fills-without_exits day events)

tally_exit :
    (fills : Dict ℕ Float) (e : TradingEvent) (t : Turnover)
    → is_exit_class e ≡ true
    → tally fills e t ≡ t
unfolding tally
tally_exit fills e t h = rw h

tally_all-without_exits :
    (day : ℕ) (fills : Dict ℕ Float) (events : List TradingEvent) (t : Turnover)
    → tally_all fills (query_since day order_submitted (without_exits events)) t
      ≡ tally_all fills (query_since day order_submitted events) t
unfolding query_since without_exits closes tally_all
tally_all-without_exits day fills [] t = refl
tally_all-without_exits day fills (e ∷ events) t = ground (
  arith,
  tally_exit fills e t,
  tally_all-without_exits day fills events t,
  tally_all-without_exits day fills events (tally fills e t),
)

any-overflows-without_exits :
    (day : ℕ) (events : List TradingEvent)
    → any overflows (query_since day order_submitted (without_exits events))
      ≡ any overflows (query_since day order_submitted events)
unfolding query_since without_exits closes overflows
any-overflows-without_exits day [] = refl
any-overflows-without_exits day (e ∷ events) =
    ground (arith, any-overflows-without_exits day events)

tally_day-without_exits :
    (day : ℕ) (events : List TradingEvent)
    → tally_day day (without_exits events) ≡ tally_day day events
unfolding tally_day
tally_day-without_exits day events = rw (fills-without_exits day events) (
    tally_all-without_exits day (fill_prices (query_since day order_filled events) []) events
      no_turnover)

-- Closing submissions never consume the opening budget: the turnover of a day is the same with them and
-- without them.
pub daily_open_notional-without_exits :
    (day : ℕ) (events : List TradingEvent)
    → daily_open_notional day (without_exits events) ≡ daily_open_notional day events
unfolding daily_open_notional
daily_open_notional-without_exits day events =
    rw (any-overflows-without_exits day events, tally_day-without_exits day events) refl

-- The turnover that is read.
pub daily_open_notional-tally_day :
    (day : ℕ) (events : List TradingEvent) (t : Turnover)
    → daily_open_notional day events ≡ some t
    → tally_day day events ≡ t
unfolding daily_open_notional
daily_open_notional-tally_day day events t h = ground arith

-- `e` is one of the events.
abbrev pub Among : TradingEvent → List TradingEvent → Type 0
Among e [] = ⊥
Among e (x ∷ xs) = (x ≡ e) ⊎ Among e xs

tally-unvaluable-le :
    (fills : Dict ℕ Float) (e : TradingEvent) (t : Turnover)
    → t.unvaluable ≤ (tally fills e t).unvaluable
unfolding tally
tally-unvaluable-le fills e t = elim (Bool-cases (is_exit_class e)) [
  | inl exit ↦ rw exit (omega arith)
  | inr open_side ↦ rw open_side (ground arith)
]

tally_all-unvaluable-le :
    (fills : Dict ℕ Float) (events : List TradingEvent) (t : Turnover)
    → t.unvaluable ≤ (tally_all fills events t).unvaluable
unfolding tally_all
tally_all-unvaluable-le fills [] t = omega arith
tally_all-unvaluable-le fills (e ∷ events) t =
    omega
      (arith, tally-unvaluable-le fills e t, tally_all-unvaluable-le fills events (tally fills e t))

-- An opening submission that this build recorded and could not value.
pub record IsUnvaluable (fills : Dict ℕ Float) (e : TradingEvent) : Type 0 where
  pub opens : is_exit_class e ≡ false
  pub unvalued : notional_of fills e ≡ none
  pub recorded : contains "notional_evaluable" e.metadata ≡ true

tally-counts :
    (fills : Dict ℕ Float) (e : TradingEvent) (t : Turnover)
    → IsUnvaluable fills e
    → 0 < (tally fills e t).unvaluable
unfolding tally
tally-counts fills e t h = rw (h.opens, h.unvalued, h.recorded) (omega arith)

tally_all-counts :
    (fills : Dict ℕ Float) (e : TradingEvent) (events : List TradingEvent) (t : Turnover)
    → IsUnvaluable fills e
    → Among e events
    → 0 < (tally_all fills events t).unvaluable
unfolding tally_all
tally_all-counts fills e [] t h m = absurd m
tally_all-counts fills e (x ∷ events) t h (inl same) = omega (
  arith,
  tally-counts fills x t (rw same h),
  tally_all-unvaluable-le fills events (tally fills x t),
)
tally_all-counts fills e (x ∷ events) t h (inr later) =
    tally_all-counts fills e events (tally fills x t) h later

-- One of today's opening submissions that was recorded by this build and cannot be valued is counted as
-- unvaluable.
pub tally_day-unvaluable :
    (day : ℕ) (events : List TradingEvent) (e : TradingEvent)
    → Among e (query_since day order_submitted events)
    → IsUnvaluable (fill_prices (query_since day order_filled events) []) e
    → 0 < (tally_day day events).unvaluable
unfolding tally_day
tally_day-unvaluable day events e m h =
    tally_all-counts (fill_prices (query_since day order_filled events) []) e _ no_turnover h m
