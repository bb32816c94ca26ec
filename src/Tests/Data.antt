-- ===== src/Tests/Data.antt =====
-- Runs at concrete inputs: the stores.
use openwallstreet.Prelude.{
  ℕ, ◌+◌, ◌-◌, ◌*◌, ◌≡◌, inr, refl, Bool, true, none, some, nat_eq, string_eq, List, [], ◌∷◌, eqb,
  lookup, contains, pos,
}
use openwallstreet.Float.{nan, literal}
use openwallstreet.Risk.Events.{null, number, text, order_filled}
use openwallstreet.Data.Ledger.{Fill, Pairing, pair_fills_long_only}
use openwallstreet.Data.Ledger.Lots.{IsStocked, pair_fills_long_only-IsStocked}
use openwallstreet.Data.Ledger.Same.{own}
use openwallstreet.Data.Ledger.Isolation.{Paired, pair_fills_long_only-own}
use openwallstreet.Data.FillLog.{
  Table, blank, malformed, realized_pnl_by_strategy, set_fill_exclusion,
}
use openwallstreet.Data.FillLog.Exclusion.{
  IsKeyed, AllFills, without, balances, set_fill_exclusion-without,
}
use openwallstreet.Data.Staleness.{
  naive, aware, instant, to_utc, as_utc, moment, date_of, count_sessions, sessions_between,
  sessions, sessions_behind,
}
use openwallstreet.Data.Staleness.Weeks.{weekdays, sessions_behind-weekdays}
use openwallstreet.Data.Groups.Integrity.{
  Op, create, delete, update, add, remove, run, IsSound, run-IsSound,
}

abbrev bought : Fill
bought = record {
  strategy = "momentum";
  conid = 4391;
  action = "buy";
  quantity = number (literal 10 1);
  price = number (literal 100 1);
  timestamp = 1;
}

abbrev bought_nan : Fill
bought_nan = record bought { strategy = "reversal"; quantity = number nan; timestamp = 2 }

abbrev sold : Fill
sold = record bought { action = "SELL"; price = number (literal 110 1); timestamp = 3 }

abbrev fills : List Fill
fills =
    bought
    ∷ bought_nan
    ∷ sold
    ∷ record sold { timestamp = 4 }
    ∷ record sold { quantity = null }
    ∷ []

pair_fills_long_only-IsStocked_example :
    (t : Pairing) × (pair_fills_long_only fills ≡ some t) × IsStocked t.lots
pair_fills_long_only-IsStocked_example = pair_fills_long_only-IsStocked fills

pair_fills_long_only-own_example :
    Paired
      ("momentum", 4391)
      (pair_fills_long_only fills)
      (pair_fills_long_only (own ("momentum", 4391) fills))
pair_fills_long_only-own_example = pair_fills_long_only-own ("momentum", 4391) fills

abbrev table : Table
table =
    (1, record { event_type = order_filled; fill = bought; metadata = blank })
    ∷ (2, record { event_type = order_filled; fill = sold; metadata = malformed })
    ∷ []

abbrev is_today : ℕ → Bool
is_today time = eqb time 3

table-IsKeyed : IsKeyed table
unfolding contains lookup
table-IsKeyed = (refl, (refl, tt))

table-AllFills : AllFills table (1 ∷ 2 ∷ [])
unfolding lookup
table-AllFills = ((_, refl, refl), ((_, refl, refl), tt))

set_fill_exclusion-without_example :
    (u : Table) × (set_fill_exclusion (1 ∷ 2 ∷ []) true (text "bug" none) 0 table ≡ (inr 2, u))
    × (balances (realized_pnl_by_strategy is_today u)
        ≡ balances (realized_pnl_by_strategy is_today (without (1 ∷ 2 ∷ []) table)))
set_fill_exclusion-without_example =
    set_fill_exclusion-without is_today (1 ∷ 2 ∷ []) (text "bug" none) table table-IsKeyed
      table-AllFills

abbrev ops : List (ℕ × Op)
ops =
    (1, create "chips" "semiconductors" (literal 1 5) (pos 5))
    ∷ (2, add "chips" "AMD")
    ∷ (3, add "chips" "AMD")
    ∷ (4, add "banks" "JPM")
    ∷ (5, update "chips" none (some (literal 1 4)) none)
    ∷ (6, remove "chips" "AMD")
    ∷ (7, delete "chips")
    ∷ []

run-IsSound_example : IsSound (run ops (record { groups = []; members = [] }))
run-IsSound_example = run-IsSound ops

-- A bar of Friday, 5 January 2024, asked about on the Monday after.
friday : as_utc (naive (738890 * 86400000000)) ≡ instant (738890 * 86400000000)
unfolding as_utc
friday = refl

monday :
    moment 0 (aware (738893 * 86400000000 + 25200000000) (pos 25200000000))
    ≡ instant (738893 * 86400000000)
unfolding moment as_utc to_utc
monday = refl

sessions_behind-weekdays_example :
    sessions_behind 0
      (naive (738890 * 86400000000))
      (aware (738893 * 86400000000 + 25200000000) (pos 25200000000))
    ≡ sessions
        (weekdays (date_of (738893 * 86400000000)) - weekdays (date_of (738890 * 86400000000)))
sessions_behind-weekdays_example =
    sessions_behind-weekdays 0 (naive (738890 * 86400000000))
      (aware (738893 * 86400000000 + 25200000000) (pos 25200000000)) (738890 * 86400000000)
      (738893 * 86400000000) friday monday

monday_behind :
    sessions_behind 0 (naive (738890 * 86400000000)) (naive (738893 * 86400000000)) ≡ sessions 1
unfolding sessions_behind moment as_utc sessions_between count_sessions
monday_behind = refl
