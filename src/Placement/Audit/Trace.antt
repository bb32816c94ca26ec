-- ===== src/Placement/Audit/Trace.antt =====
-- What a recorded submission means to the risk gate.
use openwallstreet.Prelude.{
  ℕ, suc, ◌≤◌, ◌≡◌, refl, sym, ap, ◌∙◌, Bool, true, false, not, ◌&&◌, arith, String, ◌==◌,
  string_eq, List, ◌∷◌, if◌then◌else◌, lookup,
}
use openwallstreet.Risk.Events.{TradingEvent, order_submitted, query_since, is_exit_class}
use openwallstreet.Risk.Turnover.{daily_open_notional}
use openwallstreet.Risk.Turnover.Opens.{closes, without_exits, daily_open_notional-without_exits}
use openwallstreet.Risk.Gate.{World, recent_opens}
use openwallstreet.Placement.Account.{Contract, Order, Trader}
use openwallstreet.Placement.Audit.{log_event, source_of}

-- The world after one more event.
abbrev pub after : TradingEvent → World → World
after e w = record w { events = e ∷ w.events }

module _ (now : ℕ) (t : Trader) (c : Contract) (o : Order) where
  log_event-is_exit_class :
      (is_exit : Bool) → is_exit_class (log_event now t order_submitted c o is_exit) ≡ is_exit
  unfolding log_event is_exit_class lookup
  log_event-is_exit_class true = refl
  log_event-is_exit_class false = refl

  log_event-source :
      (is_exit : Bool) → (log_event now t order_submitted c o is_exit).strategy_name ≡ source_of o
  unfolding log_event
  log_event-source is_exit = refl

  log_event-stamp :
      (is_exit : Bool)
      → ((log_event now t order_submitted c o is_exit).timestamp ≡ now)
        × ((log_event now t order_submitted c o is_exit).event_type ≡ order_submitted)
  unfolding log_event
  log_event-stamp is_exit = (refl, refl)

  exit-without_exits :
      (es : List TradingEvent)
      → without_exits (log_event now t order_submitted c o true ∷ es) ≡ without_exits es
  unfolding without_exits closes
  exit-without_exits es = ground (arith, log_event-is_exit_class true, log_event-stamp true)

  -- A recorded submission counts towards the rate limit of the source that the gate asks about, by one,
  -- exactly where it opens, if the clock has not gone back behind the last hour; and the record of an exit
  -- leaves the turnover of the day as it was.
  pub recent_opens-log_event :
      (w : World) (is_exit : Bool) (source : String)
      → w.one_hour_ago ≤ now
      → (recent_opens (after (log_event now t order_submitted c o is_exit) w) source ≡ (
          if not is_exit && (source_of o == source)
          then suc (recent_opens w source)
          else recent_opens w source))
        × (daily_open_notional w.start_of_day (log_event now t order_submitted c o true ∷ w.events)
            ≡ daily_open_notional w.start_of_day w.events)
  unfolding recent_opens query_since
  recent_opens-log_event w is_exit source h = (
    ground
        (arith, log_event-is_exit_class is_exit, log_event-source is_exit, log_event-stamp is_exit),
    sym (
          daily_open_notional-without_exits w.start_of_day
            (log_event now t order_submitted c o true ∷ w.events))
        ∙ ap (daily_open_notional w.start_of_day) (exit-without_exits w.events)
        ∙ daily_open_notional-without_exits w.start_of_day w.events,
  )
