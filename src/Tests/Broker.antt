-- ===== src/Tests/Broker.antt =====
-- Runs at concrete inputs: the book, the order lifecycle and the reconciliation.
use openwallstreet.Prelude.{
  ℕ, ◌≡◌, ◌≢◌, refl, arith, not, ◌&&◌, none, some, String, List, [], ◌∷◌, lookup, nat_eq,
}
use openwallstreet.Float.{literal}
use openwallstreet.Broker.Book.{Order, Trade, Update, of_trade, of_order}
use openwallstreet.Broker.Lifecycle.{
  TradeReport, Tracker, new_tracker, on_trades, begin_wait, end_wait, pending, current,
  latest_status,
}
use openwallstreet.Broker.Lifecycle.Outcomes.{
  count_fills, count_deaths, once, has_fill, has_dead_first, recorded, on_trades-once,
}
use openwallstreet.Broker.Lifecycle.Waiting.{first_decisive, answer_of, end_wait-begin_wait}
use openwallstreet.Broker.Reconcile.{Proposal, OpenOrder, Execution, Position, diverged, reconcile}
use openwallstreet.Broker.Reconcile.Quiet.{all, is_confirmed, is_protected, reconcile-quiet}

abbrev order : ℕ → Order
order id = record { order_id = id; revision = 0 }

abbrev trade : ℕ → String → Trade
trade id status = record { order = order id; status = some status; con_id = 265598 }

-- Order 7 is submitted and filled, order 8 is only placed.
abbrev updates : List Update
updates = of_trade (trade 7 "Submitted") ∷ of_order (order 8) ∷ of_trade (trade 7 "Filled") ∷ []

abbrev report : ℕ → String → TradeReport
report id status = record {
  order_id = id;
  status = status;
  order_ref = "momentum";
  con_id = 265598;
  symbol = "QBTS";
  action = "SELL";
  total_quantity = literal 100 1;
  filled_quantity = literal 100 1;
  average_fill_price = literal 155 10;
}

-- Newest first: the broker cancels the order 320 and then fills it.
abbrev history : List (ℕ × TradeReport)
history =
    (14, report 320 "Cancelled")
    ∷ (13, report 320 "Filled")
    ∷ (12, report 320 "Cancelled")
    ∷ (11, report 9 "Inactive")
    ∷ (10, report 320 "PendingSubmit")
    ∷ []

nonzero : ◌≢◌ {A = ℕ} 320 0
nonzero = omega arith

on_trades-once_example :
    (count_fills 320 (recorded (on_trades history (new_tracker (some []))))
      ≡ once (has_fill 320 history))
    × (count_deaths 320 (recorded (on_trades history (new_tracker (some []))))
        ≡ once (has_dead_first 320 history))
on_trades-once_example = on_trades-once 320 history nonzero

abbrev waiting : Tracker
waiting = record (new_tracker (some [])) {
  waiters = (320, record { number = 0; result = none } ∷ []) ∷ [];
  next_future = 1;
}

undecided : current 320 waiting ≡ none
unfolding current latest_status lookup
undecided = refl

end_wait-begin_wait_example :
    ((begin_wait 320 waiting).0 ≡ pending 1)
    × ((end_wait 320 1 (on_trades history (begin_wait 320 waiting).1)).0
        ≡ answer_of (first_decisive 320 history))
unfolding lookup
end_wait-begin_wait_example =
    end_wait-begin_wait 320 history waiting nonzero (omega arith, tt) undecided

abbrev proposals : List Proposal
proposals =
    record {
      id = some 1;
      status = "EXECUTED";
      symbol = "AMD";
      action = "BUY";
      order_ids = 41 ∷ [];
      updated_at = some 1000;
    }
    ∷ record {
      id = some 2;
      status = "PENDING";
      symbol = "PLTR";
      action = "BUY";
      order_ids = [];
      updated_at = some 1000;
    }
    ∷ []

abbrev executions : List Execution
executions = record { order_id = 41; symbol = "AMD"; side = "BOT" } ∷ []

abbrev stops : List OpenOrder
stops =
    record {
      order_id = 42;
      con_id = some 4391;
      symbol = "AMD";
      action = "SELL";
      order_type = "STP";
    }
    ∷ []

abbrev positions : List Position
positions = record { quantity = literal 10 1; con_id = some 4391; symbol = "AMD" } ∷ []

reconcile-quiet_example :
    not (diverged (reconcile proposals stops executions positions 2000))
    ≡ (all (is_confirmed executions 2000) proposals && all (is_protected stops) positions)
reconcile-quiet_example = reconcile-quiet proposals stops executions positions 2000
