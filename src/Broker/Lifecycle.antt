-- ===== src/Broker/Lifecycle.antt =====
-- trader/trading/order_lifecycle.py: `OrderLifecycleTracker`.
pub mod Waiting
pub mod Outcomes
use openwallstreet.Prelude.{
  ℕ, suc, Bool, true, false, ◌&&◌, ◌||◌, Option, none, some, String, ◌==◌, string_eq, nat_eq, List,
  [], ◌∷◌, ◌++◌, map, elem, filter, non_empty, eqb, if◌then◌else◌, Dict, lookup, insert, erase,
}
use openwallstreet.Float.{Float}
use openwallstreet.Risk.Events.{
  EventType, order_filled, order_cancelled, order_rejected, TradingEvent, Json, text,
}

-- What `on_trade` reads of an ib_async Trade. An absent order id is 0, an absent status is empty.
pub record TradeReport : Type 0 where
  pub order_id : ℕ
  pub status : String
  pub order_ref : String
  pub con_id : ℕ
  pub symbol : String
  pub action : String
  pub total_quantity : Float
  pub filled_quantity : Float
  pub average_fill_price : Float

pub data Decisive : Type 0 where
  filled accepted rejected timeout : Decisive

-- The two outcome classes of `_terminal_logged`.
pub data Logged : Type 0 where
  money_moved dead : Logged

-- An asyncio future; the identity that `fut in waiters` compares is its number.
pub record Future : Type 0 where
  pub number : ℕ
  pub result : Option Decisive

-- `event_store` is none until one is attached; its events stand newest first.
pub record Tracker : Type 0 where
  pub event_store : Option (List TradingEvent)
  pub status : Dict ℕ String
  pub terminal_logged : Dict ℕ Logged
  pub waiters : Dict ℕ (List Future)
  pub next_future : ℕ

abbrev pub new_tracker : Option (List TradingEvent) → Tracker
new_tracker store = record {
  event_store = store;
  status = [];
  terminal_logged = [];
  waiters = [];
  next_future = 0;
}

-- The store is attached after construction.
unfoldable pub set_event_store : List TradingEvent → Tracker → Tracker
set_event_store store s = record s { event_store = some store }

-- `status in _ACCEPTED`, `status in _DEAD`
abbrev pub is_accepted : String → Bool
is_accepted status = elem status ("PreSubmitted" ∷ "Submitted" ∷ [])

abbrev pub is_dead : String → Bool
is_dead status = elem status ("Cancelled" ∷ "ApiCancelled" ∷ "Inactive" ∷ [])

unfoldable pub decisive : String → Option Decisive
decisive status =
    if status == "Filled"
    then some filled
    else if is_accepted status
    then some accepted
    else if is_dead status
    then some rejected
    else none

-- `fut.set_result(decisive)` unless the future is done.
abbrev pub settle : Decisive → Future → Future
settle d f = elim f.result [ none ↦ record f { result = some d } | some earlier ↦ f ]

unfoldable pub resolve_waiters : ℕ → Decisive → Tracker → Tracker
resolve_waiters order_id d s = elim (lookup order_id s.waiters) [
  | none ↦ s
  | some fs ↦ record s { waiters = insert order_id (map (settle d) fs) s.waiters }
]

unfoldable pub event_type_of : String → EventType
event_type_of status =
    if status == "Filled"
    then order_filled
    else if elem status ("Cancelled" ∷ "ApiCancelled" ∷ [])
    then order_cancelled
    else order_rejected

abbrev pub superseding : Option String → Dict String Json
superseding none = []
superseding (some old) = ("superseded", text old none) ∷ []

-- The event that `_record_event` appends; `now` is the clock.
unfoldable pub event_of : ℕ → TradeReport → Option String → TradingEvent
event_of now t superseded = record {
  event_type = event_type_of t.status;
  timestamp = now;
  strategy_name = if t.order_ref == "" then "order" else t.order_ref;
  conid = t.con_id;
  symbol = t.symbol;
  action = t.action;
  quantity = some (if t.status == "Filled" then t.filled_quantity else t.total_quantity);
  price = some t.average_fill_price;
  order_id = t.order_id;
  signal_probability = openwallstreet.Float.zero_float;
  signal_risk = openwallstreet.Float.zero_float;
  metadata = ("status", text t.status none) ∷ superseding superseded;
}

unfoldable pub record_event : ℕ → TradeReport → Option String → Tracker → Tracker
record_event now t superseded s = elim s.event_store [
  | none ↦ s
  | some es ↦ record s { event_store = some (event_of now t superseded ∷ es) }
]

-- The outcome class of a status that is terminal.
unfoldable pub outcome_of : String → Option Logged
outcome_of status =
    if status == "Filled" then some money_moved else if is_dead status then some dead else none

-- The part of `on_trade` that records a terminal outcome once, and a fill after a dead outcome.
unfoldable pub log_outcome : ℕ → TradeReport → Tracker → Tracker
log_outcome now t s = elim (outcome_of t.status) [
  | none ↦ s
  | some outcome ↦ elim (lookup t.order_id s.terminal_logged) [
    | none ↦
        record_event now t none
          (record s { terminal_logged = insert t.order_id outcome s.terminal_logged })
    | some money_moved ↦ s
    | some dead ↦ elim outcome [
      | dead ↦ s
      | money_moved ↦
          record_event now t (some "Cancelled")
            (record s { terminal_logged = insert t.order_id money_moved s.terminal_logged })
    ]
  ]
]

unfoldable pub resolve : TradeReport → Tracker → Tracker
resolve t s = elim (decisive t.status) [ none ↦ s | some d ↦ resolve_waiters t.order_id d s ]

unfoldable pub on_trade : ℕ → TradeReport → Tracker → Tracker
on_trade now t s =
    if eqb t.order_id 0 || (t.status == "")
    then s
    else log_outcome now t (resolve t (record s { status = insert t.order_id t.status s.status }))

unfoldable pub latest_status : ℕ → Tracker → Option String
latest_status order_id s = lookup order_id s.status

-- `wait_decisive` up to its `await`: the answer that the latest status gives, or the new future's number.
pub data Wait : Type 0 where
  answered : Decisive → Wait
  pending : ℕ → Wait

-- `self._decisive(cur) if cur else None`
unfoldable pub current : ℕ → Tracker → Option Decisive
unfolding latest_status
current order_id s = elim (latest_status order_id s) [ none ↦ none | some status ↦ decisive status ]

abbrev pub setdefault : Option (List Future) → List Future
setdefault none = []
setdefault (some fs) = fs

unfoldable pub begin_wait : ℕ → Tracker → Wait × Tracker
begin_wait order_id s = elim (current order_id s) [
  | some d ↦ (answered d, s)
  | none ↦ (
    pending s.next_future,
    record s {
      waiters =
          insert order_id
            (setdefault (lookup order_id s.waiters)
              ++ (record { number = s.next_future; result = none } ∷ []))
            s.waiters;
      next_future = suc s.next_future;
    },
  )
]

-- The answer of the future with a number; one that has none has timed out.
abbrev pub answer : ℕ → List Future → Decisive
answer n [] = timeout
answer n (f ∷ fs) =
    if eqb f.number n then elim f.result [ none ↦ timeout | some d ↦ d ] else answer n fs

abbrev pub leave : ℕ → List Future → List Future
leave n [] = []
leave n (f ∷ fs) = if eqb f.number n then fs else f ∷ leave n fs

-- `wait_decisive` after its `await`, the `finally` block included.
unfoldable pub end_wait : ℕ → ℕ → Tracker → Decisive × Tracker
end_wait order_id n s =
    let fs = setdefault (lookup order_id s.waiters) in
    let rest = leave n fs in
    (
      answer n fs,
      record s {
        waiters =
            if non_empty rest then insert order_id rest s.waiters else erase order_id s.waiters;
      },
    )

-- The tracker after a history of reports with their times, the newest first.
unfoldable pub on_trades : List (ℕ × TradeReport) → Tracker → Tracker
on_trades [] s = s
on_trades ((now, t) ∷ older) s = on_trade now t (on_trades older s)
