-- ===== src/Broker/Lifecycle/Outcomes.antt =====
-- What the tracker records of an order.
use openwallstreet.Prelude.{
  ℕ, suc, ◌≡◌, ◌≢◌, refl, ap, ◌∙◌, Bool, true, false, ◌&&◌, ◌||◌, not, Option, none, some, arith,
  String, ◌==◌, string_eq, nat_eq, eq_iff, List, [], ◌∷◌, length, filter, eqb, if◌then◌else◌,
  lookup, insert, lookup-insert, Bool-cases, inl, inr,
}
use openwallstreet.Risk.Events.{TradingEvent, order_filled, same_type}
use openwallstreet.Broker.Lifecycle.{
  TradeReport, Tracker, Logged, resolve_waiters, record_event, log_outcome, resolve, on_trade,
  on_trades, outcome_of, money_moved, dead, is_dead, event_of, event_type_of, new_tracker,
}

-- Whether a history, newest first, has a fill of an order, and whether it has a dead status of the order
-- with no fill before it.
pub has_fill : ℕ → List (ℕ × TradeReport) → Bool
has_fill id [] = false
has_fill id ((now, t) ∷ older) = (eqb t.order_id id && (t.status == "Filled")) || has_fill id older

pub has_dead_first : ℕ → List (ℕ × TradeReport) → Bool
unfolding has_fill
has_dead_first id [] = false
has_dead_first id ((now, t) ∷ older) =
    (eqb t.order_id id && (is_dead t.status && not (has_fill id older))) || has_dead_first id older

-- The events of an order that record a fill, and those that record another outcome.
pub count_fills : ℕ → List TradingEvent → ℕ
count_fills id es =
    length (filter (λ e. eqb e.order_id id && same_type e.event_type order_filled) es)

pub count_deaths : ℕ → List TradingEvent → ℕ
count_deaths id es =
    length (filter (λ e. eqb e.order_id id && not (same_type e.event_type order_filled)) es)

abbrev pub once : Bool → ℕ
once true = 1
once false = 0

abbrev pub class : Bool → Bool → Option Logged
class true b = some money_moved
class false true = some dead
class false false = none

-- The events of a tracker, the newest first.
abbrev pub recorded : Tracker → List TradingEvent
recorded s = elim s.event_store [ none ↦ [] | some es ↦ es ]

record Holds (id : ℕ) (fills deaths : Bool) (s : Tracker) : Type 0 where
  store : s.event_store ≡ some (recorded s)
  logged : lookup id s.terminal_logged ≡ class fills deaths
  fill_count : count_fills id (recorded s) ≡ once fills
  death_count : count_deaths id (recorded s) ≡ once deaths

count_fills-event :
    (id now : ℕ) (t : TradeReport) (o : Option String) (es : List TradingEvent)
    → count_fills id (event_of now t o ∷ es) ≡ (
        if eqb t.order_id id && (t.status == "Filled")
        then suc (count_fills id es)
        else count_fills id es)
unfolding count_fills event_of event_type_of
count_fills-event id now t o es = ground arith

count_deaths-event :
    (id now : ℕ) (t : TradeReport) (o : Option String) (es : List TradingEvent)
    → count_deaths id (event_of now t o ∷ es) ≡ (
        if eqb t.order_id id && not (t.status == "Filled")
        then suc (count_deaths id es)
        else count_deaths id es)
unfolding count_deaths event_of event_type_of
count_deaths-event id now t o es = ground arith

resolve-store : (t : TradeReport) (s : Tracker) → (resolve t s).event_store ≡ s.event_store
unfolding resolve resolve_waiters
resolve-store t s = ground arith

resolve-logged : (t : TradeReport) (s : Tracker) → (resolve t s).terminal_logged ≡ s.terminal_logged
unfolding resolve resolve_waiters
resolve-logged t s = ground arith

filled-alive : (status : String) → (status == "Filled") ≡ true → is_dead status ≡ false
filled-alive status h = let e = (eq_iff status "Filled").0 h in rw e refl

empty-quiet :
    (status : String)
    → (status == "") ≡ true
    → ((status == "Filled") ≡ false) × (is_dead status ≡ false)
empty-quiet status h = let e = (eq_iff status "").0 h in rw e (refl, refl)

log_outcome-store :
    (now : ℕ) (t : TradeReport) (s : Tracker)
    → s.event_store ≡ some (recorded s)
    → (log_outcome now t s).event_store ≡ some (recorded (log_outcome now t s))
unfolding log_outcome record_event
log_outcome-store now t s h = ground arith

module _ (id now : ℕ) (t : TradeReport) (s : Tracker) (f d : Bool) (h : Holds id f d s) where
  fills_after : Bool
  fills_after = (eqb t.order_id id && (t.status == "Filled")) || f

  deaths_after : Bool
  deaths_after = (eqb t.order_id id && (is_dead t.status && not f)) || d

  log_outcome-logged :
      lookup id (log_outcome now t s).terminal_logged ≡ class fills_after deaths_after
  unfolding log_outcome record_event outcome_of fills_after deaths_after
  log_outcome-logged = ground (
    arith,
    h.logged,
    lookup-insert t.order_id id money_moved s.terminal_logged,
    lookup-insert t.order_id id dead s.terminal_logged,
    filled-alive t.status,
  )

  log_outcome-fills : count_fills id (recorded (log_outcome now t s)) ≡ once fills_after
  unfolding log_outcome record_event outcome_of fills_after
  log_outcome-fills = ground (
    arith,
    h.store,
    h.logged,
    h.fill_count,
    count_fills-event id now t none (recorded s),
    count_fills-event id now t (some "Cancelled") (recorded s),
  )

  log_outcome-deaths : count_deaths id (recorded (log_outcome now t s)) ≡ once deaths_after
  unfolding log_outcome record_event outcome_of deaths_after
  log_outcome-deaths = ground (
    arith,
    h.store,
    h.logged,
    h.death_count,
    filled-alive t.status,
    count_deaths-event id now t none (recorded s),
    count_deaths-event id now t (some "Cancelled") (recorded s),
  )

  log_outcome-Holds : Holds id fills_after deaths_after (log_outcome now t s)
  log_outcome-Holds = record {
    store = log_outcome-store now t s h.store;
    logged = log_outcome-logged;
    fill_count = log_outcome-fills;
    death_count = log_outcome-deaths;
  }

-- A report of order 0 or with no status changes neither of the two facts.
quiet-fills :
    (id : ℕ) (t : TradeReport) (b : Bool)
    → id ≢ 0
    → (eqb t.order_id 0 || (t.status == "")) ≡ true
    → ((eqb t.order_id id && (t.status == "Filled")) ≡ false)
      × ((eqb t.order_id id && (is_dead t.status && b)) ≡ false)
quiet-fills id t b nonzero h = ground (arith, empty-quiet t.status)

or_false : (a b : Bool) → a ≡ false → (a || b) ≡ b
or_false a b h = rw h refl

on_trade-Holds :
    (id now : ℕ) (t : TradeReport) (s : Tracker) (f d : Bool)
    → id ≢ 0
    → Holds id f d s
    → Holds id
        ((eqb t.order_id id && (t.status == "Filled")) || f)
        ((eqb t.order_id id && (is_dead t.status && not f)) || d)
        (on_trade now t s)
unfolding on_trade fills_after deaths_after
on_trade-Holds id now t s f d nonzero h = elim (Bool-cases (eqb t.order_id 0 || (t.status == ""))) [
  | inl quiet ↦
      let (no_fill, no_death) = quiet-fills id t (not f) nonzero quiet in
      rw (quiet, no_fill, no_death) h
  | inr heard ↦
      let seen = record s { status = insert t.order_id t.status s.status } in
      rw heard (
        log_outcome-Holds id now t (resolve t seen) f d (record {
          store = ground (arith, resolve-store t seen, h.store);
          logged = ap (lookup id) (resolve-logged t seen) ∙ h.logged;
          fill_count = ground (arith, resolve-store t seen, h.fill_count);
          death_count = ground (arith, resolve-store t seen, h.death_count);
        }))
]

on_trades-Holds :
    (id : ℕ) (h : List (ℕ × TradeReport))
    → id ≢ 0
    → Holds id (has_fill id h) (has_dead_first id h) (on_trades h (new_tracker (some [])))
unfolding on_trades has_fill has_dead_first count_fills count_deaths lookup
on_trades-Holds id [] nonzero = record {
  store = refl;
  logged = refl;
  fill_count = refl;
  death_count = refl;
}
on_trades-Holds id ((now, t) ∷ older) nonzero =
    on_trade-Holds id now t (on_trades older (new_tracker (some []))) (has_fill id older)
      (has_dead_first id older) nonzero (on_trades-Holds id older nonzero)

-- Over any history of reports, a tracker with an empty event store records exactly one fill of an order
-- that was reported Filled, whatever else was reported of it, and none of another; and exactly one other
-- outcome of an order that was reported dead with no fill before, and none of another. The order id is
-- not 0.
pub on_trades-once :
    (id : ℕ) (h : List (ℕ × TradeReport))
    → id ≢ 0
    → (count_fills id (recorded (on_trades h (new_tracker (some [])))) ≡ once (has_fill id h))
      × (count_deaths id (recorded (on_trades h (new_tracker (some []))))
          ≡ once (has_dead_first id h))
on_trades-once id h nonzero =
    let held = on_trades-Holds id h nonzero in (held.fill_count, held.death_count)
