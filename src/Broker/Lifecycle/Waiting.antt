-- ===== src/Broker/Lifecycle/Waiting.antt =====
-- Who waits for a decisive status of an order.
use openwallstreet.Prelude.{
  ℕ, suc, ◌≡◌, ◌≢◌, refl, sym, ap, ◌∙◌, Option, none, some, arith, String, string_eq, nat_eq,
  eq_iff, List, [], ◌∷◌, map, ◌++◌, ◌<◌, eqb, if◌then◌else◌, lookup, insert, lookup-insert,
  Option-cases, inl, inr,
}
use openwallstreet.Broker.Lifecycle.{
  TradeReport, Decisive, Future, Tracker, decisive, settle, resolve_waiters, record_event,
  log_outcome, resolve, on_trade, on_trades, setdefault, answer, begin_wait, end_wait, current,
  pending, timeout,
}

-- `a or b` of two results.
abbrev pub or_else : Option Decisive → Option Decisive → Option Decisive
or_else none b = b
or_else (some d) b = some d

-- The first decisive status that a history, newest first, has of an order.
pub first_decisive : ℕ → List (ℕ × TradeReport) → Option Decisive
first_decisive id [] = none
first_decisive id ((now, t) ∷ older) =
    or_else (first_decisive id older) (if eqb t.order_id id then decisive t.status else none)

-- A future that the first decisive status of a history reaches.
abbrev pub settle_by : Option Decisive → Future → Future
settle_by none f = f
settle_by (some d) f = settle d f

abbrev pub wake : Option Decisive → Option (List Future) → Option (List Future)
wake d none = none
wake d (some fs) = some (map (settle_by d) fs)

record_event-waiters :
    (now : ℕ) (t : TradeReport) (o : Option String) (s : Tracker)
    → (record_event now t o s).waiters ≡ s.waiters
unfolding record_event
record_event-waiters now t o s = ground arith

log_outcome-waiters :
    (now : ℕ) (t : TradeReport) (s : Tracker) → (log_outcome now t s).waiters ≡ s.waiters
unfolding log_outcome record_event
log_outcome-waiters now t s = ground arith

map-settle_none : (fs : List Future) → map (settle_by none) fs ≡ fs
map-settle_none [] = refl
map-settle_none (f ∷ fs) = ap (λ rest. f ∷ rest) (map-settle_none fs)

settle_settled : (a b : Decisive) (f : Future) → settle a (settle b f) ≡ settle b f
settle_settled a b f = ground arith

map-settle_settled :
    (a b : Decisive) (fs : List Future) → map (settle a) (map (settle b) fs) ≡ map (settle b) fs
map-settle_settled a b [] = refl
map-settle_settled a b (f ∷ fs) = rw (settle_settled a b f, map-settle_settled a b fs) refl

wake-wake :
    (a b : Option Decisive) (w : Option (List Future)) → wake a (wake b w) ≡ wake (or_else b a) w
wake-wake a b none = refl
wake-wake none none (some fs) = ap some (map-settle_none (map (settle_by none) fs))
wake-wake (some a) none (some fs) = ap (λ gs. some (map (settle a) gs)) (map-settle_none fs)
wake-wake none (some b) (some fs) = ap some (map-settle_none (map (settle b) fs))
wake-wake (some a) (some b) (some fs) = ap some (map-settle_settled a b fs)

wake-none : (w : Option (List Future)) → wake none w ≡ w
wake-none none = refl
wake-none (some fs) = ap some (map-settle_none fs)

resolve_waiters-wake :
    (id j : ℕ) (d : Decisive) (s : Tracker)
    → lookup id (resolve_waiters j d s).waiters
      ≡ wake (if eqb j id then some d else none) (lookup id s.waiters)
unfolding resolve_waiters
resolve_waiters-wake id j d s = elim (Option-cases (lookup j s.waiters)) [
  | inl missing ↦ ground (arith, missing, wake-none (lookup id s.waiters))
  | inr (fs, found) ↦ ground (
    arith,
    found,
    wake-none (lookup id s.waiters),
    lookup-insert j id (map (settle d) fs) s.waiters,
  )
]

resolve-wake :
    (id : ℕ) (t : TradeReport) (s : Tracker)
    → lookup id (resolve t s).waiters
      ≡ wake (if eqb t.order_id id then decisive t.status else none) (lookup id s.waiters)
unfolding resolve
resolve-wake id t s = elim (Option-cases (decisive t.status)) [
  | inl undecided ↦ ground (arith, undecided, wake-none (lookup id s.waiters))
  | inr (d, e) ↦
      ground (arith, e, resolve_waiters-wake id t.order_id d s, wake-none (lookup id s.waiters))
]

decisive_empty : decisive "" ≡ none
unfolding decisive
decisive_empty = refl

on_trade-wake :
    (id now : ℕ) (t : TradeReport) (s : Tracker)
    → id ≢ 0
    → lookup id (on_trade now t s).waiters
      ≡ wake (if eqb t.order_id id then decisive t.status else none) (lookup id s.waiters)
unfolding on_trade
on_trade-wake id now t s nonzero =
    let seen = record s { status = insert t.order_id t.status s.status } in
    ground (
      arith,
      eq_iff t.status "",
      decisive_empty,
      wake-none (lookup id s.waiters),
      log_outcome-waiters now t (resolve t seen),
      resolve-wake id t seen,
    )

-- Whoever waits for an order when a history of reports comes in is answered by the first decisive status
-- of that order in it, and a future that had its answer keeps it. No one starts or stops waiting. The
-- order id is not 0.
on_trades-wake :
    (id : ℕ) (h : List (ℕ × TradeReport)) (s : Tracker)
    → id ≢ 0
    → lookup id (on_trades h s).waiters ≡ wake (first_decisive id h) (lookup id s.waiters)
unfolding on_trades first_decisive
on_trades-wake id [] s nonzero = sym (wake-none (lookup id s.waiters))
on_trades-wake id ((now, t) ∷ older) s nonzero =
    let now_reaches = if eqb t.order_id id then decisive t.status else none in
    on_trade-wake id now t (on_trades older s) nonzero
    ∙ ap (wake now_reaches) (on_trades-wake id older s nonzero)
    ∙ wake-wake now_reaches (first_decisive id older) (lookup id s.waiters)

-- The answer of a wait that the first decisive status reaches, if there is one.
abbrev pub answer_of : Option Decisive → Decisive
answer_of none = timeout
answer_of (some d) = d

-- The futures of a list have numbers below a bound.
abbrev pub NumbersBelow : ℕ → List Future → Type 0
NumbersBelow n [] = Unit
NumbersBelow n (f ∷ fs) = (f.number < n) × NumbersBelow n fs

settle_by-number : (d : Option Decisive) (f : Future) → (settle_by d f).number ≡ f.number
settle_by-number none f = refl
settle_by-number (some d) f = ground arith

answer-new :
    (n : ℕ) (d : Option Decisive) (fs : List Future)
    → NumbersBelow n fs
    → answer n (map (settle_by d) (fs ++ (record { number = n; result = none } ∷ []))) ≡ answer_of d
answer-new n none [] below = ground arith
answer-new n (some d) [] below = ground arith
answer-new n d (f ∷ fs) (lower, below) =
    ground (arith, settle_by-number d f, answer-new n d fs below)

begin_wait-pending :
    (id : ℕ) (s : Tracker)
    → current id s ≡ none
    → begin_wait id s ≡ (
      pending s.next_future,
      record s {
        waiters =
            insert id
              (setdefault (lookup id s.waiters)
                ++ (record { number = s.next_future; result = none } ∷ []))
              s.waiters;
        next_future = suc s.next_future;
      },
    )
unfolding begin_wait
begin_wait-pending id s undecided = ground (arith, undecided)

-- A wait for an order whose latest status is not decisive gets a future, and ends with the first decisive
-- status that is reported of the order before it ends, or with a timeout if there is none. The order id
-- is not 0, and the futures that wait for it already have numbers below the next one.
pub end_wait-begin_wait :
    (id : ℕ) (h : List (ℕ × TradeReport)) (s : Tracker)
    → id ≢ 0
    → NumbersBelow s.next_future (setdefault (lookup id s.waiters))
    → current id s ≡ none
    → ((begin_wait id s).0 ≡ pending s.next_future)
      × ((end_wait id s.next_future (on_trades h (begin_wait id s).1)).0
          ≡ answer_of (first_decisive id h))
unfolding end_wait
end_wait-begin_wait id h s nonzero below undecided =
    let started =
      setdefault (lookup id s.waiters) ++ (record { number = s.next_future; result = none } ∷ []) in
    let waiting = record s {
      waiters = insert id started s.waiters;
      next_future = suc s.next_future;
    } in
    rw (begin_wait-pending id s undecided) (
      refl,
      ground (
        arith,
        on_trades-wake id h waiting nonzero,
        lookup-insert id id started s.waiters,
        answer-new s.next_future (first_decisive id h) (setdefault (lookup id s.waiters)) below,
      ),
    )
