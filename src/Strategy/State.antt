-- ===== src/Strategy/State.antt =====
-- `AutoExecState` of trader/strategy/auto_executor.py. The two tables are lists of rows, and each method is
-- one SQL statement on them; a column that nothing reads, and the texts of the reasons, are left out.
pub mod Rows
use openwallstreet.Prelude.{
  ℕ, suc, ◌+◌, Bool, true, false, ◌&&◌, Option, none, some, String, KeyEq, ◌==◌, string_eq, List,
  [], ◌∷◌, ◌++◌, map, any, filter, length, leb, eqb, if◌then◌else◌, ℤ,
}
use openwallstreet.Float
use openwallstreet.Float.{Float}
use openwallstreet.Data.Ledger.{Key, key_eq}
use openwallstreet.Placement.Direct.{Action}

pub data Status : Type 0 where
  held closed_by_strategy closed_externally unknown : Status

-- A row of `auto_exec_positions`, keyed by strategy and conid; `lots` is NULL in an old row.
pub record Position : Type 0 where
  pub key : Key
  pub quantity : Float
  pub entry_bar_ts : ℕ
  pub proposal_id : ℕ
  pub close_by_time : Option ℕ
  pub max_hold_bars : Option ℤ
  pub status : Status
  pub close_proposal_id : Option ℕ
  pub protective_order_id : Option ℕ
  pub lots : Option ℕ

pub data Decision : Type 0 where
  opened closed skipped refused open_failed close_failed : Decision

-- A row of `auto_exec_bar_log`; `bar_ts` is the bar's wall clock, as `_naive` leaves it.
pub record BarLog : Type 0 where
  pub key : Key
  pub bar_ts : ℕ
  pub action : Action
  pub decision : Decision
  pub created : ℕ

-- `decision IN ('open','close')`
abbrev pub is_executed : Decision → Bool
is_executed opened = true
is_executed closed = true
is_executed _ = false

-- `decision = 'open'`
abbrev pub is_opened : Decision → Bool
is_opened opened = true
is_opened _ = false

abbrev pub is_executed_at : Key → ℕ → BarLog → Bool
is_executed_at k bar_ts l = l.key == k && (eqb l.bar_ts bar_ts && is_executed l.decision)

unfoldable pub executed_for_bar : Key → ℕ → List BarLog → Bool
executed_for_bar k bar_ts log = any (is_executed_at k bar_ts) log

-- The log stands newest first.
unfoldable pub log_decision : Key → ℕ → Action → Decision → ℕ → List BarLog → List BarLog
log_decision k bar_ts action decision now log =
    record { key = k; bar_ts = bar_ts; action = action; decision = decision; created = now } ∷ log

-- `strategy = ? AND decision = 'open' AND created >= now - window`
abbrev pub is_open_since : String → ℕ → ℕ → BarLog → Bool
is_open_since strategy now window l =
    l.key.0 == strategy && (is_opened l.decision && leb now (l.created + window))

-- `count_opens_since(strategy, now - window)`
unfoldable pub count_opens_since : String → ℕ → ℕ → List BarLog → ℕ
count_opens_since strategy now window log = length (filter (is_open_since strategy now window) log)

abbrev pub is_open : Status → Bool
is_open held = true
is_open _ = false

-- `strategy = ? AND conid = ? AND status = 'OPEN'`
abbrev pub is_open_at : Key → Position → Bool
is_open_at k p = p.key == k && is_open p.status

-- The first such row.
unfoldable pub open_position : Key → List Position → Option Position
open_position k [] = none
open_position k (p ∷ ps) = if is_open_at k p then some p else open_position k ps

-- `int(row[6]) if row[6] else 1`
abbrev pub held_lots : Option ℕ → ℕ
held_lots none = 1
held_lots (some n) = if eqb n 0 then 1 else n

-- `UPDATE auto_exec_positions SET ... WHERE strategy=? AND conid=? AND status='OPEN'`
unfoldable pub update_open : Key → (Position → Position) → List Position → List Position
update_open k f = map (λ p. if is_open_at k p then f p else p)

unfoldable pub set_protective : Key → Option ℕ → List Position → List Position
unfolding update_open
set_protective k order_id = update_open k (λ p. record p { protective_order_id = order_id })

unfoldable pub record_open :
    Key → Float → ℕ → ℕ → Option ℕ → Option ℤ → List Position → List Position
record_open k quantity bar_ts proposal_id close_by_time max_hold_bars rows =
    rows
    ++ (record {
      key = k;
      quantity = quantity;
      entry_bar_ts = bar_ts;
      proposal_id = proposal_id;
      close_by_time = close_by_time;
      max_hold_bars = max_hold_bars;
      status = held;
      close_proposal_id = none;
      protective_order_id = none;
      lots = some 1;
    }
        ∷ [])

-- `COALESCE(lots, 1) + 1`
abbrev pub next_lots : Option ℕ → Option ℕ
next_lots none = some 2
next_lots (some n) = some (suc n)

unfoldable pub record_add :
    Key → Float → ℕ → ℕ → Option ℕ → Option ℤ → List Position → List Position
unfolding update_open
record_add k quantity_delta bar_ts proposal_id close_by_time max_hold_bars = update_open k (λ p.
    record p {
      quantity = Float.add p.quantity quantity_delta;
      lots = next_lots p.lots;
      entry_bar_ts = bar_ts;
      proposal_id = proposal_id;
      close_by_time = close_by_time;
      max_hold_bars = max_hold_bars;
    })

unfoldable pub record_close : Key → Status → Option ℕ → List Position → List Position
unfolding update_open
record_close k status close_proposal_id =
    update_open k (λ p. record p { status = status; close_proposal_id = close_proposal_id })

-- `all_open`
unfoldable pub all_open : List Position → List Position
all_open = filter (λ p. is_open p.status)
