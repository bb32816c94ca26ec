-- ===== src/Data/FillLog.antt =====
-- trader/data/event_store.py: the fills in the table `trading_events`, their exclusion from the ledger,
-- and the profit and loss of each strategy.
pub mod Exclusion
use openwallstreet.Prelude.{
  ℕ, suc, Bool, true, false, not, ◌&&◌, Option, none, some, String, ◌==◌, string_eq, nat_eq, List,
  [], ◌∷◌, ◌++◌, ◌⊎◌, inl, inr, if◌then◌else◌, Dict, lookup, insert, erase, get_or,
}
use openwallstreet.Float
use openwallstreet.Float.{Float, zero_float}
use openwallstreet.Risk.Events.{EventType, order_filled, same_type, Json, flag, text, get_truth}
use openwallstreet.Data.Ledger.{Fill, Key, Lot, ClosedTrade, Pairing, pair_fills_long_only}

-- The metadata column: empty, not JSON, or an object.
pub data Column : Type 0 where
  blank malformed : Column
  object : Dict String Json → Column

-- A row, by id. The rows stand in the order of the query: by timestamp, then by id.
pub record Row : Type 0 where
  pub event_type : EventType
  pub fill : Fill
  pub metadata : Column

abbrev pub Table : Type 0
Table = Dict ℕ Row

-- `json.loads(text) if text else {}`, and {} where it raises
unfoldable pub meta_of : Column → Dict String Json
meta_of blank = []
meta_of malformed = []
meta_of (object d) = d

unfoldable pub is_excluded : Row → Bool
unfolding meta_of
is_excluded r = get_truth (lookup "excluded" (meta_of r.metadata))

-- The fills that count, and the number of those that are excluded.
unfoldable pub kept_fills : Table → List Fill × ℕ
unfolding is_excluded
kept_fills [] = ([], 0)
kept_fills ((id, r) ∷ rest) =
    let (kept, excluded) = kept_fills rest in
    if not (same_type r.event_type order_filled)
    then (kept, excluded)
    else if is_excluded r
    then (kept, suc excluded)
    else (r.fill ∷ kept, excluded)

-- A strategy's part of the report.
pub record Bucket : Type 0 where
  pub realized_total : Float
  pub realized_today : Float
  pub closed_trades : ℕ
  pub wins : ℕ
  pub open_lots : List (ℕ × Lot)

pub new_bucket : Bucket
new_bucket = record {
  realized_total = zero_float;
  realized_today = zero_float;
  closed_trades = 0;
  wins = 0;
  open_lots = [];
}

-- A closed trade in its bucket; the test tells whether a time is of today.
unfoldable pub add_trade : (ℕ → Bool) → ClosedTrade → Bucket → Bucket
add_trade is_today c b = record b {
  realized_total = Float.add b.realized_total c.pnl;
  closed_trades = suc b.closed_trades;
  wins = if Float.lt zero_float c.pnl then suc b.wins else b.wins;
  realized_today =
      if is_today c.closed_at then Float.add b.realized_today c.pnl else b.realized_today;
}

-- `_bucket(name)` and its update
unfoldable pub in_bucket : String → (Bucket → Bucket) → Dict String Bucket → Dict String Bucket
in_bucket name f d = insert name (f (get_or name new_bucket d)) d

unfoldable pub add_trades : (ℕ → Bool) → List ClosedTrade → Dict String Bucket → Dict String Bucket
unfolding in_bucket add_trade
add_trades is_today [] d = d
add_trades is_today (c ∷ cs) d =
    add_trades is_today cs (in_bucket c.strategy (add_trade is_today c) d)

unfoldable pub add_lots : Dict Key Lot → Dict String Bucket → Dict String Bucket
unfolding in_bucket
add_lots [] d = d
add_lots (((strategy, conid), lot) ∷ rest) d =
    add_lots rest
      (in_bucket strategy (λ b. record b { open_lots = b.open_lots ++ ((conid, lot) ∷ []) }) d)

pub record Report : Type 0 where
  pub strategies : Dict String Bucket
  pub closed_trades : List ClosedTrade
  pub unmatched_sells : ℕ
  pub excluded_fills : ℕ

-- `realized_pnl_by_strategy`; none is an exception of the pairing.
unfoldable pub realized_pnl_by_strategy : (ℕ → Bool) → Table → Option Report
unfolding kept_fills add_trades add_lots
realized_pnl_by_strategy is_today t =
    let (kept, excluded) = kept_fills t in
    elim (pair_fills_long_only kept) [
      | none ↦ none
      | some p ↦ some (record {
        strategies = add_lots p.lots (add_trades is_today p.closed []);
        closed_trades = p.closed;
        unmatched_sells = p.unmatched_sells;
        excluded_fills = excluded;
      })
    ]

-- The ValueErrors of `set_fill_exclusion`, with the id.
pub data ExclusionError : Type 0 where
  no_event not_a_fill : ℕ → ExclusionError

-- The metadata of a row that is annotated with a reason, or whose annotation is taken off.
unfoldable pub annotate : Bool → Json → Dict String Json → Dict String Json
annotate true reason meta = insert "exclude_reason" reason (insert "excluded" (flag true) meta)
annotate false reason meta = erase "exclude_reason" (erase "excluded" meta)

-- One id, atomically.
unfoldable pub annotate_row : Bool → Json → Row → Row
unfolding annotate meta_of
annotate_row excluded reason r = record r {
  metadata = object (annotate excluded reason (meta_of r.metadata));
}

-- `set_fill_exclusion`: the number of updates or an error, with the table, in which the ids before the one
-- at fault stay annotated.
unfoldable pub set_fill_exclusion : List ℕ → Bool → Json → ℕ → Table → (ExclusionError ⊎ ℕ) × Table
unfolding annotate_row
set_fill_exclusion [] excluded reason updated t = (inr updated, t)
set_fill_exclusion (id ∷ ids) excluded reason updated t = elim (lookup id t) [
  | none ↦ (inl (no_event id), t)
  | some r ↦
      let rest =
        set_fill_exclusion ids excluded reason (suc updated)
          (insert id (annotate_row excluded reason r) t) in
      if same_type r.event_type order_filled then rest else (inl (not_a_fill id), t)
]
