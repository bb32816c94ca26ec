-- ===== src/Strategy/Sdk.antt =====
-- What trader/strategy/auto_executor.py asks of the SDK, and `_resolve_exact`. The answers to the calls that
-- it makes while it works on one item are values, with none for an exception; each call site has its own,
-- as the account changes in between.
use openwallstreet.Prelude.{
  ℕ, Bool, not, ◌&&◌, Option, none, some, String, ◌==◌, string_eq, nat_eq, List, [], ◌∷◌, elem, eqb,
  filter, map, if◌then◌else◌, Dict, insert, get_or,
}
use openwallstreet.Float
use openwallstreet.Float.{Float, zero_float}
use openwallstreet.Data.Ledger.{Key, key_eq}

-- A security definition; a field that is missing is empty.
pub record Definition : Type 0 where
  pub symbol : String
  pub primary_exchange : String
  pub exchange : String
  pub currency : String
  pub sec_type : String

pub record Ident : Type 0 where
  pub symbol : String
  pub exchange : String
  pub currency : String
  pub sec_type : String

-- `a or b` of texts
abbrev pub or_text : String → String → String
or_text a b = if a == "" then b else a

abbrev pub ident_of : Definition → Ident
ident_of d = record {
  symbol = d.symbol;
  exchange = or_text d.primary_exchange d.exchange;
  currency = d.currency;
  sec_type = or_text d.sec_type "STK";
}

-- `sdk.resolve` of a conid, and of a symbol with its hints, as the conids that it finds.
pub record Resolver : Type 0 where
  pub defs : ℕ → Option (List Definition)
  pub back : Ident → Option (List ℕ)

-- An instrument, an AutoExecutionError, or another exception.
pub data Resolved : Type 0 where
  exact : Ident → Resolved
  imprecise unresolved : Resolved

unfoldable pub resolve_back : Resolver → ℕ → Ident → Resolved
resolve_back sdk conid i = elim (sdk.back i) [
  | none ↦ unresolved
  | some ids ↦ if elem conid ids then exact i else imprecise
]

-- `_resolve_exact`
unfoldable pub resolve_exact : Resolver → ℕ → Resolved
unfolding resolve_back
resolve_exact sdk conid = elim (sdk.defs conid) [
  | none ↦ unresolved
  | some [] ↦ imprecise
  | some (d ∷ ds) ↦ resolve_back sdk conid (ident_of d)
]

-- A row of `sdk.positions()`.
pub record Holding : Type 0 where
  pub conid : ℕ
  pub position : Float
  pub avg_cost : Float

-- A row of `sdk.trades()`.
pub record TradeRow : Type 0 where
  pub order_ref : String
  pub conid : ℕ
  pub status : String
  pub action : String
  pub order_id : ℕ

-- The answers of `sdk.approve` and `sdk.place_protective_order`.
pub data Approval : Type 0 where
  approved : List ℕ → Approval
  not_approved : Approval

pub data Placing : Type 0 where
  placed : ℕ → Placing
  not_placed : Placing

-- An environment variable that should be a number.
pub data Setting : Type 0 where
  unset malformed : Setting
  number : Float → Setting

-- What is sent to the broker and the proposal store.
pub data Sent : Type 0 where
  buy : Key → ℕ → Ident → Option Float → Option Float → Float → Sent
  sell : Key → ℕ → Ident → Float → Sent
  approve : ℕ → Sent
  cancel : Key → ℕ → Sent
  protect : Key → Ident → Float → Float → Sent

-- `order_total` is the sum that pandas makes of the quantities of the orders with some ids, none where there
-- are no such orders. What a close reads of the positions depends on what has been sent until then, newest first:
-- a stop that is not cancelled can still fill.
pub record Answers : Type 0 where
  pub kill_switch_env : String
  pub live_arm_env : String
  pub stale_bar_env : Setting
  pub grace_env : Setting
  pub stop_env : Setting
  pub reconcile_clock : Float
  pub signal_clock : Float
  pub utc_clock : ℕ
  pub gate_clock : ℕ
  pub log_clock : ℕ
  pub event_clock : ℕ
  pub exec_clock : Float
  pub reconcile_holdings : Option (List Holding)
  pub resolver : Resolver
  pub proposal_id : Option ℕ
  pub approval : Option Approval
  pub proposal_quantity : Option Float
  pub order_total : List ℕ → Option Float
  pub close_trades : Option (List TradeRow)
  pub close_holdings : List Sent → Option (List Holding)
  pub stop_trades : Option (List TradeRow)
  pub stop_holdings : Option (List Holding)
  pub stop_resolver : Resolver
  pub stop_placing : Option Placing

-- `kill_switch`
unfoldable pub kill_switch : Answers → Bool
kill_switch a = not (elem a.kill_switch_env ("" ∷ "0" ∷ "false" ∷ "False" ∷ []))

-- `live_armed`
unfoldable pub live_armed : Answers → Bool
live_armed a = a.live_arm_env == "1"

-- `float(os.environ.get(name, '') or default)`, with what a ValueError gives.
abbrev pub setting_or : Float → Float → Setting → Float
setting_or default failed unset = default
setting_or default failed malformed = failed
setting_or default failed (number x) = x

unfoldable pub stale_bar_multiple : Answers → Float
stale_bar_multiple a = setting_or (Float.literal 3 1) (Float.literal 3 1) a.stale_bar_env

unfoldable pub empty_broker_grace_seconds : Answers → Float
empty_broker_grace_seconds a = setting_or (Float.literal 120 1) (Float.literal 120 1) a.grace_env

unfoldable pub protective_stop_pct : Answers → Float
protective_stop_pct a = setting_or (Float.literal 8 1) zero_float a.stop_env

-- `_broker_positions`, where a later row of a conid replaces an earlier one.
unfoldable pub broker_positions : List Holding → Dict ℕ Float → Dict ℕ Float
broker_positions [] d = d
broker_positions (h ∷ hs) d = broker_positions hs (insert h.conid h.position d)

unfoldable pub broker_quantity : ℕ → List Holding → Float
unfolding broker_positions get_or
broker_quantity conid hs = get_or conid zero_float (broker_positions hs [])

-- Whether a row is a live sell order of the strategy for the conid.
unfoldable pub is_own : Key → TradeRow → Bool
is_own k r =
    r.order_ref == k.0
    && (eqb r.conid k.1
        && (elem r.status ("PreSubmitted" ∷ "Submitted" ∷ []) && r.action == "SELL"))

-- `_own_live_protectives`
unfoldable pub own_live_protectives : Key → Option (List TradeRow) → List ℕ
unfolding is_own
own_live_protectives k none = []
own_live_protectives k (some rows) =
    filter (λ o. not (eqb o 0)) (map (λ (r : TradeRow). r.order_id) (filter (is_own k) rows))
