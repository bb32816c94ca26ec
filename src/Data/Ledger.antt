-- ===== src/Data/Ledger.antt =====
-- trader/data/event_store.py: `pair_fills_long_only`, which pairs fills into round trips.
pub mod Lots
pub mod Same
pub mod Isolation
use openwallstreet.Prelude.{
  ℕ, suc, ◌≡◌, ◌↔◌, arith, Bool, true, false, not, ◌&&◌, Option, none, some, String, KeyEq, ◌==◌,
  string_eq, nat_eq, List, [], ◌∷◌, ◌++◌, map, eqb, if◌then◌else◌, Dict, lookup, insert, erase,
  upper,
}
use openwallstreet.Float
use openwallstreet.Float.{Float, zero_float, literal}
use openwallstreet.Risk.Events.{Json, truthy, to_float}

-- A row (strategy_name, conid, action, quantity, price, timestamp); an action of NULL is empty.
pub record Fill : Type 0 where
  pub strategy : String
  pub conid : ℕ
  pub action : String
  pub quantity : Json
  pub price : Json
  pub timestamp : ℕ

abbrev pub Key : Type 0
Key = String × ℕ

abbrev pub key_eqb : Key → Key → Bool
key_eqb (a, b) (c, d) = a == c && eqb b d

pub key_eqb_iff : (j k : Key) → (key_eqb j k ≡ true) ↔ (j ≡ k)
key_eqb_iff (a, b) (c, d) = grind (arith, string_eq.same_iff a c, nat_eq.same_iff b d)

instance abbrev pub key_eq : KeyEq Key
key_eq = record { same = key_eqb; same_iff = key_eqb_iff }

abbrev pub key_of : Fill → Key
key_of f = (f.strategy, f.conid)

-- A lot: its quantity and its volume-weighted entry.
pub record Lot : Type 0 where
  pub quantity : Float
  pub entry_price : Float

pub record ClosedTrade : Type 0 where
  pub strategy : String
  pub conid : ℕ
  pub quantity : Float
  pub entry_price : Float
  pub exit_price : Float
  pub pnl : Float
  pub closed_at : ℕ

pub record Pairing : Type 0 where
  pub lots : Dict Key Lot
  pub closed : List ClosedTrade
  pub unmatched_sells : ℕ

-- `float(value or 0.0)` of a column, which holds no integer beyond the doubles; none is a TypeError or a
-- ValueError.
unfoldable pub as_number : Json → Option Float
as_number v = if truthy v then to_float v else some zero_float

-- A BUY opens a lot or extends it; none is ZeroDivisionError.
unfoldable pub buy : Key → Float → Float → Pairing → Option Pairing
buy k qty px s = elim (lookup k s.lots) [
  | none ↦ some (record s { lots = insert k (record { quantity = qty; entry_price = px }) s.lots })
  | some lot ↦
      let new_qty = Float.add lot.quantity qty in
      elim (Float.div (Float.add (Float.mul lot.quantity lot.entry_price) (Float.mul qty px))
        new_qty) [
          | none ↦ none
          | some entry ↦ some (record s {
            lots = insert k (record { quantity = new_qty; entry_price = entry }) s.lots;
          })
        ]
]

-- What is left of a lot; a remainder of at most 1e-9 closes it.
unfoldable pub reduce_lot : Key → Float → Lot → Dict Key Lot → Dict Key Lot
reduce_lot k close_qty lot lots =
    let remaining = Float.sub lot.quantity close_qty in
    if Float.le remaining (literal 1 1000000000)
    then erase k lots
    else insert k (record lot { quantity = remaining }) lots

unfoldable pub closed_trade : Fill → Float → Float → Lot → ClosedTrade
closed_trade f close_qty px lot = record {
  strategy = f.strategy;
  conid = f.conid;
  quantity = close_qty;
  entry_price = lot.entry_price;
  exit_price = px;
  pnl = Float.mul (Float.sub px lot.entry_price) close_qty;
  closed_at = f.timestamp;
}

abbrev pub count_unmatched : Pairing → Pairing
count_unmatched s = record s { unmatched_sells = suc s.unmatched_sells }

-- A SELL closes what the lot holds; without a lot it is counted.
unfoldable pub sell : Fill → Float → Float → Pairing → Pairing
unfolding reduce_lot closed_trade
sell f qty px s = elim (lookup (key_of f) s.lots) [
  | none ↦ count_unmatched s
  | some lot ↦
      if Float.le lot.quantity zero_float
      then count_unmatched s
      else let close_qty = Float.min qty lot.quantity in
        record s {
          lots = reduce_lot (key_of f) close_qty lot s.lots;
          closed = s.closed ++ (closed_trade f close_qty px lot ∷ []);
        }
]

-- A fill with readable numbers.
unfoldable pub pair_sized : Fill → Float → Float → Pairing → Option Pairing
unfolding buy sell
pair_sized f qty px s =
    if Float.le qty zero_float
    then some s
    else let side = upper f.action in
      if side == "BUY"
      then buy (key_of f) qty px s
      else if side == "SELL"
      then some (sell f qty px s)
      else some s

-- One turn of the loop.
unfoldable pub pair_fill : Fill → Pairing → Option Pairing
unfolding pair_sized as_number
pair_fill f s = elim (as_number f.quantity) [
  | none ↦ some s
  | some qty ↦ elim (as_number f.price) [ none ↦ some s | some px ↦ pair_sized f qty px s ]
]

unfoldable pub pair_from : Pairing → List Fill → Option Pairing
unfolding pair_fill
pair_from s [] = some s
pair_from s (f ∷ fs) = elim (pair_fill f s) [ none ↦ none | some t ↦ pair_from t fs ]

-- `pair_fills_long_only`; the open lots are the lots that are left.
unfoldable pub pair_fills_long_only : List Fill → Option Pairing
unfolding pair_from
pair_fills_long_only = pair_from (record { lots = []; closed = []; unmatched_sells = 0 })
