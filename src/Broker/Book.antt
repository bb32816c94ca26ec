-- ===== src/Broker/Book.antt =====
-- trader/trading/book.py: `BookSubject`, without its log view and the subject that it passes updates to.
pub mod History
use openwallstreet.Prelude.{
  ℕ, suc, Bool, true, false, Option, none, some, String, ◌==◌, string_eq, nat_eq, List, [], ◌∷◌,
  elem, if◌then◌else◌, Dict, lookup, insert, contains,
}

-- An ib_async Order and Trade, as far as the book reads them. The status is none where the trade carries
-- no order status.
pub record Order : Type 0 where
  pub order_id : ℕ
  pub revision : ℕ

pub record Trade : Type 0 where
  pub order : Order
  pub status : Option String
  pub con_id : ℕ

pub data Update : Type 0 where
  of_trade : Trade → Update
  of_order : Order → Update

pub record Book : Type 0 where
  pub orders : Dict ℕ (List Order)
  pub trades : Dict ℕ (List Trade)

pub new_book : Book
new_book = record { orders = []; trades = [] }

-- `if k not in d: d[k] = []`, then `d[k] = [x] + d[k]`
unfoldable pub push : {A : Type 0} → ℕ → A → Dict ℕ (List A) → Dict ℕ (List A)
push k x d = elim (lookup k d) [ none ↦ insert k (x ∷ []) d | some xs ↦ insert k (x ∷ xs) d ]

unfoldable pub add_update_trade : Update → Book → Book
unfolding push
add_update_trade (of_trade t) b = record b {
  trades = push t.order.order_id t b.trades;
  orders = push t.order.order_id t.order b.orders;
}
add_update_trade (of_order o) b = record b { orders = push o.order_id o b.orders }

abbrev pub active_statuses : List String
active_statuses =
    "PendingSubmit" ∷ "ApiPending" ∷ "PreSubmitted" ∷ "Submitted" ∷ "PendingCancel" ∷ []

-- `status is None or status in _ACTIVE_STATUSES`
unfoldable pub is_active : Option String → Bool
is_active none = true
is_active (some status) = elem status active_statuses

-- Whether an id of the book counts as open; with no trade it does.
unfoldable pub is_open : Book → ℕ → Bool
unfolding is_active
is_open b order_id = elim (lookup order_id b.trades) [
  | none ↦ true
  | some [] ↦ true
  | some (t ∷ older) ↦ is_active t.status
]

unfoldable pub count_open : Book → Dict ℕ (List Order) → ℕ
count_open b [] = 0
count_open b ((order_id, os) ∷ rest) =
    let count = count_open b rest in if is_open b order_id then suc count else count

unfoldable pub get_open_order_count : Book → ℕ
unfolding count_open
get_open_order_count b = count_open b b.orders

first : {A : Type 0} → Option (List A) → Option A
first none = none
first (some []) = none
first (some (x ∷ xs)) = some x

-- `get_trade` and `get_order`; a list of the book is never empty.
unfoldable pub get_trade : Book → ℕ → Option Trade
unfolding first
get_trade b order_id = first (lookup order_id b.trades)

unfoldable pub get_order : Book → ℕ → Option Order
unfolding first
get_order b order_id = first (lookup order_id b.orders)

-- The book after a stream of updates, the oldest first.
unfoldable pub on_updates : List Update → Book → Book
on_updates [] b = b
on_updates (u ∷ us) b = on_updates us (add_update_trade u b)
