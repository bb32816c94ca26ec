-- ===== src/Broker/Book/History.antt =====
-- The book against the history of updates that it was fed.
use openwallstreet.Prelude.{
  ℕ, ◌≡◌, refl, ◌∙◌, ap, Bool, true, Option, none, some, arith, nat_eq, sym, eqb, List, [], ◌∷◌,
  if◌then◌else◌, Option-cases, inl, inr, Dict, lookup, lookup-insert,
}
use openwallstreet.Broker.Book.{
  Order, Trade, Update, of_trade, of_order, Book, new_book, push, add_update_trade, is_active,
  is_open, get_trade, get_order, first, on_updates,
}

-- The newer of two reports, if there is one.
abbrev pub newer : {A : Type 0} → Option A → Option A → Option A
newer none old = old
newer (some x) old = some x

-- The last trade of an order in a history, and its last order.
pub last_trade : ℕ → List Update → Option Trade
last_trade id [] = none
last_trade id (of_trade t ∷ us) =
    newer (last_trade id us) (if eqb t.order.order_id id then some t else none)
last_trade id (of_order o ∷ us) = last_trade id us

pub last_order : ℕ → List Update → Option Order
last_order id [] = none
last_order id (of_trade t ∷ us) =
    newer (last_order id us) (if eqb t.order.order_id id then some t.order else none)
last_order id (of_order o ∷ us) =
    newer (last_order id us) (if eqb o.order_id id then some o else none)

first-push :
    {A : Type 0} (k j : ℕ) (x : A) (d : Dict ℕ (List A))
    → first (lookup j (push k x d)) ≡ (if eqb k j then some x else first (lookup j d))
unfolding push first
first-push k j x d = elim (Option-cases (lookup k d)) [
  | inl missing ↦ ground (arith, lookup-insert k j (x ∷ []) d)
  | inr (xs, found) ↦ ground (arith, found, lookup-insert k j (x ∷ xs) d)
]

newer_assoc : {A : Type 0} (a b c : Option A) → newer (newer a b) c ≡ newer a (newer b c)
newer_assoc none b c = refl
newer_assoc (some x) b c = refl

get_trade-add_trade :
    (t : Trade) (b : Book) (id : ℕ)
    → get_trade (add_update_trade (of_trade t) b) id
      ≡ newer (if eqb t.order.order_id id then some t else none) (get_trade b id)
unfolding get_trade add_update_trade
get_trade-add_trade t b id = ground (arith, first-push t.order.order_id id t b.trades)

get_trade-add_order :
    (o : Order) (b : Book) (id : ℕ)
    → get_trade (add_update_trade (of_order o) b) id ≡ get_trade b id
unfolding get_trade add_update_trade
get_trade-add_order o b id = refl

get_trade-on_updates_from :
    (us : List Update) (b : Book) (id : ℕ)
    → get_trade (on_updates us b) id ≡ newer (last_trade id us) (get_trade b id)
unfolding on_updates last_trade
get_trade-on_updates_from [] b id = refl
get_trade-on_updates_from (of_trade t ∷ us) b id =
    rw
      (
        get_trade-on_updates_from us (add_update_trade (of_trade t) b) id,
        get_trade-add_trade t b id,
      )
      (sym (
        newer_assoc (last_trade id us) (if eqb t.order.order_id id then some t else none)
          (get_trade b id)))
get_trade-on_updates_from (of_order o ∷ us) b id =
    rw
      (
        get_trade-on_updates_from us (add_update_trade (of_order o) b) id,
        get_trade-add_order o b id,
      )
      refl

get_order-add_trade :
    (t : Trade) (b : Book) (id : ℕ)
    → get_order (add_update_trade (of_trade t) b) id
      ≡ newer (if eqb t.order.order_id id then some t.order else none) (get_order b id)
unfolding get_order add_update_trade
get_order-add_trade t b id = ground (arith, first-push t.order.order_id id t.order b.orders)

get_order-add_order :
    (o : Order) (b : Book) (id : ℕ)
    → get_order (add_update_trade (of_order o) b) id
      ≡ newer (if eqb o.order_id id then some o else none) (get_order b id)
unfolding get_order add_update_trade
get_order-add_order o b id = ground (arith, first-push o.order_id id o b.orders)

get_order-on_updates_from :
    (us : List Update) (b : Book) (id : ℕ)
    → get_order (on_updates us b) id ≡ newer (last_order id us) (get_order b id)
unfolding on_updates last_order
get_order-on_updates_from [] b id = refl
get_order-on_updates_from (of_trade t ∷ us) b id =
    rw
      (
        get_order-on_updates_from us (add_update_trade (of_trade t) b) id,
        get_order-add_trade t b id,
      )
      (sym (
        newer_assoc (last_order id us) (if eqb t.order.order_id id then some t.order else none)
          (get_order b id)))
get_order-on_updates_from (of_order o ∷ us) b id =
    rw
      (
        get_order-on_updates_from us (add_update_trade (of_order o) b) id,
        get_order-add_order o b id,
      )
      (sym (
        newer_assoc (last_order id us) (if eqb o.order_id id then some o else none)
          (get_order b id)))

newer-none : {A : Type 0} (a : Option A) → newer a none ≡ a
newer-none none = refl
newer-none (some x) = refl

-- Whether the last report of an order leaves it open.
abbrev pub open_after : Option Trade → Bool
open_after none = true
open_after (some t) = is_active t.status

is_open-get_trade : (b : Book) (id : ℕ) → is_open b id ≡ open_after (get_trade b id)
unfolding is_open get_trade first
is_open-get_trade b id = ground arith

-- After any stream of updates the book answers for an order id with the last trade and the last order
-- of that id in the stream, and the order counts as open exactly when it has no trade yet or its last
-- trade has an active status or none.
on_updates-last :
    (us : List Update) (id : ℕ)
    → (get_trade (on_updates us new_book) id ≡ last_trade id us)
      × (get_order (on_updates us new_book) id ≡ last_order id us)
      × (is_open (on_updates us new_book) id ≡ open_after (last_trade id us))
unfolding get_trade get_order lookup new_book
on_updates-last us id =
    let trade = get_trade-on_updates_from us new_book id ∙ newer-none (last_trade id us) in
    (
      trade,
      get_order-on_updates_from us new_book id ∙ newer-none (last_order id us),
      is_open-get_trade (on_updates us new_book) id ∙ ap open_after trade,
    )
