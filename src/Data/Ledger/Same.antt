-- ===== src/Data/Ledger/Same.antt =====
-- What one strategy and contract can tell of the state of the pairing, and the fills of the others.
use openwallstreet.Prelude.{
  ◌≡◌, inl, inr, refl, sym, ap, ◌∙◌, arith, Bool, false, some, ◌==◌, string_eq, List, [], ◌∷◌, ◌++◌,
  filter, Bool-cases, Option-cases, Dict, lookup, lookup-insert, lookup-erase, upper,
}
use openwallstreet.Float
use openwallstreet.Float.{Float, zero_float, literal}
use openwallstreet.Data.Ledger.{
  Fill, Key, key_eq, key_of, Lot, ClosedTrade, Pairing, as_number, buy, reduce_lot, closed_trade,
  sell, pair_sized, pair_fill,
}

filter-append {ℓ} :
    {A : Type ℓ} (p : A → Bool) (xs ys : List A) → filter p (xs ++ ys) ≡ filter p xs ++ filter p ys
filter-append p [] ys = refl
filter-append p (x ∷ xs) ys = ground (arith, filter-append p xs ys)

module _ (k : Key) where
  -- The fills and the closed trades of one key.
  abbrev pub own : List Fill → List Fill
  own = filter (λ f. key_of f == k)

  abbrev pub own_closed : List ClosedTrade → List ClosedTrade
  own_closed = filter (λ t. (t.strategy, t.conid) == k)

  -- Two states of the pairing that the key cannot tell apart.
  pub record Same (s t : Pairing) : Type 0 where
    pub lot : lookup k s.lots ≡ lookup k t.lots
    pub closed : own_closed s.closed ≡ own_closed t.closed

  buy-Foreign :
      (j : Key) (qty px : Float) (s u : Pairing)
      → (j == k) ≡ false
      → buy j qty px s ≡ some u
      → Same u s
  unfolding buy
  buy-Foreign j qty px s u foreign h = elim (Option-cases (lookup j s.lots)) [
    | inl missing ↦ record {
      lot =
          ground (
            arith,
            missing,
            lookup-insert j k (record { quantity = qty; entry_price = px }) s.lots,
          );
      closed = ground (arith, missing);
    }
    | inr (lot, found) ↦
        let new_qty = Float.add lot.quantity qty in
        elim (Option-cases (
          Float.div (Float.add (Float.mul lot.quantity lot.entry_price) (Float.mul qty px))
            new_qty)) [
              | inl undivided ↦ absurd (ground (arith, found, undivided))
              | inr (entry, divided) ↦ record {
                lot = ground (
                  arith,
                  found,
                  divided,
                  lookup-insert j k (record { quantity = new_qty; entry_price = entry }) s.lots,
                );
                closed = ground (arith, found, divided);
              }
            ]
  ]

  reduce_lot-foreign :
      (j : Key) (close_qty : Float) (lot : Lot) (lots : Dict Key Lot)
      → (j == k) ≡ false
      → lookup k (reduce_lot j close_qty lot lots) ≡ lookup k lots
  unfolding reduce_lot
  reduce_lot-foreign j close_qty lot lots foreign = ground (
    arith,
    lookup-erase j k lots,
    lookup-insert j k (record lot { quantity = Float.sub lot.quantity close_qty }) lots,
  )

  own_closed-foreign :
      (cs : List ClosedTrade) (c : ClosedTrade)
      → ((c.strategy, c.conid) == k) ≡ false
      → own_closed (cs ++ (c ∷ [])) ≡ own_closed cs
  own_closed-foreign [] c foreign = ground (arith, foreign)
  own_closed-foreign (d ∷ cs) c foreign = ground (arith, own_closed-foreign cs c foreign)

  pub own_closed-append :
      (cs ds : List ClosedTrade) (c : ClosedTrade)
      → own_closed cs ≡ own_closed ds
      → own_closed (cs ++ (c ∷ [])) ≡ own_closed (ds ++ (c ∷ []))
  own_closed-append cs ds c h =
      filter-append _ cs (c ∷ [])
      ∙ ap (λ xs. xs ++ own_closed (c ∷ [])) h
      ∙ sym (filter-append _ ds (c ∷ []))

  sell-Foreign :
      (f : Fill) (qty px : Float) (s : Pairing) → (key_of f == k) ≡ false → Same (sell f qty px s) s
  unfolding sell closed_trade
  sell-Foreign f qty px s foreign = elim (Option-cases (lookup (key_of f) s.lots)) [
    | inl missing ↦ rw (sell, missing) (record { lot = refl; closed = refl })
    | inr (lot, found) ↦
        let close_qty = Float.min qty lot.quantity in
        elim (Bool-cases (Float.le lot.quantity zero_float)) [
          | inl empty ↦ rw (sell, found, empty) (record { lot = refl; closed = refl })
          | inr full ↦
              rw (sell, found, full)
                (record {
                  lot = reduce_lot-foreign (key_of f) close_qty lot s.lots foreign;
                  closed = own_closed-foreign s.closed (closed_trade f close_qty px lot) foreign;
                })
        ]
  ]

  pair_sized-Foreign :
      (f : Fill) (qty px : Float) (s u : Pairing)
      → (key_of f == k) ≡ false
      → pair_sized f qty px s ≡ some u
      → Same u s
  unfolding pair_sized
  pair_sized-Foreign f qty px s u foreign h = elim (Bool-cases (Float.le qty zero_float)) [
    | inl empty ↦ record { lot = ground (arith, empty); closed = ground (arith, empty) }
    | inr full ↦ elim (Bool-cases (upper f.action == "BUY")) [
      | inl buys ↦ buy-Foreign (key_of f) qty px s u foreign (ground (arith, full, buys))
      | inr other ↦ elim (Bool-cases (upper f.action == "SELL")) [
        | inl sells ↦
            let same = sell-Foreign f qty px s foreign in
            record {
              lot = ground (arith, full, other, sells, same.lot);
              closed = ground (arith, full, other, sells, same.closed);
            }
        | inr neither ↦ record {
          lot = ground (arith, full, other, neither);
          closed = ground (arith, full, other, neither);
        }
      ]
    ]
  ]

  pub pair_fill-Foreign :
      (f : Fill) (s u : Pairing) → (key_of f == k) ≡ false → pair_fill f s ≡ some u → Same u s
  unfolding pair_fill
  pair_fill-Foreign f s u foreign h = elim (Option-cases (as_number f.quantity)) [
    | inl unread ↦ record { lot = ground (arith, unread); closed = ground (arith, unread) }
    | inr (qty, read) ↦ elim (Option-cases (as_number f.price)) [
      | inl unpriced ↦ record {
        lot = ground (arith, read, unpriced);
        closed = ground (arith, read, unpriced);
      }
      | inr (px, priced) ↦ pair_sized-Foreign f qty px s u foreign (ground (arith, read, priced))
    ]
  ]
