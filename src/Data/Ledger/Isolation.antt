-- ===== src/Data/Ledger/Isolation.antt =====
-- The ledger of one strategy and contract beside the others.
use openwallstreet.Prelude.{
  ◌≡◌, inl, inr, refl, sym, ◌∙◌, arith, Option, some, ◌==◌, string_eq, same_refl, List, [], ◌∷◌,
  Bool-cases, Option-cases, Dict, lookup, insert, lookup-insert_self, lookup-erase, upper,
}
use openwallstreet.Float
use openwallstreet.Float.{Float, zero_float, literal}
use openwallstreet.Data.Ledger.{
  Fill, Key, key_eq, key_of, Lot, Pairing, as_number, buy, reduce_lot, closed_trade, sell,
  pair_sized, pair_fill, pair_from, pair_fills_long_only,
}
use openwallstreet.Data.Ledger.Lots.{IsStocked, pair_fill-Steps}
use openwallstreet.Data.Ledger.Same.{own, Same, own_closed-append, pair_fill-Foreign}

module _ (k : Key) where
  -- An insertion under the key hides what stood there.
  insert-Same :
      (lot : Lot) (s t : Pairing)
      → Same k s t
      → Same k (record s { lots = insert k lot s.lots }) (record t { lots = insert k lot t.lots })
  insert-Same lot s t same = record {
    lot = rw (lookup-insert_self k lot s.lots, lookup-insert_self k lot t.lots) refl;
    closed = same.closed;
  }

  buy-Same :
      (qty px : Float) (s t u v : Pairing)
      → Same k s t
      → buy k qty px s ≡ some u
      → buy k qty px t ≡ some v
      → Same k u v
  unfolding buy
  buy-Same qty px s t u v same hs ht = elim (Option-cases (lookup k s.lots)) [
    | inl missing ↦
        let fresh : Lot = record { quantity = qty; entry_price = px } in
        let shown = insert-Same fresh s t same in
        record {
          lot = ground (arith, missing, same.lot, shown.lot);
          closed = ground (arith, missing, same.lot, same.closed);
        }
    | inr (lot, found) ↦
        let new_qty = Float.add lot.quantity qty in
        elim (Option-cases (
          Float.div (Float.add (Float.mul lot.quantity lot.entry_price) (Float.mul qty px))
            new_qty)) [
              | inl undivided ↦ absurd (ground (arith, found, undivided))
              | inr (entry, divided) ↦
                  let shown =
                    insert-Same (record { quantity = new_qty; entry_price = entry }) s t same in
                  record {
                    lot = ground (arith, found, divided, same.lot, shown.lot);
                    closed = ground (arith, found, divided, same.lot, same.closed);
                  }
            ]
  ]

  reduce_lot-Same :
      (close_qty : Float) (lot : Lot) (ds es : Dict Key Lot)
      → lookup k (reduce_lot k close_qty lot ds) ≡ lookup k (reduce_lot k close_qty lot es)
  unfolding reduce_lot
  reduce_lot-Same close_qty lot ds es =
      let remaining : Lot = record lot { quantity = Float.sub lot.quantity close_qty } in
      ground (
        arith,
        lookup-erase k k ds,
        lookup-erase k k es,
        lookup-insert_self k remaining ds,
        lookup-insert_self k remaining es,
        same_refl k,
      )

  sell-Same :
      (f : Fill) (qty px : Float) (s t : Pairing)
      → key_of f ≡ k
      → Same k s t
      → Same k (sell f qty px s) (sell f qty px t)
  unfolding sell
  sell-Same f qty px s t mine same = elim (Option-cases (lookup k s.lots)) [
    | inl missing ↦
        rw (sell, mine, sym same.lot, missing) (record { lot = same.lot; closed = same.closed })
    | inr (lot, found) ↦
        let close_qty = Float.min qty lot.quantity in
        elim (Bool-cases (Float.le lot.quantity zero_float)) [
          | inl empty ↦
              rw (sell, mine, sym same.lot, found, empty)
                (record { lot = same.lot; closed = same.closed })
          | inr full ↦
              rw (sell, mine, sym same.lot, found, full)
                (record {
                  lot = rw mine (reduce_lot-Same close_qty lot s.lots t.lots);
                  closed =
                      own_closed-append k s.closed t.closed (closed_trade f close_qty px lot)
                        same.closed;
                })
        ]
  ]

  pair_sized-Same :
      (f : Fill) (qty px : Float) (s t u v : Pairing)
      → key_of f ≡ k
      → Same k s t
      → pair_sized f qty px s ≡ some u
      → pair_sized f qty px t ≡ some v
      → Same k u v
  unfolding pair_sized
  pair_sized-Same f qty px s t u v mine same hs ht = elim (Bool-cases (Float.le qty zero_float)) [
    | inl empty ↦ record {
      lot = ground (arith, empty, same.lot);
      closed = ground (arith, empty, same.closed);
    }
    | inr full ↦ elim (Bool-cases (upper f.action == "BUY")) [
      | inl buys ↦
          buy-Same qty px s t u v same (ground (arith, full, buys, mine))
            (ground (arith, full, buys, mine))
      | inr other ↦ elim (Bool-cases (upper f.action == "SELL")) [
        | inl sells ↦
            let sold = sell-Same f qty px s t mine same in
            record {
              lot = ground (arith, full, other, sells, sold.lot);
              closed = ground (arith, full, other, sells, sold.closed);
            }
        | inr neither ↦ record {
          lot = ground (arith, full, other, neither, same.lot);
          closed = ground (arith, full, other, neither, same.closed);
        }
      ]
    ]
  ]

  pair_fill-Same :
      (f : Fill) (s t u v : Pairing)
      → key_of f ≡ k
      → Same k s t
      → pair_fill f s ≡ some u
      → pair_fill f t ≡ some v
      → Same k u v
  unfolding pair_fill
  pair_fill-Same f s t u v mine same hs ht = elim (Option-cases (as_number f.quantity)) [
    | inl unread ↦ record {
      lot = ground (arith, unread, same.lot);
      closed = ground (arith, unread, same.closed);
    }
    | inr (qty, read) ↦ elim (Option-cases (as_number f.price)) [
      | inl unpriced ↦ record {
        lot = ground (arith, read, unpriced, same.lot);
        closed = ground (arith, read, unpriced, same.closed);
      }
      | inr (px, priced) ↦
          pair_sized-Same f qty px s t u v mine same (ground (arith, read, priced))
            (ground (arith, read, priced))
    ]
  ]

  -- What two runs of the pairing leave, that the key cannot tell apart.
  abbrev pub Paired : Option Pairing → Option Pairing → Type 0
  Paired o p = (u : Pairing) × (v : Pairing) × (o ≡ some u) × (p ≡ some v) × Same k u v

  Same-chain : {s t u : Pairing} → Same k s t → Same k t u → Same k s u
  Same-chain a b = record { lot = a.lot ∙ b.lot; closed = a.closed ∙ b.closed }

  pair_from-Paired :
      (fs : List Fill) (s t : Pairing)
      → IsStocked s.lots
      → IsStocked t.lots
      → Same k s t
      → Paired (pair_from s fs) (pair_from t (own k fs))
  unfolding pair_from
  pair_from-Paired [] s t hs ht same = (s, t, refl, refl, same)
  pair_from-Paired (f ∷ fs) s t hs ht same =
      let (u, stepped, hu) = pair_fill-Steps f s hs in
      elim (Bool-cases (key_of f == k)) [
        | inr foreign ↦
            rw (foreign, pair_from, stepped)
              (pair_from-Paired fs u t hu ht
                (Same-chain (pair_fill-Foreign k f s u foreign stepped) same))
        | inl mine ↦
            let (v, stepped_t, hv) = pair_fill-Steps f t ht in
            let both =
              pair_fill-Same f s t u v ((key_eq.same_iff (key_of f) k).0 mine) same stepped
                stepped_t in
            rw (mine, pair_from, stepped, stepped_t) (pair_from-Paired fs u v hu hv both)
      ]

  -- The ledger of a strategy and a contract is that of their own fills: among any fills, the open lot of
  -- the key and its closed trades, in their order and to the last digit, are those that the pairing of the
  -- key's fills alone gives.
  pub pair_fills_long_only-own :
      (fs : List Fill) → Paired (pair_fills_long_only fs) (pair_fills_long_only (own k fs))
  unfolding pair_fills_long_only lookup
  pair_fills_long_only-own fs =
      let empty : Pairing = record { lots = []; closed = []; unmatched_sells = 0 } in
      pair_from-Paired fs empty empty (λ j lot h. absurd (cc h)) (λ j lot h. absurd (cc h))
        (record { lot = refl; closed = refl })
