-- ===== src/Data/Ledger/Lots.antt =====
-- The lots of the ledger.
use openwallstreet.Prelude.{
  zero, suc, ◌+◌, ◌≡◌, inl, inr, refl, arith, true, false, Option, some, ◌==◌, string_eq, List, [],
  ◌∷◌, Bool-cases, Option-cases, Dict, lookup, insert, erase, lookup-insert, lookup-erase, upper,
  pos, negsuc, ◌+ℤ◌,
}
use openwallstreet.Float
use openwallstreet.Float.{
  Float, nan, inf, neg_inf, fin, zero_float, literal, of_ratio, nearest, overflow, nearest-pos,
}
use openwallstreet.Data.Ledger.{
  Fill, Key, key_eq, key_of, Lot, Pairing, as_number, buy, reduce_lot, sell, pair_sized, pair_fill,
  pair_from, pair_fills_long_only,
}

-- The sum of two numbers that are not 0.0 or less is not 0.0 or less either.
add-positive :
    (x y : Float)
    → Float.le x zero_float ≡ false
    → Float.le y zero_float ≡ false
    → Float.le (Float.add x y) zero_float ≡ false
unfolding Float.le Float.add zero_float Float.round Float.magnitude Float.is_pos of_ratio ◌+ℤ◌
add-positive nan y hx hy = ground arith
add-positive inf y hx hy = ground arith
add-positive neg_inf y hx hy = ground arith
add-positive (fin (pos a)) (fin (pos b)) hx hy = ground (arith, nearest-pos (a + b))
add-positive (fin a) y hx hy = ground arith

div_of_positive :
    (x y : Float) → Float.le y zero_float ≡ false → (z : Float) × (Float.div x y ≡ some z)
unfolding Float.le Float.div zero_float
div_of_positive x nan h = (_, refl)
div_of_positive (fin a) inf h = (_, refl)
div_of_positive nan inf h = (_, refl)
div_of_positive inf inf h = (_, refl)
div_of_positive neg_inf inf h = (_, refl)
div_of_positive x neg_inf h = absurd (cc h)
div_of_positive x (fin (pos zero)) h = absurd (cc h)
div_of_positive x (fin (pos (suc n))) h = (_, refl)
div_of_positive x (fin (negsuc n)) h = (_, refl)

-- No lot is empty.
abbrev pub IsStocked : Dict Key Lot → Type 0
IsStocked lots =
    (k : Key) (lot : Lot) → lookup k lots ≡ some lot → Float.le lot.quantity zero_float ≡ false

insert-IsStocked :
    (k : Key) (lot : Lot) (lots : Dict Key Lot)
    → Float.le lot.quantity zero_float ≡ false
    → IsStocked lots
    → IsStocked (insert k lot lots)
insert-IsStocked k lot lots full stocked j other found = elim (Bool-cases (k == j)) [
  | inl same ↦ ground (arith, lookup-insert k j lot lots, full)
  | inr apart ↦ stocked j other (ground (arith, lookup-insert k j lot lots))
]

erase-IsStocked : (k : Key) (lots : Dict Key Lot) → IsStocked lots → IsStocked (erase k lots)
erase-IsStocked k lots stocked j other found =
    stocked j other (ground (arith, lookup-erase k j lots))

tolerance_positive : Float.lt zero_float (literal 1 1000000000) ≡ true
unfolding Float.lt zero_float literal Float.nearest Float.round_div Float.quantum Float.overflow
    Float.unit
tolerance_positive = refl

-- What is above a positive bound is not 0.0 or less.
above_tolerance :
    (x t : Float)
    → Float.lt zero_float t ≡ true
    → Float.le x t ≡ false
    → Float.le x zero_float ≡ false
unfolding Float.lt Float.le zero_float
above_tolerance x t pos_t h = ground arith

reduce_lot-IsStocked :
    (k : Key) (close_qty : Float) (lot : Lot) (lots : Dict Key Lot)
    → IsStocked lots
    → IsStocked (reduce_lot k close_qty lot lots)
unfolding reduce_lot
reduce_lot-IsStocked k close_qty lot lots stocked =
    let remaining = Float.sub lot.quantity close_qty in
    elim (Bool-cases (Float.le remaining (literal 1 1000000000))) [
      | inl gone ↦ rw gone (erase-IsStocked k lots stocked)
      | inr left ↦ rw left (
          insert-IsStocked k (record lot { quantity = remaining }) lots
            (above_tolerance remaining _ tolerance_positive left) stocked)
    ]

sell-IsStocked :
    (f : Fill) (qty px : Float) (s : Pairing) → IsStocked s.lots → IsStocked (sell f qty px s).lots
unfolding sell
sell-IsStocked f qty px s stocked = elim (Option-cases (lookup (key_of f) s.lots)) [
  | inl missing ↦ rw (sell, missing) stocked
  | inr (lot, found) ↦
      rw (sell, found, stocked (key_of f) lot found)
        (reduce_lot-IsStocked (key_of f) (Float.min qty lot.quantity) lot s.lots stocked)
]

-- A step that succeeds on stocked lots and leaves them stocked.
abbrev pub Steps : Option Pairing → Type 0
Steps o = (t : Pairing) × (o ≡ some t) × IsStocked t.lots

buy-Steps :
    (k : Key) (qty px : Float) (s : Pairing)
    → Float.le qty zero_float ≡ false
    → IsStocked s.lots
    → Steps (buy k qty px s)
unfolding buy
buy-Steps k qty px s full stocked = elim (Option-cases (lookup k s.lots)) [
  | inl missing ↦
      let lots =
        insert-IsStocked k (record { quantity = qty; entry_price = px }) s.lots full stocked in
      (
        record s { lots = insert k (record { quantity = qty; entry_price = px }) s.lots },
        rw (buy, missing) refl,
        lots,
      )
  | inr (lot, found) ↦
      let more = add-positive lot.quantity qty (stocked k lot found) full in
      let (entry, divided) =
        div_of_positive (Float.add (Float.mul lot.quantity lot.entry_price) (Float.mul qty px)) _
          more in
      let lots =
        insert-IsStocked k (record { quantity = Float.add lot.quantity qty; entry_price = entry })
          s.lots more stocked in
      (
        record s {
          lots =
              insert k (record { quantity = Float.add lot.quantity qty; entry_price = entry })
                s.lots;
        },
        rw (buy, found, divided) refl,
        lots,
      )
]

pair_sized-Steps :
    (f : Fill) (qty px : Float) (s : Pairing) → IsStocked s.lots → Steps (pair_sized f qty px s)
unfolding pair_sized
pair_sized-Steps f qty px s stocked = elim (Bool-cases (Float.le qty zero_float)) [
  | inl empty ↦ rw (pair_sized, empty) (s, refl, stocked)
  | inr full ↦ elim (Bool-cases (upper f.action == "BUY")) [
    | inl buys ↦ rw (pair_sized, full, buys) (buy-Steps (key_of f) qty px s full stocked)
    | inr other ↦ elim (Bool-cases (upper f.action == "SELL")) [
      | inl sells ↦
          rw (pair_sized, full, other, sells)
            (sell f qty px s, refl, sell-IsStocked f qty px s stocked)
      | inr neither ↦ rw (pair_sized, full, other, neither) (s, refl, stocked)
    ]
  ]
]

pub pair_fill-Steps : (f : Fill) (s : Pairing) → IsStocked s.lots → Steps (pair_fill f s)
unfolding pair_fill
pair_fill-Steps f s stocked = elim (Option-cases (as_number f.quantity)) [
  | inl unread ↦ rw (pair_fill, unread) (s, refl, stocked)
  | inr (qty, read) ↦ elim (Option-cases (as_number f.price)) [
    | inl unpriced ↦ rw (pair_fill, read, unpriced) (s, refl, stocked)
    | inr (px, priced) ↦ rw (pair_fill, read, priced) (pair_sized-Steps f qty px s stocked)
  ]
]

pub pair_from-Steps : (fs : List Fill) (s : Pairing) → IsStocked s.lots → Steps (pair_from s fs)
unfolding pair_from
pair_from-Steps [] s stocked = (s, refl, stocked)
pair_from-Steps (f ∷ fs) s stocked =
    let (t, stepped, stocked_t) = pair_fill-Steps f s stocked in
    rw (pair_from, stepped) (pair_from-Steps fs t stocked_t)

-- The pairing of any fills, readable or not, ends without a division by zero, and no lot that it leaves
-- open has a quantity of 0.0 or less.
pub pair_fills_long_only-IsStocked :
    (fs : List Fill) → (t : Pairing) × (pair_fills_long_only fs ≡ some t) × IsStocked t.lots
unfolding pair_fills_long_only lookup
pair_fills_long_only-IsStocked fs =
    pair_from-Steps fs (record { lots = []; closed = []; unmatched_sells = 0 })
      (λ k lot h. absurd (cc h))
