-- ===== src/Data/FillLog/Exclusion.antt =====
-- What an exclusion does to the ledger.
use openwallstreet.Prelude.{
  ℕ, suc, ◌+◌, ◌≡◌, inl, inr, refl, sym, ap, ◌∙◌, arith, Bool, true, false, Option, none, some,
  String, ◌==◌, string_eq, nat_eq, same_refl, List, [], ◌∷◌, length, Bool-cases, Option-cases, Dict,
  lookup, insert, erase, contains, lookup-insert, lookup-insert_self, lookup-erase, erase-insert_ne,
  erase-new,
}
use openwallstreet.Risk.Events.{order_filled, same_type, Json, flag}
use openwallstreet.Data.Ledger.{ClosedTrade, pair_fills_long_only}
use openwallstreet.Data.FillLog.{
  Row, Table, meta_of, is_excluded, kept_fills, Bucket, Report, realized_pnl_by_strategy, annotate,
  annotate_row, set_fill_exclusion,
}

-- `id` is a primary key.
abbrev pub IsKeyed : Table → Type 0
IsKeyed [] = Unit
IsKeyed ((id, r) ∷ rest) = (contains id rest ≡ false) × IsKeyed rest

abbrev pub IsFill : Table → ℕ → Type 0
IsFill t id = (r : Row) × (lookup id t ≡ some r) × (same_type r.event_type order_filled ≡ true)

abbrev pub AllFills : Table → List ℕ → Type 0
AllFills t [] = Unit
AllFills t (id ∷ ids) = IsFill t id × AllFills t ids

-- The table without the rows of some ids.
unfoldable pub without : List ℕ → Table → Table
without [] t = t
without (id ∷ ids) t = without ids (erase id t)

-- A report but for the count of the excluded fills.
abbrev pub balances : Option Report → Option (Dict String Bucket × List ClosedTrade × ℕ)
balances none = none
balances (some r) = some (r.strategies, r.closed_trades, r.unmatched_sells)

annotate-excludes : (reason : Json) (r : Row) → is_excluded (annotate_row true reason r) ≡ true
unfolding is_excluded annotate_row annotate meta_of
annotate-excludes reason r =
    let meta = insert "excluded" (flag true) (meta_of r.metadata) in
    rw
      (
        lookup-insert "exclude_reason" "excluded" reason meta,
        lookup-insert_self "excluded" (flag true) (meta_of r.metadata),
      )
      refl

module _ {V : Type 0} where
  erase-insert_self : (k : ℕ) (v : V) (d : Dict ℕ V) → erase k (insert k v d) ≡ erase k d
  unfolding erase insert
  erase-insert_self k v [] = rw (same_refl k) refl
  erase-insert_self k v ((j, w) ∷ d) = ground (arith, erase-insert_self k v d)

  erase-twice : (k : ℕ) (d : Dict ℕ V) → erase k (erase k d) ≡ erase k d
  unfolding erase
  erase-twice k [] = refl
  erase-twice k ((j, w) ∷ d) = ground (arith, erase-twice k d)

  erase_comm : (k j : ℕ) (d : Dict ℕ V) → erase k (erase j d) ≡ erase j (erase k d)
  unfolding erase
  erase_comm k j [] = refl
  erase_comm k j ((i, w) ∷ d) = ground (arith, erase_comm k j d)

  contains-erase : (k j : ℕ) (d : Dict ℕ V) → contains k d ≡ false → contains k (erase j d) ≡ false
  unfolding contains
  contains-erase k j d h = ground (arith, lookup-erase j k d)

erase-IsKeyed : (k : ℕ) (t : Table) → IsKeyed t → IsKeyed (erase k t)
unfolding erase
erase-IsKeyed k [] h = tt
erase-IsKeyed k ((j, r) ∷ t) (new, h) = elim (Bool-cases (j == k)) [
  | inl same ↦ rw (same) (erase-IsKeyed k t h)
  | inr apart ↦ rw (apart) (contains-erase j k t new, erase-IsKeyed k t h)
]

kept-cons :
    (id : ℕ) (r : Row) (t u : Table)
    → (kept_fills t).0 ≡ (kept_fills u).0
    → (kept_fills ((id, r) ∷ t)).0 ≡ (kept_fills ((id, r) ∷ u)).0
unfolding kept_fills
kept-cons id r t u h = ground (arith, h)

kept-skip :
    (id : ℕ) (r : Row) (t : Table)
    → is_excluded r ≡ true
    → (kept_fills ((id, r) ∷ t)).0 ≡ (kept_fills t).0
unfolding kept_fills
kept-skip id r t h = ground (arith, h)

-- An excluded row counts as much as none.
kept-insert :
    (k : ℕ) (r : Row) (t : Table)
    → is_excluded r ≡ true
    → IsKeyed t
    → (kept_fills (insert k r t)).0 ≡ (kept_fills (erase k t)).0
unfolding insert erase
kept-insert k r [] h keyed = kept-skip k r [] h
kept-insert k r ((j, q) ∷ t) h (new, keyed) = elim (Bool-cases (j == k)) [
  | inl same ↦ rw same (
      kept-skip j r t h
      ∙ ap (λ u. (kept_fills u).0) (sym (erase-new k t (ground (arith, nat_eq.same_iff j k)))))
  | inr apart ↦ rw apart (kept-cons j q (insert k r t) (erase k t) (kept-insert k r t h keyed))
]

-- So it does where other rows are gone as well.
kept-without :
    (ids : List ℕ) (k : ℕ) (r : Row) (t : Table)
    → is_excluded r ≡ true
    → IsKeyed t
    → (kept_fills (without ids (insert k r t))).0 ≡ (kept_fills (without ids (erase k t))).0
unfolding without
kept-without [] k r t h keyed = kept-insert k r t h keyed
kept-without (j ∷ ids) k r t h keyed = elim (Bool-cases (j == k)) [
  | inl same ↦
      ap (λ u. (kept_fills (without ids u)).0)
        (rw ((nat_eq.same_iff j k).0 same) (erase-insert_self k r t ∙ sym (erase-twice k t)))
  | inr apart ↦
      ap (λ u. (kept_fills (without ids u)).0) (erase-insert_ne j k r t apart)
      ∙ kept-without ids k r (erase j t) h (erase-IsKeyed j t keyed)
      ∙ ap (λ u. (kept_fills (without ids u)).0) (erase_comm k j t)
]

contains-insert :
    (i k : ℕ) (r : Row) (t : Table) → (k == i) ≡ false → contains i (insert k r t) ≡ contains i t
unfolding contains
contains-insert i k r t h = ground (arith, lookup-insert k i r t)

insert-IsKeyed : (k : ℕ) (r : Row) (t : Table) → IsKeyed t → IsKeyed (insert k r t)
unfolding insert contains lookup
insert-IsKeyed k r [] h = (refl, tt)
insert-IsKeyed k r ((j, q) ∷ t) (new, h) = elim (Bool-cases (j == k)) [
  | inl same ↦ rw same (new, h)
  | inr apart ↦ rw apart (
    contains-insert j k r t (ground (arith, nat_eq.same_iff j k, nat_eq.same_iff k j)) ∙ new,
    insert-IsKeyed k r t h,
  )
]

-- An annotation changes no event's type.
annotate-AllFills :
    (ids : List ℕ) (excluded : Bool) (reason : Json) (k : ℕ) (r : Row) (t : Table)
    → lookup k t ≡ some r
    → AllFills t ids
    → AllFills (insert k (annotate_row excluded reason r) t) ids
unfolding annotate_row
annotate-AllFills [] excluded reason k r t found h = tt
annotate-AllFills (id ∷ ids) excluded reason k r t found ((q, there, filled), h) = (
  elim (Bool-cases (k == id)) [
    | inl same ↦ (
      annotate_row excluded reason r,
      ground (arith, lookup-insert k id (annotate_row excluded reason r) t),
      ground (arith, nat_eq.same_iff k id),
    )
    | inr apart ↦ (q, ground (arith, lookup-insert k id (annotate_row excluded reason r) t), filled)
  ],
  annotate-AllFills ids excluded reason k r t found h,
)

excludes :
    (ids : List ℕ) (reason : Json) (n : ℕ) (t : Table)
    → IsKeyed t
    → AllFills t ids
    → (u : Table) × (set_fill_exclusion ids true reason n t ≡ (inr (n + length ids), u))
      × ((kept_fills u).0 ≡ (kept_fills (without ids t)).0)
unfolding set_fill_exclusion without
excludes [] reason n t keyed h = (t, ap (λ m. (inr m, t)) (omega arith), refl)
excludes (id ∷ ids) reason n t keyed ((r, there, filled), h) =
    let marked = annotate_row true reason r in
    let (u, returned, kept) =
      excludes ids reason (suc n) (insert id marked t) (insert-IsKeyed id marked t keyed)
        (annotate-AllFills ids true reason id r t there h) in
    (
      u,
      rw (set_fill_exclusion, there, filled, returned) (ap (λ m. (inr m, u)) (omega arith)),
      kept ∙ kept-without ids id marked t (annotate-excludes reason r) keyed,
    )

balances-kept :
    (is_today : ℕ → Bool) (t u : Table)
    → (kept_fills t).0 ≡ (kept_fills u).0
    → balances (realized_pnl_by_strategy is_today t)
      ≡ balances (realized_pnl_by_strategy is_today u)
unfolding realized_pnl_by_strategy
balances-kept is_today t u h = elim (Option-cases (pair_fills_long_only (kept_fills u).0)) [
  | inl raises ↦ rw (realized_pnl_by_strategy, h, raises) refl
  | inr (p, paired) ↦ rw (realized_pnl_by_strategy, h, paired) refl
]

-- Excluding fills, each of them an ORDER_FILLED row of a keyed table, updates as many rows as ids are
-- given, raises nothing, and leaves the profits and losses, the closed trades and the unmatched sells that
-- the table without those rows has.
pub set_fill_exclusion-without :
    (is_today : ℕ → Bool) (ids : List ℕ) (reason : Json) (t : Table)
    → IsKeyed t
    → AllFills t ids
    → (u : Table) × (set_fill_exclusion ids true reason 0 t ≡ (inr (length ids), u))
      × (balances (realized_pnl_by_strategy is_today u)
          ≡ balances (realized_pnl_by_strategy is_today (without ids t)))
set_fill_exclusion-without is_today ids reason t keyed h =
    let (u, returned, kept) = excludes ids reason 0 t keyed h in
    (
      u,
      returned ∙ ap (λ m. (inr m, u)) (omega arith),
      balances-kept is_today u (without ids t) kept,
    )
