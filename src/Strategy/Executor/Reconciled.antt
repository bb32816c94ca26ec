-- ===== src/Strategy/Executor/Reconciled.antt =====
-- What the first reconciliation makes of the positions.
use openwallstreet.Prelude.{
  ℕ, ◌≡◌, ◌⊎◌, inl, inr, refl, sym, ap, ◌∙◌, subst, arith, Bool, true, false, ◌&&◌, Option, none,
  some, ◌==◌, same_refl, List, [], ◌∷◌, map, any, if◌then◌else◌, Bool-cases, eqb,
}
use openwallstreet.Float
use openwallstreet.Float.{Float, zero_float}
use openwallstreet.Data.Ledger.{Key, key_eq}
use openwallstreet.Strategy.State.{
  Position, closed_externally, is_open, is_open_at, update_open, set_protective, record_close,
  all_open,
}
use openwallstreet.Strategy.Sdk.{Holding, Answers, broker_quantity, empty_broker_grace_seconds}
use openwallstreet.Strategy.Stops.{Executor, cancel_protective, load_open_view}
use openwallstreet.Strategy.Close.{tracked_of}
use openwallstreet.Strategy.Executor.{
  close_absent, close_all_absent, reconcile_rows, reconcile_read, reconcile_open, reconcile_once,
}

-- The broker does not hold a position of this conid.
abbrev pub is_absent : List Holding → Key → Bool
is_absent hs k = Float.le (broker_quantity k.1 hs) zero_float

abbrev pub close_externally : Position → Position
close_externally p = record p { status = closed_externally; close_proposal_id = none }

-- An open row that the broker does not hold is closed, and every other stays as it is.
abbrev pub settled : List Holding → Position → Position
settled hs p = if is_open p.status && is_absent hs p.key then close_externally p else p

-- The rows of some keys only.
abbrev settled_of : List Holding → List Position → Position → Position
settled_of hs ps q =
    if is_open q.status && (is_absent hs q.key && any (λ (p : Position). q.key == p.key) ps)
    then close_externally q
    else q

set_protective-gone :
    (k : Key) (o : Option ℕ) (rows : List Position)
    → set_protective k o (record_close k closed_externally none rows)
      ≡ record_close k closed_externally none rows
unfolding set_protective record_close update_open
set_protective-gone k o [] = refl
set_protective-gone k o (p ∷ ps) = elim (Bool-cases (is_open_at k p)) [
  | inl here ↦ ground (arith, here, set_protective-gone k o ps)
  | inr other ↦ ground (arith, other, set_protective-gone k o ps)
]

close_absent-rows :
    (hs : List Holding) (p : Position) (s : Executor)
    → (close_absent hs p s).rows
      ≡ (if is_absent hs p.key then record_close p.key closed_externally none s.rows else s.rows)
unfolding close_absent cancel_protective
close_absent-rows hs p s = elim (Bool-cases (is_absent hs p.key)) [
  | inr there ↦ rw there refl
  | inl absent ↦ rw absent (elim (Bool-cases (eqb (tracked_of (some p)) 0)) [
    | inl untracked ↦ rw untracked refl
    | inr tracked ↦ rw tracked (set_protective-gone p.key none s.rows)
  ])
]

settled_of-step :
    (hs : List Holding) (p : Position) (ps : List Position) (q : Position)
    → settled_of hs ps (if is_absent hs p.key && is_open_at p.key q then close_externally q else q)
      ≡ settled_of hs (p ∷ ps) q
settled_of-step hs p ps q = elim (Bool-cases (q.key == p.key)) [
  | inr apart ↦ elim (Bool-cases (is_absent hs p.key)) [
    | inl absent ↦ rw (apart, absent) refl
    | inr there ↦ rw (apart, there) refl
  ]
  | inl same ↦
      let keys : is_absent hs q.key ≡ is_absent hs p.key =
        ap (is_absent hs) ((key_eq.same_iff q.key p.key).0 same) in
      elim (Bool-cases (is_absent hs p.key)) [
        | inr there ↦ ground (arith, same, keys, there)
        | inl absent ↦ elim (Bool-cases (is_open q.status)) [
          | inr over ↦ ground (arith, same, keys, absent, over)
          | inl live ↦ ground (arith, same, keys, absent, live)
        ]
      ]
]

-- One more key on top of the settlement of some.
map-settled_of :
    (hs : List Holding) (p : Position) (ps rows : List Position)
    → map
        (settled_of hs ps)
        (if is_absent hs p.key then record_close p.key closed_externally none rows else rows)
      ≡ map (settled_of hs (p ∷ ps)) rows
unfolding record_close update_open
map-settled_of hs p ps [] = ground arith
map-settled_of hs p ps (q ∷ qs) = elim (Bool-cases (is_absent hs p.key)) [
  | inl absent ↦ ground (arith, absent, settled_of-step hs p ps q, map-settled_of hs p ps qs)
  | inr there ↦ ground (arith, there, settled_of-step hs p ps q, map-settled_of hs p ps qs)
]

map-same :
    (f : Position → Position) → ((p : Position) → f p ≡ p) → (ps : List Position) → map f ps ≡ ps
map-same f h [] = refl
map-same f h (p ∷ ps) = rw (h p, map-same f h ps) refl

close_all_absent-rows :
    (hs : List Holding) (ps : List Position) (s : Executor)
    → (close_all_absent hs ps s).rows ≡ map (settled_of hs ps) s.rows
unfolding close_all_absent
close_all_absent-rows hs [] s = sym (map-same (settled_of hs []) (λ p. ground arith) s.rows)
close_all_absent-rows hs (p ∷ ps) s =
    close_all_absent-rows hs ps (close_absent hs p s)
    ∙ ap (map (settled_of hs ps)) (close_absent-rows hs p s)
    ∙ map-settled_of hs p ps s.rows

-- The keys of the open rows stand among those of a list.
abbrev Covers : List Position → List Position → Type 0
Covers ps [] = Unit
Covers ps (q ∷ qs) =
    ((is_open q.status ≡ false) ⊎ (any (λ (p : Position). q.key == p.key) ps ≡ true)) × Covers ps qs

Covers-more : (p : Position) (ps qs : List Position) → Covers ps qs → Covers (p ∷ ps) qs
Covers-more p ps [] h = tt
Covers-more p ps (q ∷ qs) (inl over, h) = (inl over, Covers-more p ps qs h)
Covers-more p ps (q ∷ qs) (inr found, h) = (inr (ground (arith, found)), Covers-more p ps qs h)

Covers-all_open : (qs : List Position) → Covers (all_open qs) qs
unfolding all_open
Covers-all_open [] = tt
Covers-all_open (q ∷ qs) = elim (Bool-cases (is_open q.status)) [
  | inr over ↦
      let skipped : all_open (q ∷ qs) ≡ all_open qs = ground (arith, over) in
      subst (λ os. Covers os (q ∷ qs)) (sym skipped) (inl over, Covers-all_open qs)
  | inl live ↦
      let kept : all_open (q ∷ qs) ≡ q ∷ all_open qs = ground (arith, live) in
      let own : any (λ (p : Position). q.key == p.key) (q ∷ all_open qs) ≡ true =
        ground (arith, same_refl q.key) in
      subst (λ os. Covers os (q ∷ qs)) (sym kept)
        (inr own, Covers-more q (all_open qs) qs (Covers-all_open qs))
]

map-Covers :
    (hs : List Holding) (ps qs : List Position)
    → Covers ps qs
    → map (settled_of hs ps) qs ≡ map (settled hs) qs
map-Covers hs ps [] h = refl
map-Covers hs ps (q ∷ qs) (inl over, h) = ground (arith, over, map-Covers hs ps qs h)
map-Covers hs ps (q ∷ qs) (inr found, h) = ground (arith, found, map-Covers hs ps qs h)

reconcile_rows-rows :
    (hs : List Holding) (s : Executor) → (reconcile_rows hs s).rows ≡ map (settled hs) s.rows
unfolding reconcile_rows load_open_view
reconcile_rows-rows hs s =
    close_all_absent-rows hs (all_open s.rows) s
    ∙ map-Covers hs (all_open s.rows) s.rows (Covers-all_open s.rows)

-- The first reconciliation with positions at the broker closes exactly the open rows whose conid the broker
-- does not hold, and changes no other row.
pub reconcile_once-settled :
    (a : Answers) (s : Executor) (p : Position) (ps : List Position) (h : Holding)
    (hs : List Holding)
    → s.reconciled ≡ false
    → all_open s.rows ≡ p ∷ ps
    → a.reconcile_holdings ≡ some (h ∷ hs)
    → (reconcile_once a s).rows ≡ map (settled (h ∷ hs)) s.rows
unfolding reconcile_once reconcile_open reconcile_read
reconcile_once-settled a s p ps h hs first some_open read =
    ap (λ (b : Bool). (if b then s else reconcile_open a (all_open s.rows) s).rows) first
    ∙ ap (λ (os : List Position). (reconcile_open a os s).rows) some_open
    ∙ ap (λ (o : Option (List Holding)). (reconcile_read a o s).rows) read
    ∙ reconcile_rows-rows (h ∷ hs) (record s { first_empty_broker_read = none })

-- The reconciliations of some items of the queue, one after the other.
unfoldable pub reconcile_all : List Answers → Executor → Executor
reconcile_all [] s = s
reconcile_all (a ∷ rest) s = reconcile_all rest (reconcile_once a s)

-- Every reading is empty, and taken before the time of grace from `first` on is over.
abbrev pub AllEarly : Float → List Answers → Type 0
AllEarly first [] = Unit
AllEarly first (a ∷ rest) =
    (a.reconcile_holdings ≡ some [])
    × (Float.lt (Float.sub a.reconcile_clock first) (empty_broker_grace_seconds a) ≡ true)
    × AllEarly first rest
