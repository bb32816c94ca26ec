-- ===== src/Strategy/State/Rows.antt =====
-- How many rows of a key are open, and what each statement does to that number.
use openwallstreet.Prelude.{
  ℕ, suc, ◌+◌, ◌≤◌, ◌≡◌, inl, inr, refl, ap, ◌∙◌, subst, arith, true, false, Option, none, ◌==◌,
  List, [], ◌∷◌, ◌++◌, if◌then◌else◌, Bool-cases, ℤ,
}
use openwallstreet.Float.{Float}
use openwallstreet.Data.Ledger.{Key, key_eq}
use openwallstreet.Strategy.State.{
  Status, unknown, Position, is_open, is_open_at, open_position, update_open, set_protective,
  record_open, record_add, record_close,
}

unfoldable pub opens_at : Key → List Position → ℕ
opens_at k [] = 0
opens_at k (p ∷ ps) = let rest = opens_at k ps in if is_open_at k p then suc rest else rest

-- No key gains an open row.
abbrev pub Fewer : List Position → List Position → Type 0
Fewer rows rows' = (j : Key) → opens_at j rows' ≤ opens_at j rows

-- A change of an open row that keeps its key.
abbrev KeepsKey : (Position → Position) → Type 0
KeepsKey f = (p : Position) → (f p).key ≡ p.key

is_open_at-kept :
    (j k : Key) (p q : Position)
    → is_open_at k p ≡ true
    → q.key ≡ p.key
    → is_open_at j q ≡ true
    → is_open_at j p ≡ true
is_open_at-kept j k p q here same h =
    let found : (q.key == j) ≡ true = ground arith in
    ground (arith, ap (λ (x : Key). x == j) same, found)

pub update_open-Fewer :
    (k : Key) (f : Position → Position) (rows : List Position)
    → KeepsKey f
    → Fewer rows (update_open k f rows)
unfolding update_open opens_at
update_open-Fewer k f [] keeps j = omega arith
update_open-Fewer k f (p ∷ ps) keeps j = elim (Bool-cases (is_open_at k p)) [
  | inr other ↦ rw other (ground (arith, update_open-Fewer k f ps keeps j))
  | inl here ↦ rw here (elim (Bool-cases (is_open_at j (f p))) [
    | inr gone ↦ rw gone (ground (arith, update_open-Fewer k f ps keeps j))
    | inl stays ↦
        rw (stays, is_open_at-kept j k p (f p) here (keeps p) stays)
          (omega (arith, update_open-Fewer k f ps keeps j))
  ])
]

pub set_protective-Fewer :
    (k : Key) (o : Option ℕ) (rows : List Position) → Fewer rows (set_protective k o rows)
unfolding set_protective
set_protective-Fewer k o rows = update_open-Fewer k _ rows (λ p. refl)

pub record_close-Fewer :
    (k : Key) (st : Status) (o : Option ℕ) (rows : List Position)
    → Fewer rows (record_close k st o rows)
unfolding record_close
record_close-Fewer k st o rows = update_open-Fewer k _ rows (λ p. refl)

pub record_add-Fewer :
    (k : Key) (q : Float) (bar n : ℕ) (t : Option ℕ) (m : Option ℤ) (rows : List Position)
    → Fewer rows (record_add k q bar n t m rows)
unfolding record_add
record_add-Fewer k q bar n t m rows = update_open-Fewer k _ rows (λ p. refl)

-- A closing statement leaves no open row of its key.
pub record_close-none :
    (k : Key) (st : Status) (o : Option ℕ) (rows : List Position)
    → is_open st ≡ false
    → open_position k (record_close k st o rows) ≡ none
unfolding record_close update_open open_position
record_close-none k st o [] h = refl
record_close-none k st o (p ∷ ps) h = elim (Bool-cases (is_open_at k p)) [
  | inl here ↦ ground (arith, here, h, record_close-none k st o ps h)
  | inr other ↦ ground (arith, other, record_close-none k st o ps h)
]

pub opens_at-none :
    (k : Key) (rows : List Position) → open_position k rows ≡ none → opens_at k rows ≡ 0
unfolding open_position opens_at
opens_at-none k [] h = refl
opens_at-none k (p ∷ ps) h = ground (arith, opens_at-none k ps)

opens_at-append :
    (k : Key) (rows : List Position) (p : Position)
    → opens_at k (rows ++ (p ∷ [])) ≡ opens_at k rows + (if is_open_at k p then 1 else 0)
unfolding opens_at
opens_at-append k [] p = ground arith
opens_at-append k (q ∷ qs) p = ground (arith, opens_at-append k qs p)

pub opens_at-record_open :
    (j k : Key) (q : Float) (bar n : ℕ) (t : Option ℕ) (m : Option ℤ) (rows : List Position)
    → opens_at j (record_open k q bar n t m rows) ≡ opens_at j rows + (if k == j then 1 else 0)
unfolding record_open
opens_at-record_open j k q bar n t m rows = opens_at-append j rows _ ∙ ground arith

-- At most one row of each key is open.
abbrev pub OneOpen : List Position → Type 0
OneOpen rows = (j : Key) → opens_at j rows ≤ 1

pub Fewer-OneOpen : (rows rows' : List Position) → Fewer rows rows' → OneOpen rows → OneOpen rows'
Fewer-OneOpen rows rows' h one j = omega (arith, h j, one j)

pub Fewer-trans : (a b c : List Position) → Fewer a b → Fewer b c → Fewer a c
Fewer-trans a b c h k j = omega (arith, h j, k j)

pub record_open-OneOpen :
    (k : Key) (q : Float) (bar n : ℕ) (t : Option ℕ) (m : Option ℤ) (rows : List Position)
    → open_position k rows ≡ none
    → OneOpen rows
    → OneOpen (record_open k q bar n t m rows)
record_open-OneOpen k q bar n t m rows free one j = elim (Bool-cases (k == j)) [
  | inl same ↦
      let e : opens_at j rows ≡ 0 =
        subst (λ x. opens_at x rows ≡ 0) ((key_eq.same_iff k j).0 same)
          (opens_at-none k rows free) in
      ground (arith, opens_at-record_open j k q bar n t m rows, same, e)
  | inr apart ↦ ground (arith, opens_at-record_open j k q bar n t m rows, apart, one j)
]

-- A row that is recorded and closed at once.
pub record_unknown-Fewer :
    (k : Key) (q : Float) (bar n : ℕ) (t : Option ℕ) (m : Option ℤ) (rows : List Position)
    → Fewer rows (record_close k unknown none (record_open k q bar n t m rows))
record_unknown-Fewer k q bar n t m rows j = elim (Bool-cases (k == j)) [
  | inl same ↦
      let e =
        opens_at-none k _
          (record_close-none k unknown none (record_open k q bar n t m rows) refl) in
      let e' =
        subst (λ x. opens_at x (record_close k unknown none (record_open k q bar n t m rows)) ≡ 0)
          ((key_eq.same_iff k j).0 same) e in
      omega (arith, e')
  | inr apart ↦ ground (
    arith,
    record_close-Fewer k unknown none (record_open k q bar n t m rows) j,
    opens_at-record_open j k q bar n t m rows,
    apart,
  )
]
