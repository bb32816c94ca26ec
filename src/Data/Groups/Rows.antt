-- ===== src/Data/Groups/Rows.antt =====
-- The rows of the two tables: keys, and references between them.
use openwallstreet.Prelude.{
  ◌≡◌, inl, inr, refl, ◌∙◌, arith, Bool, true, false, not, ◌&&◌, ◌||◌, String, ◌==◌, string_eq,
  List, [], ◌∷◌, ◌++◌, any, filter, Bool-cases, Dict, lookup, insert, erase, contains,
  lookup-insert, lookup-erase,
}
use openwallstreet.Data.Groups.{Group, Member, is_member}

-- No name stands twice.
abbrev pub IsKeyed : Dict String Group → Type 0
IsKeyed [] = Unit
IsKeyed ((name, g) ∷ rest) = (contains name rest ≡ false) × IsKeyed rest

-- No symbol stands twice in a group.
abbrev pub NoTwice : List Member → Type 0
NoTwice [] = Unit
NoTwice (m ∷ ms) = (any (is_member m.group_name m.symbol) ms ≡ false) × NoTwice ms

-- Every member's group exists.
abbrev pub NoOrphan : Dict String Group → List Member → Type 0
NoOrphan groups [] = Unit
NoOrphan groups (m ∷ ms) = (contains m.group_name groups ≡ true) × NoOrphan groups ms

contains-insert :
    (j k : String) (g : Group) (d : Dict String Group)
    → contains j (insert k g d) ≡ (k == j || contains j d)
unfolding contains
contains-insert j k g d = ground (arith, lookup-insert k j g d)

contains-erase :
    (j k : String) (d : Dict String Group) → contains j (erase k d) ≡ (not (k == j) && contains j d)
unfolding contains
contains-erase j k d = ground (arith, lookup-erase k j d)

pub insert-IsKeyed :
    (k : String) (g : Group) (d : Dict String Group) → IsKeyed d → IsKeyed (insert k g d)
unfolding insert contains lookup
insert-IsKeyed k g [] h = (refl, tt)
insert-IsKeyed k g ((j, q) ∷ d) (new, h) = elim (Bool-cases (j == k)) [
  | inl same ↦ rw same (new, h)
  | inr apart ↦ rw apart (
    contains-insert j k g d ∙ ground (arith, string_eq.same_iff j k, string_eq.same_iff k j),
    insert-IsKeyed k g d h,
  )
]

pub erase-IsKeyed : (k : String) (d : Dict String Group) → IsKeyed d → IsKeyed (erase k d)
unfolding erase
erase-IsKeyed k [] h = tt
erase-IsKeyed k ((j, q) ∷ d) (new, h) = elim (Bool-cases (j == k)) [
  | inl same ↦ rw same (erase-IsKeyed k d h)
  | inr apart ↦ rw apart (ground (arith, contains-erase j k d), erase-IsKeyed k d h)
]

pub insert-NoOrphan :
    (k : String) (g : Group) (d : Dict String Group) (ms : List Member)
    → NoOrphan d ms
    → NoOrphan (insert k g d) ms
insert-NoOrphan k g d [] h = tt
insert-NoOrphan k g d (m ∷ ms) (here, h) =
    (ground (arith, contains-insert m.group_name k g d), insert-NoOrphan k g d ms h)

any-filter :
    {A : Type 0} (p q : A → Bool) (xs : List A) → any p xs ≡ false → any p (filter q xs) ≡ false
any-filter p q [] h = refl
any-filter p q (x ∷ xs) h = ground (arith, any-filter p q xs)

pub filter-NoTwice : (q : Member → Bool) (ms : List Member) → NoTwice ms → NoTwice (filter q ms)
filter-NoTwice q [] h = tt
filter-NoTwice q (m ∷ ms) (new, h) = elim (Bool-cases (q m)) [
  | inl kept ↦
      rw kept (any-filter (is_member m.group_name m.symbol) q ms new, filter-NoTwice q ms h)
  | inr dropped ↦ rw dropped (filter-NoTwice q ms h)
]

pub filter-NoOrphan :
    (q : Member → Bool) (d : Dict String Group) (ms : List Member)
    → NoOrphan d ms
    → NoOrphan d (filter q ms)
filter-NoOrphan q d [] h = tt
filter-NoOrphan q d (m ∷ ms) (here, h) = elim (Bool-cases (q m)) [
  | inl kept ↦ rw kept (here, filter-NoOrphan q d ms h)
  | inr dropped ↦ rw dropped (filter-NoOrphan q d ms h)
]

-- The members of other groups than the one that goes.
pub erase-NoOrphan :
    (k : String) (d : Dict String Group) (ms : List Member)
    → NoOrphan d ms
    → NoOrphan (erase k d) (filter (λ m. not (m.group_name == k)) ms)
erase-NoOrphan k d [] h = tt
erase-NoOrphan k d (m ∷ ms) (here, h) = elim (Bool-cases (m.group_name == k)) [
  | inl same ↦ rw same (erase-NoOrphan k d ms h)
  | inr apart ↦ rw apart (
    ground (
      arith,
      contains-erase m.group_name k d,
      string_eq.same_iff m.group_name k,
      string_eq.same_iff k m.group_name,
    ),
    erase-NoOrphan k d ms h,
  )
]

any-append :
    {A : Type 0} (p : A → Bool) (xs : List A) (y : A) → any p (xs ++ (y ∷ [])) ≡ (any p xs || p y)
any-append p [] y = ground arith
any-append p (x ∷ xs) y = ground (arith, any-append p xs y)

is_member-swap :
    (m x : Member) → is_member m.group_name m.symbol x ≡ is_member x.group_name x.symbol m
is_member-swap m x = ground (
  arith,
  string_eq.same_iff m.group_name x.group_name,
  string_eq.same_iff x.group_name m.group_name,
  string_eq.same_iff m.symbol x.symbol,
  string_eq.same_iff x.symbol m.symbol,
)

pub append-NoTwice :
    (ms : List Member) (m : Member)
    → any (is_member m.group_name m.symbol) ms ≡ false
    → NoTwice ms
    → NoTwice (ms ++ (m ∷ []))
append-NoTwice [] m new h = (refl, tt)
append-NoTwice (x ∷ ms) m new (first, h) = (
  any-append (is_member x.group_name x.symbol) ms m
      ∙ ground (arith, first, new, is_member-swap m x),
  append-NoTwice ms m (ground arith) h,
)

pub append-NoOrphan :
    (d : Dict String Group) (ms : List Member) (m : Member)
    → contains m.group_name d ≡ true
    → NoOrphan d ms
    → NoOrphan d (ms ++ (m ∷ []))
append-NoOrphan d [] m here h = (here, tt)
append-NoOrphan d (x ∷ ms) m here (first, h) = (first, append-NoOrphan d ms m here h)
