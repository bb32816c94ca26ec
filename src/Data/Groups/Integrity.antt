-- ===== src/Data/Groups/Integrity.antt =====
-- Histories of calls of the group store, and what holds of its tables.
use openwallstreet.Prelude.{
  ℕ, ℤ, inl, inr, not, Option, String, string_eq, List, [], ◌∷◌, ◌++◌, filter, Bool-cases,
  Option-cases, lookup, contains,
}
use openwallstreet.Float.{Float}
use openwallstreet.Data.Groups.{
  Group, Member, Groups, is_member, has_member, create_group, delete_group, on_group, update_group,
  touch, add_member, remove_member,
}
use openwallstreet.Data.Groups.Rows.{
  IsKeyed, NoTwice, NoOrphan, insert-IsKeyed, erase-IsKeyed, insert-NoOrphan, filter-NoTwice,
  filter-NoOrphan, erase-NoOrphan, append-NoTwice, append-NoOrphan,
}

-- The calls that change the tables.
pub data Op : Type 0 where
  create : String → String → Float → ℤ → Op
  delete : String → Op
  update : String → Option String → Option Float → Option ℤ → Op
  add remove : String → String → Op

unfoldable pub apply : ℕ → Op → Groups → Groups
apply now (create name description pct limit) s = (create_group now name description pct limit s).1
apply now (delete name) s = (delete_group name s).1
apply now (update name description pct limit) s = (update_group now name description pct limit s).1
apply now (add name symbol) s = (add_member now name symbol s).1
apply now (remove name symbol) s = (remove_member now name symbol s).1

-- Calls with the clock's readings, in order.
unfoldable pub run : List (ℕ × Op) → Groups → Groups
unfolding apply
run [] s = s
run ((now, op) ∷ ops) s = run ops (apply now op s)

pub record IsSound (s : Groups) : Type 0 where
  pub keyed : IsKeyed s.groups
  pub no_twice : NoTwice s.members
  pub no_orphan : NoOrphan s.groups s.members

on_group-IsSound :
    (k : String) (f : Group → Group) (s : Groups) → IsSound s → IsSound (on_group k f s)
unfolding on_group
on_group-IsSound k f s h = elim (Option-cases (lookup k s.groups)) [
  | inl missing ↦ rw (on_group, missing) h
  | inr (g, found) ↦
      rw (on_group, found)
        (record {
          keyed = insert-IsKeyed k (f g) s.groups h.keyed;
          no_twice = h.no_twice;
          no_orphan = insert-NoOrphan k (f g) s.groups s.members h.no_orphan;
        })
]

create-IsSound :
    (now : ℕ) (name description : String) (pct : Float) (limit : ℤ) (s : Groups)
    → IsSound s
    → IsSound (create_group now name description pct limit s).1
unfolding create_group
create-IsSound now name description pct limit s h = elim (Bool-cases (contains name s.groups)) [
  | inl taken ↦ rw (create_group, taken) h
  | inr free ↦
      rw (create_group, free)
        (record {
          keyed = insert-IsKeyed name _ s.groups h.keyed;
          no_twice = h.no_twice;
          no_orphan = insert-NoOrphan name _ s.groups s.members h.no_orphan;
        })
]

delete-IsSound : (name : String) (s : Groups) → IsSound s → IsSound (delete_group name s).1
unfolding delete_group
delete-IsSound name s h = elim (Bool-cases (contains name s.groups)) [
  | inr missing ↦ rw (delete_group, missing) h
  | inl found ↦
      rw (delete_group, found)
        (record {
          keyed = erase-IsKeyed name s.groups h.keyed;
          no_twice = filter-NoTwice _ s.members h.no_twice;
          no_orphan = erase-NoOrphan name s.groups s.members h.no_orphan;
        })
]

add-IsSound :
    (now : ℕ) (name symbol : String) (s : Groups)
    → IsSound s
    → IsSound (add_member now name symbol s).1
unfolding add_member
add-IsSound now name symbol s h = elim (Bool-cases (contains name s.groups)) [
  | inr missing ↦ rw (add_member, missing) h
  | inl found ↦ elim (Bool-cases (has_member name symbol s)) [
    | inl twice ↦ rw (add_member, found, twice) h
    | inr fresh ↦
        let m : Member = record { group_name = name; symbol = symbol; added_at = now } in
        rw (add_member, found, fresh)
          (on_group-IsSound name (touch now) (record s { members = s.members ++ (m ∷ []) })
            (record {
              keyed = h.keyed;
              no_twice = append-NoTwice s.members m fresh h.no_twice;
              no_orphan = append-NoOrphan s.groups s.members m found h.no_orphan;
            }))
  ]
]

remove-IsSound :
    (now : ℕ) (name symbol : String) (s : Groups)
    → IsSound s
    → IsSound (remove_member now name symbol s).1
unfolding remove_member
remove-IsSound now name symbol s h = elim (Bool-cases (has_member name symbol s)) [
  | inr missing ↦ rw (remove_member, missing) h
  | inl found ↦
      let left = filter (λ m. not (is_member name symbol m)) s.members in
      rw (remove_member, found)
        (on_group-IsSound name (touch now) (record s { members = left })
          (record {
            keyed = h.keyed;
            no_twice = filter-NoTwice _ s.members h.no_twice;
            no_orphan = filter-NoOrphan _ s.groups s.members h.no_orphan;
          }))
]

apply-IsSound : (now : ℕ) (op : Op) (s : Groups) → IsSound s → IsSound (apply now op s)
unfolding apply update_group
apply-IsSound now (create name description pct limit) s h =
    create-IsSound now name description pct limit s h
apply-IsSound now (delete name) s h = delete-IsSound name s h
apply-IsSound now (update name description pct limit) s h = on_group-IsSound name _ s h
apply-IsSound now (add name symbol) s h = add-IsSound now name symbol s h
apply-IsSound now (remove name symbol) s h = remove-IsSound now name symbol s h

run-keeps : (ops : List (ℕ × Op)) (s : Groups) → IsSound s → IsSound (run ops s)
unfolding run
run-keeps [] s h = h
run-keeps ((now, op) ∷ ops) s h = run-keeps ops (apply now op s) (apply-IsSound now op s h)

-- Whatever calls are made on empty tables, in any order and also where they are refused: no group name
-- stands twice, no symbol stands twice in a group, and every member's group exists.
pub run-IsSound : (ops : List (ℕ × Op)) → IsSound (run ops (record { groups = []; members = [] }))
run-IsSound ops = run-keeps ops _ (record { keyed = tt; no_twice = tt; no_orphan = tt })
