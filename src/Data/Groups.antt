-- ===== src/Data/Groups.antt =====
-- trader/data/position_groups.py. The two tables are lists of rows, and each method is one atomic
-- operation on them (`execute_atomic`), but for `update_group`, which reads the group again afterwards;
-- `now` is the clock's reading.
pub mod Rows
pub mod Integrity
use openwallstreet.Prelude.{
  ℕ, ℤ, Bool, true, false, not, ◌&&◌, Option, none, some, String, KeyEq, ◌==◌, string_eq, List, [],
  ◌∷◌, ◌++◌, map, filter, any, if◌then◌else◌, Dict, lookup, insert, erase, contains, get_or,
  sort_by,
}
use openwallstreet.Float.{Float}

-- A row of `position_groups`, by name.
pub record Group : Type 0 where
  pub description : String
  pub max_allocation_pct : Float
  pub max_positions : ℤ
  pub created_at : ℕ
  pub updated_at : ℕ

-- A row of `position_group_members`.
pub record Member : Type 0 where
  pub group_name : String
  pub symbol : String
  pub added_at : ℕ

pub record Groups : Type 0 where
  pub groups : Dict String Group
  pub members : List Member

-- A `PositionGroup`, with its members.
pub record PositionGroup : Type 0 where
  pub name : String
  pub group : Group
  pub members : List String

-- `WHERE group_name = ? AND symbol = ?`
abbrev pub is_member : String → String → Member → Bool
is_member name symbol m = m.group_name == name && m.symbol == symbol

abbrev pub has_member : String → String → Groups → Bool
has_member name symbol s = any (is_member name symbol) s.members

-- none is the ValueError of a name that is taken.
unfoldable pub create_group :
    ℕ → String → String → Float → ℤ → Groups → Option PositionGroup × Groups
create_group now name description max_allocation_pct max_positions s =
    if contains name s.groups
    then (none, s)
    else let group : Group = record {
      description = description;
      max_allocation_pct = max_allocation_pct;
      max_positions = max_positions;
      created_at = now;
      updated_at = now;
    } in
      (
        some (record { name = name; group = group; members = [] }),
        record s { groups = insert name group s.groups },
      )

unfoldable pub delete_group : String → Groups → Bool × Groups
delete_group name s = if not (contains name s.groups) then (false, s) else (
  true,
  record {
    groups = erase name s.groups;
    members = filter (λ m. not (m.group_name == name)) s.members;
  },
)

-- `get_members`
unfoldable pub get_members : String → Groups → List String
get_members name s =
    sort_by (λ x. x) (map (λ (m : Member). m.symbol) (filter (λ m. m.group_name == name) s.members))

unfoldable pub get_group : String → Groups → Option PositionGroup
unfolding get_members
get_group name s = elim (lookup name s.groups) [
  | none ↦ none
  | some g ↦ some (record { name = name; group = g; members = get_members name s })
]

abbrev keep {ℓ} : {A : Type ℓ} → A → Option A → A
keep old none = old
keep old (some new) = new

-- The UPDATE of a row.
unfoldable pub set_fields : ℕ → Option String → Option Float → Option ℤ → Group → Group
set_fields now description max_allocation_pct max_positions g = record g {
  updated_at = now;
  description = keep g.description description;
  max_allocation_pct = keep g.max_allocation_pct max_allocation_pct;
  max_positions = keep g.max_positions max_positions;
}

-- `UPDATE position_groups SET ... WHERE name = ?`
unfoldable pub on_group : String → (Group → Group) → Groups → Groups
on_group name f s = elim (lookup name s.groups) [
  | none ↦ s
  | some g ↦ record s { groups = insert name (f g) s.groups }
]

unfoldable pub update_group :
    ℕ → String → Option String → Option Float → Option ℤ → Groups → Bool × Groups
unfolding on_group set_fields get_group
update_group now name description max_allocation_pct max_positions s =
    let updated = on_group name (set_fields now description max_allocation_pct max_positions) s in
    (elim (get_group name updated) [ none ↦ false | some _ ↦ true ], updated)

-- `UPDATE position_groups SET updated_at = ? WHERE name = ?`
abbrev touch : ℕ → Group → Group
touch now g = record g { updated_at = now }

unfoldable pub add_member : ℕ → String → String → Groups → Bool × Groups
unfolding on_group
add_member now name symbol s =
    if not (contains name s.groups)
    then (false, s)
    else if has_member name symbol s
    then (false, s)
    else (
      true,
      on_group name (touch now) (record s {
        members = s.members ++ (record { group_name = name; symbol = symbol; added_at = now } ∷ []);
      }),
    )

unfoldable pub remove_member : ℕ → String → String → Groups → Bool × Groups
unfolding on_group
remove_member now name symbol s = if not (has_member name symbol s) then (false, s) else (
  true,
  on_group name (touch now)
      (record s { members = filter (λ m. not (is_member name symbol m)) s.members }),
)

-- `get_groups_for_symbol`
unfoldable pub get_groups_for_symbol : String → Groups → List String
get_groups_for_symbol symbol s =
    sort_by (λ x. x)
      (map (λ (m : Member). m.group_name) (filter (λ m. m.symbol == symbol) s.members))

-- `get_all_memberships`
unfoldable pub memberships_of : List Member → Dict String (List String) → Dict String (List String)
memberships_of [] d = d
memberships_of (m ∷ ms) d =
    memberships_of ms (insert m.group_name (get_or m.group_name [] d ++ (m.symbol ∷ [])) d)

unfoldable pub get_all_memberships : Groups → Dict String (List String)
unfolding memberships_of
get_all_memberships s =
    memberships_of (sort_by (λ m. m.group_name) (sort_by (λ m. m.symbol) s.members)) []

-- `list_groups`
unfoldable pub list_groups : Groups → List PositionGroup
unfolding get_all_memberships
list_groups s =
    let all_memberships = get_all_memberships s in
    map (λ (name, g). record { name = name; group = g; members = get_or name [] all_memberships })
      (sort_by (λ (name, g). name) s.groups)
