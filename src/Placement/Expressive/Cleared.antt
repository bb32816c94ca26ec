-- ===== src/Placement/Expressive/Cleared.antt =====
-- What stands behind an order that has legs.
use openwallstreet.Prelude.{◌≡◌, ◌⊎◌, Bool, true, false, not, ◌&&◌, none, some, string_eq, []}
use openwallstreet.Orders.Structure.{rejection_for_order}
use openwallstreet.Orders.Split.{is_flip}
use openwallstreet.Risk.Checks.{Checks}
use openwallstreet.Proposal.Execution.{validate}
use openwallstreet.Placement.Exposure.{split_for_order}
use openwallstreet.Placement.Sink.{shape_of}
use openwallstreet.Placement.Legs.{LegClasses, Expressive, build_entry}
use openwallstreet.Placement.Expressive.{
  Meeting, Stopped, is_exit, Expressed, unplaced, legged, is_success, precheck, Answer, whole,
  reduction_failed, halves, place_unsplit, reduction, remainder,
}
use openwallstreet.Placement.Expressive.Gated.{IsVetted}

-- An order that has legs: its arguments are checked, and it is an exit or vetted.
pub record IsBacked (ib : LegClasses) (m : Meeting) (x : Expressive) : Type 0 where
  pub valid : validate x.spec ≡ []
  pub sane : rejection_for_order (shape_of (build_entry ib m.start.ib_account x)) ≡ none
  pub cleared_by : (is_exit m x ≡ true) ⊎ ((is_exit m x ≡ false) × IsVetted m x)

-- What an answer says of an order: a refusal that its arguments are bad or that it opens, and legs that it
-- is backed.
unfoldable pub Backed : LegClasses → Meeting → Expressive → Expressed → Type 0
Backed ib m x (unplaced s) = (precheck ib m x ≡ some s) ⊎ (is_exit m x ≡ false)
Backed ib m x (legged q) = IsBacked ib m x

-- An exit that does not cross zero.
abbrev pub IsPlainExit : Meeting → Expressive → Type 0
IsPlainExit m x =
    (is_exit m x ≡ true)
    × (is_flip (split_for_order m.start x.contract x.action x.quantity) ≡ false)

-- An order is split: it crosses zero, and it is not forced open.
abbrev pub crosses : Meeting → Expressive → Bool
crosses m x = not x.force_open && is_flip (split_for_order m.start x.contract x.action x.quantity)

-- One placement of an order that is not split, or the refusal of its arguments; or, of an order that is split, the
-- placements of its halves: the second one only after a success of the first, and with
-- legs only where it is vetted as an opening at its own moment.
unfoldable pub Answered : LegClasses → Meeting → Meeting → Expressive → Answer → Type 0
Answered ib m₁ m₂ x (whole e) =
    Backed ib m₁ x e
    × ((crosses m₁ x ≡ false) ⊎ ((s : Stopped) × (precheck ib m₁ x ≡ some s) × (e ≡ unplaced s)))
Answered ib m₁ m₂ x (reduction_failed e) =
    let plan = split_for_order m₁.start x.contract x.action x.quantity in
    (crosses m₁ x ≡ true)
    × (e ≡ place_unsplit ib m₁ (reduction x plan))
    × (is_success e ≡ false)
    × IsPlainExit m₁ (reduction x plan)
    × Backed ib m₁ (reduction x plan) e
Answered ib m₁ m₂ x (halves e f) =
    let plan = split_for_order m₁.start x.contract x.action x.quantity in
    (crosses m₁ x ≡ true)
    × (e ≡ place_unsplit ib m₁ (reduction x plan))
    × (f ≡ place_unsplit ib m₂ (remainder x plan))
    × (is_success e ≡ true)
    × IsPlainExit m₁ (reduction x plan)
    × Backed ib m₁ (reduction x plan) e
    × (is_exit m₂ (remainder x plan) ≡ false)
    × Backed ib m₂ (remainder x plan) f
