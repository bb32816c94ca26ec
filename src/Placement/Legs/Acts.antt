-- ===== src/Placement/Legs/Acts.antt =====
-- What is asked of the broker, and the placement of the children.
use openwallstreet.Prelude.{
  ℕ, string_eq, ◌≡◌, refl, ap, sym, ◌∙◌, Bool, true, false, List, [], ◌∷◌, ◌++◌, reverse, any,
  if◌then◌else◌, ◌&&◌, ◌||◌, ◌⊎◌, inl, inr,
}
use mathlib.Core.List.{append_assoc, append-nil}
use openwallstreet.Placement.Account.{Contract}
use openwallstreet.Placement.Legs.{
  Leg, LegRun, Act, place, cancel, place_leg, child_token, roll_back, place_children,
}

-- The legs that were placed, in order.
unfoldable pub legs_of : List Act → List Leg
legs_of [] = []
legs_of (place i l ∷ acts) = l ∷ legs_of acts
legs_of (cancel i ∷ acts) = legs_of acts

-- The ids of the legs that were placed, in order.
unfoldable pub ids_of : List Act → List ℕ
ids_of [] = []
ids_of (place i l ∷ acts) = i ∷ ids_of acts
ids_of (cancel i ∷ acts) = ids_of acts

-- The ids that were cancelled, in order.
unfoldable pub cancelled : List Act → List ℕ
cancelled [] = []
cancelled (place i l ∷ acts) = cancelled acts
cancelled (cancel i ∷ acts) = i ∷ cancelled acts

-- Only the last leg transmits.
abbrev pub StagedLast : List Leg → Type 0
StagedLast [] = Unit
StagedLast (l ∷ []) = l.transmit ≡ true
StagedLast (l ∷ m ∷ ls) = (l.transmit ≡ false) × StagedLast (m ∷ ls)

-- Every leg is placed by its run.
unfoldable pub accepts_all : Contract → List Leg → List LegRun → Bool
accepts_all c [] rs = true
accepts_all c (l ∷ ls) [] = false
accepts_all c (l ∷ ls) (r ∷ rs) = place_leg r (child_token c l) && accepts_all c ls rs

-- The children have all been placed, or those that were are rolled back.
abbrev pub Ended : List Leg → List ℕ → Bool → Bool × List Act × List ℕ → Type 0
Ended ls trades all (done, acts, ids) =
    ((done ≡ true)
      × (all ≡ true)
      × (legs_of acts ≡ ls)
      × (trades ++ ids_of acts ≡ ids)
      × (cancelled acts ≡ []))
    ⊎ ((done ≡ false)
        × (all ≡ false)
        × (any Leg.transmit (legs_of acts) ≡ false)
        × (cancelled acts ≡ reverse (trades ++ ids_of acts)))

pub roll_back-cancelled :
    (ids : List ℕ)
    → (cancelled (roll_back ids) ≡ ids)
      × (legs_of (roll_back ids) ≡ [])
      × (ids_of (roll_back ids) ≡ [])
unfolding cancelled legs_of ids_of
roll_back-cancelled [] = (refl, refl, refl)
roll_back-cancelled (i ∷ is) = let (a, b, d) = roll_back-cancelled is in (ap (λ v. i ∷ v) a, b, d)

-- A child that fails.
roll_back-Ended :
    (ls : List Leg) (trades : List ℕ)
    → Ended ls trades false (false, roll_back (reverse trades), trades)
roll_back-Ended ls trades =
    let (a, b, d) = roll_back-cancelled (reverse trades) in
    inr (
      refl,
      refl,
      ap (any Leg.transmit) b,
      a ∙ ap (λ v. reverse v) (sym (append-nil trades) ∙ sym (ap (λ v. trades ++ v) d)),
    )

-- A child that is placed, before the ones that follow.
later-Ended :
    (i : ℕ) (l : Leg) (ls : List Leg) (trades : List ℕ) (all : Bool) (q : Bool × List Act × List ℕ)
    → ((all ≡ false) → l.transmit ≡ false)
    → Ended ls (trades ++ i ∷ []) all q
    → Ended (l ∷ ls) trades all (q.0, place i l ∷ q.1, q.2)
unfolding legs_of ids_of cancelled
later-Ended i l ls trades all (done, acts, ids) staged (inl (d, e, a, b, c)) =
    inl (d, e, ap (λ v. l ∷ v) a, sym (append_assoc trades (i ∷ []) (ids_of acts)) ∙ b, c)
later-Ended i l ls trades all (done, acts, ids) staged (inr (d, e, a, c)) = inr (
  d,
  e,
  ap (λ v. v || any Leg.transmit (legs_of acts)) (staged e) ∙ a,
  c ∙ ap (λ v. reverse v) (append_assoc trades (i ∷ []) (ids_of acts)),
)

-- The leg before a failure is not the last one.
pub staged_first :
    (c : Contract) (l : Leg) (ls : List Leg) (rs : List LegRun)
    → StagedLast (l ∷ ls)
    → accepts_all c ls rs ≡ false
    → l.transmit ≡ false
unfolding accepts_all
staged_first c l [] rs h e = absurd (cc e)
staged_first c l (m ∷ ls) rs h e = h.0

pub StagedLast-tail : (l : Leg) (ls : List Leg) → StagedLast (l ∷ ls) → StagedLast ls
StagedLast-tail l [] h = tt
StagedLast-tail l (m ∷ ls) h = h.1

pub place_children-Ended :
    (c : Contract) (ls : List Leg) (rs : List LegRun) (trades : List ℕ)
    → StagedLast ls
    → Ended ls trades (accepts_all c ls rs) (place_children c ls rs trades)
unfolding place_children accepts_all legs_of ids_of cancelled
place_children-Ended c [] rs trades h = inl (refl, refl, refl, append-nil trades, refl)
place_children-Ended c (l ∷ ls) [] trades h = roll_back-Ended (l ∷ ls) trades
place_children-Ended c (l ∷ ls) (r ∷ rs) trades h =
    let next = trades ++ r.order_id ∷ [] in
    let q = place_children c ls rs next in
    let e = place_children-Ended c ls rs next (StagedLast-tail l ls h) in
    elim (place_leg r (child_token c l))
      as (λ b. Ended (l ∷ ls) trades (b && accepts_all c ls rs) (
        if b
        then (q.0, place r.order_id l ∷ q.1, q.2)
        else (false, roll_back (reverse trades), trades))) [
          | true ↦
              later-Ended r.order_id l ls trades (accepts_all c ls rs) q (staged_first c l ls rs h)
                e
          | false ↦ roll_back-Ended (l ∷ ls) trades
        ]

-- What a list of acts says, after a rollback of ids at its end.
pub append-roll_back :
    (acts : List Act) (ids : List ℕ)
    → (legs_of (acts ++ roll_back ids) ≡ legs_of acts)
      × (ids_of (acts ++ roll_back ids) ≡ ids_of acts)
      × (cancelled (acts ++ roll_back ids) ≡ cancelled acts ++ ids)
unfolding legs_of ids_of cancelled
append-roll_back [] ids = let (a, b, c) = roll_back-cancelled ids in (b, c, a)
append-roll_back (place i l ∷ acts) ids =
    let (a, b, c) = append-roll_back acts ids in (ap (λ t. l ∷ t) a, ap (λ t. i ∷ t) b, c)
append-roll_back (cancel i ∷ acts) ids =
    let (a, b, c) = append-roll_back acts ids in (a, b, ap (λ t. i ∷ t) c)
