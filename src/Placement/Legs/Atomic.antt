-- ===== src/Placement/Legs/Atomic.antt =====
-- All legs or none.
use openwallstreet.Prelude.{
  ℕ, String, eqb, ◌==◌, string_eq, ◌≡◌, refl, ap, sym, ◌∙◌, Bool, true, false, Option, none, List,
  [], ◌∷◌, ◌++◌, reverse, any, if◌then◌else◌, ◌&&◌, ◌||◌, not, inl, inr,
}
use openwallstreet.Broker.Lifecycle.{Decisive}
use openwallstreet.Risk.Checks.{Checks}
use openwallstreet.Placement.Account.{Order}
use openwallstreet.Placement.Legs.{
  LegClasses, Leg, Expressive, LegRun, Act, place, children, place_leg, roll_back, place_children,
  Outcome, all_placed, entry_failed, aborted, rejected_by_broker, is_rejection, confirm,
  finish_legs, entry_leg, entry_token, transmits_alone, take_profit, stop_loss, trailing_stop,
  place_legs,
}
use openwallstreet.Placement.Legs.Acts.{
  legs_of, ids_of, cancelled, StagedLast, accepts_all, Ended, staged_first, StagedLast-tail,
  place_children-Ended, append-roll_back,
}

-- What each answer says of the acts, for the legs of the order and whether the entry and the children are accepted.
unfoldable pub Atomic : List Leg → Bool → Bool → Outcome × List Act → Type 0
Atomic ls e cs (all_placed ids, acts) =
    (e && cs ≡ true) × (legs_of acts ≡ ls) × (ids_of acts ≡ ids) × (cancelled acts ≡ [])
Atomic ls e cs (entry_failed, acts) = (e ≡ false) × (acts ≡ [])
Atomic ls e cs (aborted, acts) =
    (e && not cs ≡ true)
    × (any Leg.transmit (legs_of acts) ≡ false)
    × (cancelled acts ≡ reverse (ids_of acts))
Atomic ls e cs (rejected_by_broker, acts) =
    (e && cs ≡ true) × (legs_of acts ≡ ls) × (cancelled acts ≡ ids_of acts)

staged_legs :
    (bracket trailing stop : Bool) (ib : LegClasses) (account : String) (x : Expressive) (i : ℕ)
    (o : Order)
    → StagedLast (
        record {
          order = o;
          parent = none;
          transmit =
              if bracket then false else if trailing then false else if stop then false else true;
        }
        ∷ (if bracket
            then take_profit ib account x i ∷ stop_loss ib account x i ∷ []
            else if trailing
            then trailing_stop ib account x i ∷ []
            else if stop
            then stop_loss ib account x i ∷ []
            else []))
staged_legs true t s ib account x i o = (refl, (refl, refl))
staged_legs false true s ib account x i o = (refl, refl)
staged_legs false false true ib account x i o = (refl, refl)
staged_legs false false false ib account x i o = refl

-- Only the last child transmits; the entry does where it has none.
entry-StagedLast :
    (ib : LegClasses) (r : LegRun) (x : Expressive)
    → StagedLast (entry_leg ib r x ∷ children ib r.trader.ib_account x r.order_id)
unfolding entry_leg children transmits_alone
entry-StagedLast ib r x =
    staged_legs (x.spec.exit_type == "BRACKET") (x.spec.exit_type == "TRAILING_STOP")
      (x.spec.exit_type == "STOP_LOSS") ib r.trader.ib_account x r.order_id (entry_leg ib r x).order

rejected-Atomic :
    (l : Leg) (ls : List Leg) (i : ℕ) (all : Bool) (acts : List Act) (ids : List ℕ)
    → all ≡ true
    → legs_of acts ≡ ls
    → i ∷ ids_of acts ≡ ids
    → cancelled acts ≡ []
    → Atomic (l ∷ ls) true all (rejected_by_broker, place i l ∷ acts ++ roll_back ids)
unfolding Atomic legs_of ids_of cancelled
rejected-Atomic l ls i all acts ids e h g k =
    let (a, b, c) = append-roll_back acts ids in
    (e, ap (λ t. l ∷ t) (a ∙ h), c ∙ ap (λ t. t ++ ids) k ∙ sym g ∙ sym (ap (λ t. i ∷ t) b))

-- The end of the legs, with the entry placed.
finish_legs-Atomic :
    (l : Leg) (ls : List Leg) (i : ℕ) (all : Bool) (v : Option Decisive)
    (q : Bool × List Act × List ℕ)
    → (all ≡ false → l.transmit ≡ false)
    → Ended ls (i ∷ []) all q
    → Atomic (l ∷ ls) true all (finish_legs i v (q.0, place i l ∷ q.1, q.2))
unfolding Atomic finish_legs confirm legs_of ids_of cancelled
finish_legs-Atomic l ls i all v (true, acts, ids) staged (inr (d, e, a, c)) = absurd (cc d)
finish_legs-Atomic l ls i all v (false, acts, ids) staged (inl (d, e, a, b, c)) = absurd (cc d)
finish_legs-Atomic l ls i all v (false, acts, ids) staged (inr (d, e, a, c)) =
    (ap not e, ap (λ t. t || any Leg.transmit (legs_of acts)) (staged e) ∙ a, c)
finish_legs-Atomic l ls i all v (true, acts, ids) staged (inl (d, e, a, b, c)) =
    let placed : Atomic (l ∷ ls) true all (all_placed ids, place i l ∷ acts) =
      (e, ap (λ t. l ∷ t) a, b, c) in
    elim (eqb i 0)
      as (λ t. Atomic (l ∷ ls) true all (
        if t
        then (all_placed ids, place i l ∷ acts)
        else if is_rejection v
        then (rejected_by_broker, place i l ∷ acts ++ roll_back ids)
        else (all_placed ids, place i l ∷ acts))) [
          | true ↦ placed
          | false ↦
              elim (is_rejection v)
                as (λ t. Atomic (l ∷ ls) true all (
                  if t
                  then (rejected_by_broker, place i l ∷ acts ++ roll_back ids)
                  else (all_placed ids, place i l ∷ acts))) [
                    | true ↦ rejected-Atomic l ls i all acts ids e a b c
                    | false ↦ placed
                  ]
        ]

-- The placement of an order's legs is all or nothing. Where the sink refuses the entry, nothing is asked of
-- the broker. Where it refuses a child, no leg that was placed transmits, and all are cancelled, newest first.
-- Where the broker rejects the entry, every leg is cancelled. A success has placed the entry and its children
-- in order, and cancelled none of them.
pub place_legs-Atomic :
    (ib : LegClasses) (x : Expressive) (is_exit : Bool) (checks : Checks) (r : LegRun)
    (rs : List LegRun) (v : Option Decisive)
    → Atomic
        (entry_leg ib r x ∷ children ib r.trader.ib_account x r.order_id)
        (place_leg r (entry_token x (entry_leg ib r x) is_exit checks))
        (accepts_all x.contract (children ib r.trader.ib_account x r.order_id) rs)
        (place_legs ib x is_exit checks r rs v)
unfolding place_legs Atomic
place_legs-Atomic ib x is_exit checks r rs v =
    let l = entry_leg ib r x in
    let cs = children ib r.trader.ib_account x r.order_id in
    let h = entry-StagedLast ib r x in
    let q = place_children x.contract cs rs (r.order_id ∷ []) in
    elim (place_leg r (entry_token x l is_exit checks))
      as (λ b. Atomic (l ∷ cs) b (accepts_all x.contract cs rs) (
        if b
        then finish_legs r.order_id v (q.0, place r.order_id l ∷ q.1, q.2)
        else (entry_failed, []))) [
          | true ↦
              finish_legs-Atomic l cs r.order_id (accepts_all x.contract cs rs) v q
                (staged_first x.contract l cs rs h)
                (place_children-Ended x.contract cs rs (r.order_id ∷ []) (StagedLast-tail l cs h))
          | false ↦ (refl, refl)
        ]
