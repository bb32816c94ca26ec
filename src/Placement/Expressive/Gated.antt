-- ===== src/Placement/Expressive/Gated.antt =====
-- What a vetted opening went through.
use openwallstreet.Prelude.{
  ◌≡◌, refl, ap, ◌∙◌, ◌⊎◌, inl, inr, true, Option, none, some, ◌==◌, string_eq, eq_iff, arith,
  upper, Bool-cases, Option-cases,
}
use openwallstreet.Float.{Float}
use openwallstreet.Risk.Checks.{Checks, RiskGateResult}
use openwallstreet.Risk.Gate.{evaluate, check_instrument}
use openwallstreet.Risk.Gate.Bounds.{IsAllowed, approves, evaluate_iff}
use openwallstreet.Risk.Leverage.{MarginImpact, check_leverage}
use openwallstreet.Risk.Leverage.Cushion.{IsCovered, check_leverage-IsCovered}
use openwallstreet.Placement.Account.{RiskGate}
use openwallstreet.Placement.Legs.{Expressive}
use openwallstreet.Placement.Expressive.{
  Meeting, Stopped, over_leverage, gate_refused, Vetted, vetted, stop, read_net_liq, verdict_of,
  vet_leverage, request_of, merge_checks, tier_error, vet_tier, vet_gate, vet_open,
}

-- What the leverage check made of the order, forex aside.
abbrev pub Affords : Meeting → Expressive → RiskGate → Type 0
Affords m x g =
    (upper x.contract.sec_type ≡ "CASH")
    ⊎ ((impact : MarginImpact) × (net : Float) × (m.margin ≡ some impact)
        × (read_net_liq m.after_margin ≡ some net)
        × IsCovered g.limits impact net)

-- An opening order went through every gate.
pub record IsVetted (m : Meeting) (x : Expressive) : Type 0 where
  pub gate : RiskGate
  pub present : m.start.risk_gate ≡ some gate
  pub permitted :
      check_instrument gate.trading_filter x.contract.symbol x.contract.exchange x.contract.sec_type
      ≡ true
  pub afforded : Affords m x gate
  pub allowed : IsAllowed gate.limits m.at_gate.world (request_of m x)
  pub approved : tier_error m x ≡ none

verdict_of-approves :
    (o : Option RiskGateResult) (s : Stopped) (c : Checks)
    → verdict_of o s ≡ vetted c
    → (r : RiskGateResult) × (o ≡ some r) × (r.approved ≡ true)
unfolding verdict_of
verdict_of-approves none s c h = absurd (cc h)
verdict_of-approves (some r) s c h = (r, refl, ground arith)

pub Vetted-cases : (v : Vetted) → ((c : Checks) × (v ≡ vetted c)) ⊎ ((s : Stopped) × (v ≡ stop s))
Vetted-cases (vetted c) = inl (c, refl)
Vetted-cases (stop s) = inr (s, refl)

vet_leverage-Affords :
    (m : Meeting) (x : Expressive) (g : RiskGate) (c : Checks)
    → vet_leverage m x g ≡ vetted c
    → Affords m x g
unfolding vet_leverage
vet_leverage-Affords m x g c h = elim (Bool-cases (upper x.contract.sec_type == "CASH")) [
  | inl forex ↦ inl ((eq_iff (upper x.contract.sec_type) "CASH").0 forex)
  | inr other ↦ elim (Option-cases m.margin) [
    | inl unread ↦ absurd (ground (arith, other, unread))
    | inr (impact, read) ↦ elim (Option-cases (read_net_liq m.after_margin)) [
      | inl unread ↦ absurd (ground (arith, other, read, unread))
      | inr (net, valued) ↦
          let (r, e, a) =
            verdict_of-approves (check_leverage g.limits impact net) over_leverage c
              (ground (arith, other, read, valued)) in
          inr (impact, net, read, valued, check_leverage-IsCovered g.limits impact net e a)
    ]
  ]
]

vet_tier-clears :
    (m : Meeting) (x : Expressive) (c d : Checks)
    → vet_tier m x c ≡ vetted d
    → tier_error m x ≡ none
unfolding vet_tier
vet_tier-clears m x c d h = elim (Option-cases (tier_error m x)) [
  | inl none_left ↦ none_left
  | inr (e, refusing) ↦ absurd (ground (arith, refusing))
]

vet_gate-clears :
    (m : Meeting) (x : Expressive) (g : RiskGate) (c d : Checks)
    → vet_gate m x g c ≡ vetted d
    → IsAllowed g.limits m.at_gate.world (request_of m x) × (tier_error m x ≡ none)
unfolding vet_gate
vet_gate-clears m x g c d h =
    let v = verdict_of (evaluate g.limits m.at_gate.world (request_of m x)) gate_refused in
    elim (Vetted-cases v) [
      | inr (s, stopped) ↦ absurd (ground (arith, stopped))
      | inl (e, found) ↦
          let (r, run, a) =
            verdict_of-approves (evaluate g.limits m.at_gate.world (request_of m x)) gate_refused e
              found in
          (
            (evaluate_iff g.limits m.at_gate.world (request_of m x)).0 (ap approves run ∙ a),
            vet_tier-clears m x (merge_checks e c) d (ground (arith, found)),
          )
    ]

pub vet_open-IsVetted :
    (m : Meeting) (x : Expressive) (c : Checks) → vet_open m x ≡ vetted c → IsVetted m x
unfolding vet_open
vet_open-IsVetted m x c h = elim (Option-cases m.start.risk_gate) [
  | inl missing ↦ absurd (ground (arith, missing))
  | inr (g, found) ↦ elim (Vetted-cases (vet_leverage m x g)) [
    | inr (s, stopped) ↦ absurd (ground (arith, found, stopped))
    | inl (d, levered) ↦
        let (allowed, approved) = vet_gate-clears m x g d c (ground (arith, found, levered)) in
        record {
          gate = g;
          present = found;
          permitted = ground (arith, found);
          afforded = vet_leverage-Affords m x g d levered;
          allowed = allowed;
          approved = approved;
        }
  ]
]
