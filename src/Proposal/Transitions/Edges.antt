-- ===== src/Proposal/Transitions/Edges.antt =====
-- The transition table against the documented state machine.
use openwallstreet.Prelude.{
  ℕ, ◌≡◌, refl, ◌↔◌, ◌⊎◌, inl, inr, ◌<◌, true, false, arith, String, ◌==◌, string_eq, eq_iff, elem,
  if◌then◌else◌, Bool-cases, subst,
}
use openwallstreet.Proposal.Transitions.{
  Status, pending, approved, executed, rejected, expired, failed, value, terminal, is_known_status,
  is_valid_transition,
}

-- The documented edges: a pending proposal is decided, an approved one is settled.
pub data Edge : Status → Status → Type 0 where
  approve : Edge pending approved
  reject : Edge pending rejected
  expire : Edge pending expired
  fail : Edge pending failed
  execute : Edge approved executed
  fail_approved : Edge approved failed
  reject_approved : Edge approved rejected

valid_of_Edge : {s t : Status} → Edge s t → is_valid_transition (value s) (value t) ≡ true
unfolding is_valid_transition
valid_of_Edge approve = refl
valid_of_Edge reject = refl
valid_of_Edge expire = refl
valid_of_Edge fail = refl
valid_of_Edge execute = refl
valid_of_Edge fail_approved = refl
valid_of_Edge reject_approved = refl

-- The edge with its two ends, as the texts that the table holds.
abbrev pub IsEdge : String → String → Type 0
IsEdge from_status to_status =
    (s : Status) × (t : Status) × (from_status ≡ value s) × (to_status ≡ value t) × Edge s t

from_pending : (t : String) → is_valid_transition "PENDING" t ≡ true → IsEdge "PENDING" t
unfolding is_valid_transition
from_pending t h = elim (Bool-cases (t == "APPROVED")) [
  | inl e ↦ (pending, approved, refl, (eq_iff t _).0 e, approve)
  | inr n₁ ↦ elim (Bool-cases (t == "REJECTED")) [
    | inl e ↦ (pending, rejected, refl, (eq_iff t _).0 e, reject)
    | inr n₂ ↦ elim (Bool-cases (t == "EXPIRED")) [
      | inl e ↦ (pending, expired, refl, (eq_iff t _).0 e, expire)
      | inr n₃ ↦ elim (Bool-cases (t == "FAILED")) [
        | inl e ↦ (pending, failed, refl, (eq_iff t _).0 e, fail)
        | inr n₄ ↦ absurd (ground arith)
      ]
    ]
  ]
]

from_approved : (t : String) → is_valid_transition "APPROVED" t ≡ true → IsEdge "APPROVED" t
unfolding is_valid_transition
from_approved t h = elim (Bool-cases (t == "EXECUTED")) [
  | inl e ↦ (approved, executed, refl, (eq_iff t _).0 e, execute)
  | inr n₁ ↦ elim (Bool-cases (t == "FAILED")) [
    | inl e ↦ (approved, failed, refl, (eq_iff t _).0 e, fail_approved)
    | inr n₂ ↦ elim (Bool-cases (t == "REJECTED")) [
      | inl e ↦ (approved, rejected, refl, (eq_iff t _).0 e, reject_approved)
      | inr n₃ ↦ absurd (ground arith)
    ]
  ]
]

-- Only two statuses have a way out.
from_open : (f t : String) → is_valid_transition f t ≡ true → (f ≡ "PENDING") ⊎ (f ≡ "APPROVED")
unfolding is_valid_transition
from_open f t h = ground (arith, eq_iff "PENDING" f, eq_iff "APPROVED" f)

-- On any two texts the predicate holds exactly at the documented edges of the state machine.
is_valid_transition_iff : (f t : String) → (is_valid_transition f t ≡ true) ↔ IsEdge f t
is_valid_transition_iff f t = (edge, valid)
  where
    edge : is_valid_transition f t ≡ true → IsEdge f t
    edge h = elim (from_open f t h) [
      | inl e ↦ rw e (from_pending t (rw e at h))
      | inr e ↦ rw e (from_approved t (rw e at h))
    ]

    valid : IsEdge f t → is_valid_transition f t ≡ true
    valid (s, u, es, et, step) = rw (es, et) (valid_of_Edge step)

-- How far a status has come: pending, approved, settled.
abbrev pub rank : String → ℕ
rank status = if status == "PENDING" then 0 else if status == "APPROVED" then 1 else 2

-- A valid transition moves on, never back and never to the same status.
pub rank-lt : (f t : String) → is_valid_transition f t ≡ true → rank f < rank t
rank-lt f t h = climbs ((is_valid_transition_iff f t).0) h
  where
    step_rank : {s u : Status} → Edge s u → rank (value s) < rank (value u)
    step_rank approve = omega arith
    step_rank reject = omega arith
    step_rank expire = omega arith
    step_rank fail = omega arith
    step_rank execute = omega arith
    step_rank fail_approved = omega arith
    step_rank reject_approved = omega arith

    climbs :
        (is_valid_transition f t ≡ true → IsEdge f t)
        → is_valid_transition f t ≡ true
        → rank f < rank t
    climbs edge g = let (s, u, es, et, step) = edge g in rw (es, et) (step_rank step)

-- A valid transition ends at a known status.
pub valid-lands : (f t : String) → is_valid_transition f t ≡ true → is_known_status t ≡ true
unfolding is_known_status
valid-lands f t h = lands ((is_valid_transition_iff f t).0 h)
  where
    known : (s : Status) → is_known_status (value s) ≡ true
    known pending = refl
    known _ = refl

    lands : IsEdge f t → is_known_status t ≡ true
    lands (s, u, es, et, step) = rw et (known u)

-- No transition leaves a terminal status.
pub terminal_stuck : (f t : String) → elem f terminal ≡ true → is_valid_transition f t ≡ false
terminal_stuck f t h = elim (Bool-cases (is_valid_transition f t)) [
  | inl valid ↦ elim (from_open f t valid) [
    | inl e ↦ absurd (cc (subst (λ x. elem x terminal ≡ true) e h))
    | inr e ↦ absurd (cc (subst (λ x. elem x terminal ≡ true) e h))
  ]
  | inr stuck ↦ stuck
]
