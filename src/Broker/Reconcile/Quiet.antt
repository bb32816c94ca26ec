-- ===== src/Broker/Reconcile/Quiet.antt =====
-- When the reconciliation has nothing to report.
use openwallstreet.Prelude.{
  ℕ, suc, ◌≡◌, ◌≢◌, refl, arith, Bool, true, not, ◌&&◌, ◌||◌, Option, none, String, ◌==◌, string_eq,
  nat_eq, List, [], ◌∷◌, ◌++◌, map, elem, any, filter, length, non_empty, if◌then◌else◌,
}
use openwallstreet.Float
use openwallstreet.Float.{Float, zero_float}
use openwallstreet.Broker.Reconcile.{
  Kind, Severity, critical, warning, info, executed_still_working, executed_no_broker_record,
  approved_order_working, approved_likely_filled, approved_no_broker_record, unprotected_position,
  Proposal, OpenOrder, Execution, Position, ReconciliationReport, is_divergence, diverged,
  is_recent, key_eq, known_ids, add_finding, check_executed, check_approved, check_proposal,
  check_proposals, protects, check_position, check_positions, reconcile,
}

any-append :
    {A : Type 0} (p : A → Bool) (xs ys : List A) → any p (xs ++ ys) ≡ (any p xs || any p ys)
any-append p [] ys = refl
any-append p (x ∷ xs) ys = ground (arith, any-append p xs ys)

divergent-add_finding :
    (kind : Kind) (symbol : String) (id : Option ℕ) (severity : Severity) (r : ReconciliationReport)
    → severity ≢ info
    → any is_divergence (add_finding kind severity symbol id r).findings ≡ true
divergent-add_finding kind symbol id severity r notable = ground (
  arith,
  any-append is_divergence r.findings
      (record { kind = kind; severity = severity; symbol = symbol; proposal_id = id } ∷ []),
)

abbrev pub all : {A : Type 0} → (A → Bool) → List A → Bool
all p [] = true
all p (x ∷ xs) = p x && all p xs

-- What leaves a proposal without a finding: it is neither EXECUTED nor APPROVED, or it was not touched
-- in the last two days, or it is EXECUTED and has no order ids or a filled one.
abbrev pub is_confirmed : List Execution → ℕ → Proposal → Bool
is_confirmed executions now p =
    not (is_recent p.updated_at now)
    || (if p.status == "EXECUTED"
        then not (non_empty p.order_ids)
          || any (λ id. elem id (known_ids (map (λ e. e.order_id) executions))) p.order_ids
        else not (p.status == "APPROVED"))

-- What leaves a position without a finding: it is flat, or an open order protects it.
abbrev pub is_protected : List OpenOrder → Position → Bool
is_protected open_orders pos = Float.eq pos.quantity zero_float || any (protects pos) open_orders

non_empty-filter : {A : Type 0} (p : A → Bool) (xs : List A) → non_empty (filter p xs) ≡ any p xs
non_empty-filter p [] = refl
non_empty-filter p (x ∷ xs) = ground (arith, non_empty-filter p xs)

module _ (os : List OpenOrder) (es : List Execution) (now : ℕ) where
  check_executed-diverged :
      (p : Proposal) (r : ReconciliationReport)
      → diverged (check_executed os es p r) ≡ (
          diverged r
          || not (
              not (non_empty p.order_ids)
              || any (λ id. elem id (known_ids (map (λ e. e.order_id) es))) p.order_ids))
  unfolding diverged check_executed
  check_executed-diverged p r = ground (
    arith,
    divergent-add_finding executed_still_working p.symbol p.id warning r,
    divergent-add_finding executed_no_broker_record p.symbol p.id warning r,
  )

  check_approved-diverged :
      (p : Proposal) (r : ReconciliationReport) → diverged (check_approved os es p r) ≡ true
  unfolding diverged check_approved
  check_approved-diverged p r = ground (
    arith,
    divergent-add_finding approved_order_working p.symbol p.id critical r,
    divergent-add_finding approved_likely_filled p.symbol p.id critical r,
    divergent-add_finding approved_no_broker_record p.symbol p.id warning r,
  )

  check_proposal-diverged :
      (p : Proposal) (r : ReconciliationReport)
      → diverged (check_proposal os es now p r) ≡ (diverged r || not (is_confirmed es now p))
  unfolding diverged check_proposal
  check_proposal-diverged p r = ground (
    arith,
    check_executed-diverged p (record r { checked_proposals = suc r.checked_proposals }),
    check_approved-diverged p (record r { checked_proposals = suc r.checked_proposals }),
  )

  check_proposals-diverged :
      (ps : List Proposal) (r : ReconciliationReport)
      → diverged (check_proposals os es now ps r)
        ≡ (diverged r || not (all (is_confirmed es now) ps))
  unfolding check_proposals
  check_proposals-diverged [] r = ground arith
  check_proposals-diverged (p ∷ ps) r = ground (
    arith,
    check_proposals-diverged ps (check_proposal os es now p r),
    check_proposal-diverged p r,
  )

check_position-diverged :
    (os : List OpenOrder) (q : Position) (r : ReconciliationReport)
    → diverged (check_position os q r) ≡ (diverged r || not (is_protected os q))
unfolding diverged check_position
check_position-diverged os q r =
    let checked = record r { checked_positions = suc r.checked_positions } in
    ground (
      arith,
      divergent-add_finding unprotected_position q.symbol none warning checked,
      non_empty-filter (protects q) os,
    )

check_positions-diverged :
    (os : List OpenOrder) (qs : List Position) (r : ReconciliationReport)
    → diverged (check_positions os qs r) ≡ (diverged r || not (all (is_protected os) qs))
unfolding check_positions
check_positions-diverged os [] r = ground arith
check_positions-diverged os (q ∷ qs) r =
    ground (
      arith,
      check_positions-diverged os qs (check_position os q r),
      check_position-diverged os q r,
    )

-- The report shows no divergence exactly when every proposal is confirmed or out of its scope, and every
-- position is flat or protected by an open order.
pub reconcile-quiet :
    (ps : List Proposal) (os : List OpenOrder) (es : List Execution) (qs : List Position) (now : ℕ)
    → not (diverged (reconcile ps os es qs now))
      ≡ (all (is_confirmed es now) ps && all (is_protected os) qs)
unfolding reconcile diverged
reconcile-quiet ps os es qs now =
    let start : ReconciliationReport = record {
      findings = [];
      checked_proposals = 0;
      checked_positions = 0;
      ib_open_orders = length os;
      ib_executions = length es;
    } in
    ground (
      arith,
      check_positions-diverged os qs (check_proposals os es now ps start),
      check_proposals-diverged os es now ps start,
    )
