-- ===== src/Broker/Reconcile.antt =====
-- trader/trading/reconciliation.py: `reconcile`. The `detail` texts of the findings are left out.
pub mod Quiet
use openwallstreet.Prelude.{
  ℕ, suc, ◌+◌, ◌-◌, ◌*◌, ◌≡◌, refl, ◌↔◌, arith, Bool, true, false, not, ◌&&◌, ◌||◌, Option, none,
  some, String, KeyEq, ◌==◌, same_refl, string_eq, nat_eq, List, [], ◌∷◌, ◌++◌, map, elem, any,
  filter, length, non_empty, eqb, leb, if◌then◌else◌, Dict, lookup, insert, get_or, upper,
}
use openwallstreet.Float
use openwallstreet.Float.{Float, zero_float}

pub record Proposal : Type 0 where
  pub id : Option ℕ
  pub status : String
  pub symbol : String
  pub action : String
  pub order_ids : List ℕ
  pub updated_at : Option ℕ

-- The normalised dicts of the broker's orders, executions and positions. An absent order id is 0, an
-- absent text is empty.
pub record OpenOrder : Type 0 where
  pub order_id : ℕ
  pub con_id : Option ℕ
  pub symbol : String
  pub action : String
  pub order_type : String

pub record Execution : Type 0 where
  pub order_id : ℕ
  pub symbol : String
  pub side : String

pub record Position : Type 0 where
  pub quantity : Float
  pub con_id : Option ℕ
  pub symbol : String

pub data Severity : Type 0 where
  critical warning info : Severity

pub data Kind : Type 0 where
  executed_still_working executed_no_broker_record approved_order_working approved_likely_filled
        approved_no_broker_record unprotected_position :
      Kind

pub record ReconciliationFinding : Type 0 where
  pub kind : Kind
  pub severity : Severity
  pub symbol : String
  pub proposal_id : Option ℕ

pub record ReconciliationReport : Type 0 where
  pub findings : List ReconciliationFinding
  pub checked_proposals : ℕ
  pub checked_positions : ℕ
  pub ib_open_orders : ℕ
  pub ib_executions : ℕ

abbrev pub is_divergence : ReconciliationFinding → Bool
is_divergence f = elim f.severity [ critical ↦ true | warning ↦ true | info ↦ false ]

unfoldable pub diverged : ReconciliationReport → Bool
diverged r = any is_divergence r.findings

-- Two days in seconds; a time in the future is recent.
unfoldable pub is_recent : Option ℕ → ℕ → Bool
is_recent none now = true
is_recent (some when) now = leb (now - when) 172800

unfoldable pub norm_action : String → String
norm_action a =
    let side = upper a in
    if elem side ("BOT" ∷ "BUY" ∷ [])
    then "BUY"
    else if elem side ("SLD" ∷ "SELL" ∷ [])
    then "SELL"
    else side

abbrev pub Key : Type 0
Key = String × String

abbrev pub key_eqb : Key → Key → Bool
key_eqb (a, b) (c, d) = a == c && (b == d)

pub key_eqb_iff : (a b : Key) → (key_eqb a b ≡ true) ↔ (a ≡ b)
key_eqb_iff (a, b) (c, d) = grind (arith, string_eq.same_iff a c, string_eq.same_iff b d)

instance abbrev pub key_eq : KeyEq Key
key_eq = record { same = key_eqb; same_iff = key_eqb_iff }

-- `d[key] = d.get(key, 0) + 1` over a list of keys
unfoldable pub count_keys : List Key → Dict Key ℕ → Dict Key ℕ
count_keys [] d = d
count_keys (k ∷ ks) d = count_keys ks (insert k (suc (get_or k 0 d)) d)

-- The truth of `d.get(key)`
abbrev pub counted : Option ℕ → Bool
counted none = false
counted (some n) = not (eqb n 0)

abbrev pub open_key : OpenOrder → Key
open_key o = (o.symbol, norm_action o.action)

abbrev pub fill_key : Execution → Key
fill_key e = (e.symbol, norm_action e.side)

-- `{x for x in xs if x}`
abbrev pub known_ids : List ℕ → List ℕ
known_ids = filter (λ n. not (eqb n 0))

abbrev pub add_finding :
    Kind → Severity → String → Option ℕ → ReconciliationReport → ReconciliationReport
add_finding kind severity symbol id r = record r {
  findings =
      r.findings
      ++ (record { kind = kind; severity = severity; symbol = symbol; proposal_id = id } ∷ []);
}

module _ (open_orders : List OpenOrder) (executions : List Execution) where
  unfoldable pub check_executed : Proposal → ReconciliationReport → ReconciliationReport
  check_executed p r =
      if not (non_empty p.order_ids)
      then r
      else if any (λ id. elem id (known_ids (map (λ e. e.order_id) executions))) p.order_ids
      then r
      else if any (λ id. elem id (known_ids (map (λ o. o.order_id) open_orders))) p.order_ids
      then add_finding executed_still_working warning p.symbol p.id r
      else add_finding executed_no_broker_record warning p.symbol p.id r

  unfoldable pub check_approved : Proposal → ReconciliationReport → ReconciliationReport
  check_approved p r =
      let key : Key = (p.symbol, norm_action p.action) in
      if counted (lookup key (count_keys (map open_key open_orders) []))
      then add_finding approved_order_working critical p.symbol p.id r
      else if counted (lookup key (count_keys (map fill_key executions) []))
      then add_finding approved_likely_filled critical p.symbol p.id r
      else add_finding approved_no_broker_record warning p.symbol p.id r

  unfoldable pub check_proposal : ℕ → Proposal → ReconciliationReport → ReconciliationReport
  unfolding is_recent
  check_proposal now p r =
      if not (elem p.status ("EXECUTED" ∷ "APPROVED" ∷ []))
      then r
      else if not (is_recent p.updated_at now)
      then r
      else let checked = record r { checked_proposals = suc r.checked_proposals } in
        if p.status == "EXECUTED" then check_executed p checked else check_approved p checked

  unfoldable pub check_proposals : ℕ → List Proposal → ReconciliationReport → ReconciliationReport
  check_proposals now [] r = r
  check_proposals now (p ∷ ps) r = check_proposals now ps (check_proposal now p r)

abbrev pub protective_types : List String
protective_types = "STP" ∷ "STP LMT" ∷ "TRAIL" ∷ "TRAIL LIMIT" ∷ "LMT" ∷ []

abbrev pub same_id : Option ℕ → Option ℕ → Bool
same_id none none = true
same_id (some a) (some b) = eqb a b
same_id _ _ = false

unfoldable pub exit_action : Float → String
exit_action quantity = if Float.lt zero_float quantity then "SELL" else "BUY"

unfoldable pub protects : Position → OpenOrder → Bool
protects pos o =
    same_id o.con_id pos.con_id
    && ((norm_action o.action == exit_action pos.quantity)
        && elem (upper o.order_type) protective_types)

unfoldable pub check_position :
    List OpenOrder → Position → ReconciliationReport → ReconciliationReport
check_position open_orders pos r =
    if Float.eq pos.quantity zero_float
    then r
    else let checked = record r { checked_positions = suc r.checked_positions } in
      if non_empty (filter (protects pos) open_orders)
      then checked
      else add_finding unprotected_position warning pos.symbol none checked

unfoldable pub check_positions :
    List OpenOrder → List Position → ReconciliationReport → ReconciliationReport
check_positions open_orders [] r = r
check_positions open_orders (pos ∷ rest) r =
    check_positions open_orders rest (check_position open_orders pos r)

unfoldable pub reconcile :
    List Proposal → List OpenOrder → List Execution → List Position → ℕ → ReconciliationReport
reconcile proposals open_orders executions positions now = check_positions open_orders positions (
    check_proposals open_orders executions now proposals (record {
      findings = [];
      checked_proposals = 0;
      checked_positions = 0;
      ib_open_orders = length open_orders;
      ib_executions = length executions;
    }))
