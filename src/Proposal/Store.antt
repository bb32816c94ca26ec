-- ===== src/Proposal/Store.antt =====
-- trader/data/proposal_store.py. The table `trade_proposals` is a list of rows by id, and each method is
-- one atomic operation on it (`execute_atomic`); `now` is the clock's reading. JSON columns hold the
-- values that are written into them.
pub mod Rows
pub mod Machine
mod Forward
pub mod Claims
pub mod RoundTrip
unfoldable pub use Rows.*
use openwallstreet.Prelude.{
  ℕ, suc, ◌+◌, Bool, true, false, not, ◌&&◌, Option, none, some, String, ◌==◌, string_eq, nat_eq,
  List, [], ◌∷◌, elem, if◌then◌else◌, Dict, lookup, insert, erase,
}
use openwallstreet.Proposal.Transitions.{
  value, pending, terminal, is_known_status, is_valid_transition,
}

-- The causes of InvalidProposalTransition.
pub data TransitionError : Type 0 where
  not_pending unknown_status not_found no_op illegal terminal_metadata terminal_delete :
      TransitionError

pub data Outcome (A : Type 0) : Type 0 where
  returned : A → Outcome A
  raised : TransitionError → Outcome A

pub record Store : Type 0 where
  pub rows : Dict ℕ Row
  pub next_id : ℕ

abbrev put : ℕ → Row → Store → Store
put id r s = record s { rows = insert id r s.rows }

unfoldable pub add : ℕ → TradeProposal → Store → Outcome ℕ × Store
add now p s = if not (p.status == value pending) then (raised not_pending, s) else (
  returned s.next_id,
  record s { rows = insert s.next_id (row_of now p) s.rows; next_id = s.next_id + 1 },
)

unfoldable pub update_metadata : ℕ → ℕ → Metadata → Store → Outcome (Unit {0}) × Store
update_metadata now id extra s = elim (lookup id s.rows) [
  | none ↦ (returned tt, s)
  | some r ↦ if elem r.status terminal then (raised terminal_metadata, s) else (
    returned tt,
    put id (record r { metadata = merge extra r.metadata; updated_at = now }) s,
  )
]

-- The optional columns of an UPDATE.
pub record Changes : Type 0 where
  pub order_ids : Option (List ℕ)
  pub rejection_reason : Option String

-- The SET clause.
unfoldable pub set_status : ℕ → String → Changes → Row → Row
set_status now status c r = record r {
  status = status;
  updated_at = now;
  order_ids = elim c.order_ids [ none ↦ r.order_ids | some ids ↦ ids ];
  rejection_reason = elim c.rejection_reason [ none ↦ r.rejection_reason | some why ↦ why ];
}

unfoldable pub update_status : ℕ → ℕ → String → Changes → Store → Outcome (Unit {0}) × Store
update_status now id status c s =
    if not (is_known_status status) then (raised unknown_status, s) else elim (lookup id s.rows) [
      | none ↦ (raised not_found, s)
      | some r ↦
          if r.status == status
          then (raised no_op, s)
          else if not (is_valid_transition r.status status)
          then (raised illegal, s)
          else (returned tt, put id (set_status now status c r) s)
    ]

-- The compare-and-swap: `UPDATE … WHERE id = ? AND status = ? RETURNING id`.
unfoldable pub compare_and_swap : ℕ → ℕ → String → String → Changes → Store → Bool × Store
compare_and_swap now id from_status to_status c s = elim (lookup id s.rows) [
  | none ↦ (false, s)
  | some r ↦
      if r.status == from_status
      then (true, put id (set_status now to_status c r) s)
      else (false, s)
]

unfoldable pub try_transition : ℕ → ℕ → String → String → Changes → Store → Outcome Bool × Store
unfolding compare_and_swap
try_transition now id from_status to_status c s =
    if not (is_known_status to_status)
    then (raised unknown_status, s)
    else if not (is_valid_transition from_status to_status)
    then (raised illegal, s)
    else let (won, s') = compare_and_swap now id from_status to_status c s in (returned won, s')

unfoldable pub get : ℕ → Store → Option TradeProposal
get id s = elim (lookup id s.rows) [ none ↦ none | some r ↦ some (proposal_of id r) ]

-- The row that `delete` reads forbids it.
abbrev pub is_audit_row : Option Row → Bool
is_audit_row none = false
is_audit_row (some r) = elem r.status terminal

unfoldable pub delete : ℕ → Bool → Store → Outcome Bool × Store
delete id force s =
    if is_audit_row (lookup id s.rows) && not force
    then (raised terminal_delete, s)
    else (returned true, record s { rows = erase id s.rows })

-- The calls that change the store, for a history of them.
pub data Op : Type 0 where
  op_add : ℕ → TradeProposal → Op
  op_metadata : ℕ → ℕ → Metadata → Op
  op_update : ℕ → ℕ → String → Changes → Op
  op_try : ℕ → ℕ → String → String → Changes → Op
  op_delete : ℕ → Bool → Op

unfoldable pub apply : Op → Store → Store
apply (op_add now p) s = (add now p s).1
apply (op_metadata now id extra) s = (update_metadata now id extra s).1
apply (op_update now id status c) s = (update_status now id status c s).1
apply (op_try now id f t c) s = (try_transition now id f t c s).1
apply (op_delete id force) s = (delete id force s).1

unfoldable pub run : List Op → Store → Store
run [] s = s
run (op ∷ ops) s = run ops (apply op s)
