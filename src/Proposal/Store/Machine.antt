-- ===== src/Proposal/Store/Machine.antt =====
-- The life of a proposal in the store, over any history of calls.
use openwallstreet.Prelude.{
  ℕ, ◌≤◌, ◌≡◌, inl, inr, true, false, none, some, arith, String, string_eq, nat_eq, eq_iff, eqb_iff,
  elem, Option-cases, lookup, lookup-insert, lookup-erase,
}
use openwallstreet.Proposal.Transitions.{terminal}
use openwallstreet.Proposal.Transitions.Edges.{terminal_stuck}
use openwallstreet.Proposal.Store.{
  Row, Metadata, merge, row_of, Store, Changes, Op, op_add, op_metadata, op_update, op_try,
  op_delete, TradeProposal, add, update_metadata, set_status, update_status, try_transition, delete,
  apply,
}

-- Every row has an id that the sequence has passed.
abbrev pub IsFresh : Store → Type 0
IsFresh s = (id : ℕ) → s.next_id ≤ id → lookup id s.rows ≡ none

-- A forced deletion is the one call that may remove an audit row.
abbrev pub Unforced : Op → Type 0
Unforced (op_delete id true) = ⊥
Unforced op = Unit {0}

module _ (s : Store) (id : ℕ) (r : Row) (there : lookup id s.rows ≡ some r) where
  module _ (settled : elem r.status terminal ≡ true) where
    update_metadata_keeps :
        (now k : ℕ) (extra : Metadata) → lookup id (update_metadata now k extra s).1.rows ≡ some r
    unfolding update_metadata
    update_metadata_keeps now k extra = elim (Option-cases (lookup k s.rows)) [
      | inl missing ↦ ground arith
      | inr (r', found) ↦ ground (
        arith,
        eqb_iff k id,
        lookup-insert k id (record r' { metadata = merge extra r'.metadata; updated_at = now })
            s.rows,
      )
    ]

    update_status_keeps :
        (now k : ℕ) (status : String) (c : Changes)
        → lookup id (update_status now k status c s).1.rows ≡ some r
    unfolding update_status
    update_status_keeps now k status c = elim (Option-cases (lookup k s.rows)) [
      | inl missing ↦ ground arith
      | inr (r', found) ↦ ground (
        arith,
        eqb_iff k id,
        terminal_stuck r.status status settled,
        lookup-insert k id (set_status now status c r') s.rows,
      )
    ]

    try_transition_keeps :
        (now k : ℕ) (f t : String) (c : Changes)
        → lookup id (try_transition now k f t c s).1.rows ≡ some r
    unfolding try_transition
    try_transition_keeps now k f t c = elim (Option-cases (lookup k s.rows)) [
      | inl missing ↦ ground arith
      | inr (r', found) ↦ ground (
        arith,
        eqb_iff k id,
        eq_iff r'.status f,
        terminal_stuck r.status t settled,
        lookup-insert k id (set_status now t c r') s.rows,
      )
    ]

  add_keeps : (now : ℕ) (p : TradeProposal) → IsFresh s → lookup id (add now p s).1.rows ≡ some r
  unfolding add
  add_keeps now p fresh =
      ground
        (arith, eqb_iff s.next_id id, fresh id, lookup-insert s.next_id id (row_of now p) s.rows)

  delete_keeps :
      (k : ℕ) → elem r.status terminal ≡ true → lookup id (delete k false s).1.rows ≡ some r
  unfolding delete
  delete_keeps k settled = ground (arith, eqb_iff k id, lookup-erase k id s.rows)

-- In a store whose ids from `next_id` on are free, the row of a settled proposal (executed, rejected,
-- expired or failed) is not changed by any call but a forced deletion: not its status, its metadata, its
-- orders nor its timestamps.
pub apply-terminal :
    (op : Op) (s : Store) (id : ℕ) (r : Row)
    → IsFresh s
    → lookup id s.rows ≡ some r
    → elem r.status terminal ≡ true
    → Unforced op
    → lookup id (apply op s).rows ≡ some r
unfolding apply
apply-terminal (op_add now p) s id r fresh there settled u = add_keeps s id r there now p fresh
apply-terminal (op_metadata now k extra) s id r fresh there settled u =
    update_metadata_keeps s id r there settled now k extra
apply-terminal (op_update now k status c) s id r fresh there settled u =
    update_status_keeps s id r there settled now k status c
apply-terminal (op_try now k f t c) s id r fresh there settled u =
    try_transition_keeps s id r there settled now k f t c
apply-terminal (op_delete k true) s id r fresh there settled u = absurd u
apply-terminal (op_delete k false) s id r fresh there settled u =
    delete_keeps s id r there k settled
