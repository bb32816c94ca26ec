-- ===== src/Proposal/Store/Forward.antt =====
-- How far a proposal has come, call by call.
use openwallstreet.Prelude.{
  not, ◌&&◌, ◌⊎◌, elem, ℕ, ◌+◌, ◌≤◌, ◌<◌, ◌≡◌, Bool, true, false, Option, none, some, arith, String,
  ◌==◌, string_eq, nat_eq, eq_iff, eqb_iff, List, [], ◌∷◌, if◌then◌else◌, Option-cases, Bool-cases,
  inl, inr, lookup, insert, lookup-insert, lookup-erase, eqb,
}
use openwallstreet.Proposal.Transitions.{
  value, pending, terminal, is_valid_transition, is_known_status,
}
use openwallstreet.Proposal.Transitions.Edges.{rank, rank-lt}
use openwallstreet.Proposal.Store.{
  Row, Metadata, row_of, Store, Changes, Op, op_add, op_metadata, op_update, op_try, op_delete,
  TradeProposal, add, update_metadata, set_status, update_status, compare_and_swap, try_transition,
  delete, is_audit_row, apply, run,
}
use openwallstreet.Proposal.Store.Machine.{IsFresh}

-- A row that may be gone has come at least this far.
abbrev pub AtLeast : ℕ → Option Row → Type 0
AtLeast n none = Unit {0}
AtLeast n (some r) = n ≤ rank r.status

-- The id has been given out, and the proposal has come at least this far or is deleted.
pub record HasCome (n id : ℕ) (s : Store) : Type 0 where
  pub fresh : IsFresh s
  pub given : id < s.next_id
  pub far : AtLeast n (lookup id s.rows)

pub AtLeast-inv : (n : ℕ) (o : Option Row) (r : Row) → AtLeast n o → o ≡ some r → n ≤ rank r.status
AtLeast-inv n none r h e = absurd (ground arith)
AtLeast-inv n (some q) r h e = ground arith

-- One row of the table is rewritten, its status no less far.
pub put-far :
    (n id k : ℕ) (r r' : Row) (s : Store)
    → HasCome n id s
    → lookup k s.rows ≡ some r
    → rank r.status ≤ rank r'.status
    → AtLeast n (lookup id (insert k r' s.rows))
put-far n id k r r' s h found up = elim (Bool-cases (eqb k id)) [
  | inl same ↦
      let e : k ≡ id = (eqb_iff k id).0 same in
      rw (lookup-insert k id r' s.rows, same)
        (omega (arith, AtLeast-inv n (lookup k s.rows) r (rw e h.far) found))
  | inr other ↦ rw (lookup-insert k id r' s.rows, other) h.far
]

pub put-fresh :
    (k : ℕ) (r r' : Row) (s : Store)
    → IsFresh s
    → lookup k s.rows ≡ some r
    → (id : ℕ) → s.next_id ≤ id
    → lookup id (insert k r' s.rows) ≡ none
put-fresh k r r' s fresh found id beyond =
    ground (arith, lookup-insert k id r' s.rows, eqb_iff k id, fresh id beyond)

pub put-HasCome :
    (n id k : ℕ) (r r' : Row) (s : Store)
    → HasCome n id s
    → lookup k s.rows ≡ some r
    → rank r.status ≤ rank r'.status
    → HasCome n id (record s { rows = insert k r' s.rows })
put-HasCome n id k r r' s h found up = record {
  fresh = put-fresh k r r' s h.fresh found;
  given = h.given;
  far = put-far n id k r r' s h found up;
}

module _ (n id : ℕ) (s : Store) (h : HasCome n id s) where
  pub add_row-HasCome :
      (r : Row)
      → HasCome n id (record s { rows = insert s.next_id r s.rows; next_id = s.next_id + 1 })
  add_row-HasCome r = record {
    fresh = λ k beyond.
        ground (arith, lookup-insert s.next_id k r s.rows, eqb_iff s.next_id k, h.fresh k);
    given = omega (arith, h.given);
    far = rw (lookup-insert s.next_id id r s.rows) (kept (Bool-cases (eqb s.next_id id)));
  }
    where
      kept :
          (eqb s.next_id id ≡ true) ⊎ (eqb s.next_id id ≡ false)
          → AtLeast n (if eqb s.next_id id then some r else lookup id s.rows)
      kept (inl same) = absurd (omega (arith, (eqb_iff s.next_id id).0 same, h.given))
      kept (inr other) = rw other h.far

  pub add-HasCome : (now : ℕ) (p : TradeProposal) → HasCome n id (add now p s).1
  unfolding add
  add-HasCome now p = elim (Bool-cases (p.status == value pending)) [
    | inl born ↦ rw born (add_row-HasCome (row_of now p))
    | inr other ↦ rw other h
  ]

  pub update_metadata-HasCome :
      (now k : ℕ) (extra : Metadata) → HasCome n id (update_metadata now k extra s).1
  unfolding update_metadata
  update_metadata-HasCome now k extra = elim (Option-cases (lookup k s.rows)) [
    | inl missing ↦ rw (missing, update_metadata) h
    | inr (r, found) ↦ elim (Bool-cases (elem r.status terminal)) [
      | inl settled ↦ rw (found, update_metadata, settled) h
      | inr live ↦
          rw (found, update_metadata, live) (put-HasCome n id k r _ s h found (omega arith))
    ]
  ]

  pub climb-HasCome :
      (now k : ℕ) (status : String) (c : Changes) (r : Row)
      → lookup k s.rows ≡ some r
      → is_valid_transition r.status status ≡ true
      → HasCome n id (record s { rows = insert k (set_status now status c r) s.rows })
  unfolding set_status
  climb-HasCome now k status c r found valid =
      put-HasCome n id k r _ s h found (omega (arith, rank-lt r.status status valid))

  pub update_status-HasCome :
      (now k : ℕ) (status : String) (c : Changes) → HasCome n id (update_status now k status c s).1
  unfolding update_status
  update_status-HasCome now k status c = elim (Bool-cases (is_known_status status)) [
    | inr unknown ↦ rw unknown h
    | inl known ↦ elim (Option-cases (lookup k s.rows)) [
      | inl missing ↦ rw (known, missing) h
      | inr (r, found) ↦ elim (Bool-cases (r.status == status)) [
        | inl same ↦ rw (known, found, same) h
        | inr other ↦ elim (Bool-cases (is_valid_transition r.status status)) [
          | inl valid ↦ rw (known, found, other, valid) (climb-HasCome now k status c r found valid)
          | inr stuck ↦ rw (known, found, other, stuck) h
        ]
      ]
    ]
  ]

  pub compare_and_swap-HasCome :
      (now k : ℕ) (f t : String) (c : Changes)
      → is_valid_transition f t ≡ true
      → HasCome n id (compare_and_swap now k f t c s).1
  unfolding compare_and_swap
  compare_and_swap-HasCome now k f t c valid = elim (Option-cases (lookup k s.rows)) [
    | inl missing ↦ rw (missing, compare_and_swap) h
    | inr (r, found) ↦ elim (Bool-cases (r.status == f)) [
      | inl same ↦
          rw (found, compare_and_swap, same)
            (climb-HasCome now k t c r found (rw ((eq_iff r.status f).0 same) valid))
      | inr other ↦ rw (found, compare_and_swap, other) h
    ]
  ]

  pub try_transition-HasCome :
      (now k : ℕ) (f t : String) (c : Changes) → HasCome n id (try_transition now k f t c s).1
  unfolding try_transition
  try_transition-HasCome now k f t c = elim (Bool-cases (is_known_status t)) [
    | inr unknown ↦ rw unknown h
    | inl known ↦ elim (Bool-cases (is_valid_transition f t)) [
      | inr stuck ↦ rw (known, stuck) h
      | inl valid ↦ rw (known, valid) (compare_and_swap-HasCome now k f t c valid)
    ]
  ]

  pub delete-HasCome : (k : ℕ) (force : Bool) → HasCome n id (delete k force s).1
  unfolding delete
  delete-HasCome k force = elim (Bool-cases (is_audit_row (lookup k s.rows) && not force)) [
    | inl refused ↦ rw refused h
    | inr done ↦ rw done (record {
      fresh = λ j beyond. rw (lookup-erase k j s.rows) (ground (arith, h.fresh j));
      given = h.given;
      far = rw (lookup-erase k id s.rows) (gone (eqb k id));
    })
  ]
    where
      gone : (b : Bool) → AtLeast n (if b then none else lookup id s.rows)
      gone true = tt
      gone false = h.far

pub apply-HasCome : (n id : ℕ) (op : Op) (s : Store) → HasCome n id s → HasCome n id (apply op s)
unfolding apply
apply-HasCome n id (op_add now p) s h = add-HasCome n id s h now p
apply-HasCome n id (op_metadata now k extra) s h = update_metadata-HasCome n id s h now k extra
apply-HasCome n id (op_update now k status c) s h = update_status-HasCome n id s h now k status c
apply-HasCome n id (op_try now k f t c) s h = try_transition-HasCome n id s h now k f t c
apply-HasCome n id (op_delete k force) s h = delete-HasCome n id s h k force

pub run-HasCome : (n id : ℕ) (ops : List Op) (s : Store) → HasCome n id s → HasCome n id (run ops s)
unfolding run
run-HasCome n id [] s h = h
run-HasCome n id (op ∷ ops) s h = run-HasCome n id ops (apply op s) (apply-HasCome n id op s h)
