-- ===== src/Proposal/Store/Claims.antt =====
-- The claim of a proposal by compare-and-swap, over histories of calls.
use openwallstreet.Prelude.{
  ℕ, suc, ◌≤◌, ◌<◌, ◌≡◌, ◌≢◌, true, some, arith, String, string_eq, nat_eq, eq_iff, List,
  Option-cases, Bool-cases, inl, inr, lookup, insert, lookup-insert_self, ltb, ltb→lt, ap,
}
use openwallstreet.Proposal.Transitions.{is_valid_transition}
use openwallstreet.Proposal.Transitions.Edges.{rank, rank-lt}
use openwallstreet.Proposal.Store.{
  Row, Store, Changes, Op, returned, set_status, compare_and_swap, try_transition, run,
}
use openwallstreet.Proposal.Store.Machine.{IsFresh}
use openwallstreet.Proposal.Store.Forward.{HasCome, AtLeast-inv, put-fresh, run-HasCome}

-- A won call found the row at the old status, and has moved it along a valid edge.
try_transition_won :
    (now id : ℕ) (f t : String) (c : Changes) (s : Store)
    → (try_transition now id f t c s).0 ≡ returned true
    → (r : Row) × (lookup id s.rows ≡ some r)
      × (r.status ≡ f)
      × (is_valid_transition f t ≡ true)
      × ((try_transition now id f t c s).1
          ≡ record s { rows = insert id (set_status now t c r) s.rows })
unfolding try_transition compare_and_swap
try_transition_won now id f t c s won = elim (Option-cases (lookup id s.rows)) [
  | inl missing ↦ absurd (ground arith)
  | inr (r, found) ↦ (r, found, ground (arith, eq_iff r.status f), ground arith, ground arith)
]

given_of_found :
    (s : Store) (id : ℕ) (r : Row) → IsFresh s → lookup id s.rows ≡ some r → id < s.next_id
given_of_found s id r fresh found = elim (Bool-cases (ltb id s.next_id)) [
  | inl below ↦ ltb→lt id s.next_id below
  | inr beyond ↦ absurd (cc (fresh id (ground arith), found))
]

moved-HasCome :
    (now id : ℕ) (f t : String) (c : Changes) (r : Row) (s : Store)
    → IsFresh s
    → lookup id s.rows ≡ some r
    → is_valid_transition f t ≡ true
    → HasCome (suc (rank f)) id (record s { rows = insert id (set_status now t c r) s.rows })
unfolding set_status
moved-HasCome now id f t c r s fresh found valid = record {
  fresh = put-fresh id r (set_status now t c r) s fresh found;
  given = given_of_found s id r fresh found;
  far = rw (lookup-insert_self id (set_status now t c r) s.rows) (rank-lt f t valid);
}

try_transition-late :
    (now id : ℕ) (f t : String) (c : Changes) (s : Store)
    → HasCome (suc (rank f)) id s
    → (try_transition now id f t c s).0 ≢ returned true
try_transition-late now id f t c s h won =
    let (r, found, same, valid, after) = try_transition_won now id f t c s won in
    let far : suc (rank f) ≤ rank r.status =
      AtLeast-inv (suc (rank f)) (lookup id s.rows) r h.far found in
    absurd (omega (arith, ap rank same))

-- A claim is won once: after one caller has moved a proposal on from a status, no later call of
-- `try_transition` from that status wins, whatever calls of the store come in between. The ids of the
-- store from `next_id` on are free at the first call.
pub try_transition_once :
    (now id : ℕ) (f t : String) (c : Changes) (s : Store) (ops : List Op) (now' : ℕ) (t' : String)
    (c' : Changes)
    → IsFresh s
    → (try_transition now id f t c s).0 ≡ returned true
    → (try_transition now' id f t' c' (run ops (try_transition now id f t c s).1)).0 ≢ returned true
try_transition_once now id f t c s ops now' t' c' fresh won =
    let (r, found, same, valid, after) = try_transition_won now id f t c s won in
    try_transition-late now' id f t' c' _ (
      run-HasCome (suc (rank f)) id ops _
        (rw after (moved-HasCome now id f t c r s fresh found valid)))
