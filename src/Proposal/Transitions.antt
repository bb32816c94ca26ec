-- ===== src/Proposal/Transitions.antt =====
-- trader/data/proposal_transitions.py, and the statuses of trader/trading/proposal.py.
pub mod Edges
use openwallstreet.Prelude.{
  Bool, ◌||◌, String, string_eq, List, [], ◌∷◌, elem, Dict, get_or, contains,
}

-- `ProposalStatus`
pub data Status : Type 0 where
  pending approved executed rejected expired failed : Status

-- `.value`
abbrev pub value : Status → String
value pending = "PENDING"
value approved = "APPROVED"
value executed = "EXECUTED"
value rejected = "REJECTED"
value expired = "EXPIRED"
value failed = "FAILED"

abbrev pub terminal : List String
terminal = value executed ∷ value rejected ∷ value expired ∷ value failed ∷ []

abbrev pub allowed_transitions : Dict String (List String)
allowed_transitions =
    (value pending, value approved ∷ value rejected ∷ value expired ∷ value failed ∷ [])
    ∷ (value approved, value executed ∷ value failed ∷ value rejected ∷ [])
    ∷ (value executed, [])
    ∷ (value rejected, [])
    ∷ (value expired, [])
    ∷ (value failed, [])
    ∷ []

unfoldable pub is_known_status : String → Bool
unfolding contains
is_known_status status = contains status allowed_transitions || elem status terminal

unfoldable pub is_valid_transition : String → String → Bool
unfolding get_or
is_valid_transition from_status to_status =
    elem to_status (get_or from_status [] allowed_transitions)
