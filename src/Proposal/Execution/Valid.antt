-- ===== src/Proposal/Execution/Valid.antt =====
-- What a valid specification carries, and the round trip over the RPC dict.
use openwallstreet.Prelude.{◌≡◌, ◌≢◌, ◌↔◌, ◌⊎◌, none, arith, string_eq, eq_iff, []}
use openwallstreet.Proposal.Execution.{ExecutionSpec, validate, to_dict, from_dict}

-- What `place_expressive_order` relies on: every price that the order and the exit need is there.
pub record IsValid (s : ExecutionSpec) : Type 0 where
  pub limit : s.order_type ≡ "LIMIT" → s.limit_price ≢ none
  pub bracket : s.exit_type ≡ "BRACKET" → (s.take_profit_price ≢ none) × (s.stop_loss_price ≢ none)
  pub stop_loss : s.exit_type ≡ "STOP_LOSS" → s.stop_loss_price ≢ none
  pub trailing :
      s.exit_type ≡ "TRAILING_STOP"
      → ((s.trailing_stop_percent ≢ none) ⊎ (s.trailing_stop_amount ≢ none))
        × (s.order_type ≢ "MARKET")

-- The list of errors is empty exactly when the specification is valid.
validate_iff : (s : ExecutionSpec) → (validate s ≡ []) ↔ IsValid s
unfolding validate
validate_iff s = (valid, empty)
  where
    valid : validate s ≡ [] → IsValid s
    valid h = record {
      limit = ground (arith, eq_iff s.order_type "LIMIT");
      bracket = ground (arith, eq_iff s.exit_type "BRACKET");
      stop_loss = ground (arith, eq_iff s.exit_type "STOP_LOSS");
      trailing = ground (arith, eq_iff s.exit_type "TRAILING_STOP", eq_iff s.order_type "MARKET");
    }

    empty : IsValid s → validate s ≡ []
    empty h = ground (
      arith,
      eq_iff s.order_type "LIMIT",
      eq_iff s.exit_type "BRACKET",
      eq_iff s.exit_type "STOP_LOSS",
      eq_iff s.exit_type "TRAILING_STOP",
      eq_iff s.order_type "MARKET",
    )

-- Reading back what was written gives the specification, whichever fields are set.
pub from_dict-to_dict : (s : ExecutionSpec) → from_dict (to_dict s) ≡ s
unfolding from_dict to_dict
from_dict-to_dict s = ground arith
