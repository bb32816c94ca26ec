-- ===== src/Tests/Proposal.antt =====
-- Runs at concrete inputs: the proposals.
use openwallstreet.Prelude.{
  ◌≡◌, ◌≢◌, refl, arith, true, none, some, [], ◌∷◌, lookup, contains, nat_eq, string_eq,
}
use openwallstreet.Float.{literal}
use openwallstreet.Proposal.Execution.{ExecutionSpec, default_spec, to_dict, from_dict}
use openwallstreet.Proposal.Execution.Valid.{from_dict-to_dict}
use openwallstreet.Proposal.Transitions.{is_known_status, is_valid_transition}
use openwallstreet.Proposal.Store.Rows.{TradeProposal, Row, row_of}
use openwallstreet.Proposal.Store.{
  Store, Changes, op_update, op_delete, apply, run, try_transition, compare_and_swap, returned,
}
use openwallstreet.Proposal.Store.Machine.{IsFresh, apply-terminal}
use openwallstreet.Proposal.Store.Claims.{try_transition_once}
use openwallstreet.Proposal.Store.RoundTrip.{HintsFree}

abbrev trailing : ExecutionSpec
trailing = record default_spec {
  order_type = "LIMIT";
  exit_type = "TRAILING_STOP";
  trailing_stop_percent = some (literal 3 1);
}

from_dict-to_dict_example : from_dict (to_dict trailing) ≡ trailing
from_dict-to_dict_example = from_dict-to_dict trailing

approval : is_valid_transition "PENDING" "APPROVED" ≡ true
unfolding is_valid_transition
approval = refl

abbrev proposal : TradeProposal
proposal = record {
  symbol = "AMD";
  action = "BUY";
  quantity = some (literal 10 1);
  amount = none;
  execution = trailing;
  reasoning = "breakout";
  confidence = literal 8 10;
  thesis = "";
  source = "scanner";
  metadata = [];
  id = none;
  status = "PENDING";
  created_at = none;
  updated_at = none;
  order_ids = [];
  rejection_reason = "";
  sec_type = "STK";
  exchange = "SMART";
  currency = "";
  group = "semis";
}

hints : HintsFree proposal.metadata
unfolding contains lookup
hints = record { exchange = refl; currency = refl; group = refl }

abbrev no_rows : Store
no_rows = record { rows = []; next_id = 1 }

-- A store with a pending proposal and an executed one.
abbrev pending_row : Row
pending_row = row_of 100 proposal

abbrev executed_row : Row
executed_row = record (row_of 100 proposal) { status = "EXECUTED"; order_ids = 41 ∷ [] }

abbrev two_rows : Store
two_rows = record { rows = (1, pending_row) ∷ (2, executed_row) ∷ []; next_id = 3 }

two_rows-IsFresh : IsFresh two_rows
unfolding lookup
two_rows-IsFresh id h = ground arith

executed_there : lookup 2 two_rows.rows ≡ some executed_row
unfolding lookup
executed_there = refl

abbrev no_changes : Changes
no_changes = record { order_ids = none; rejection_reason = none }

apply-terminal_example :
    lookup 2 (apply (op_update 200 2 "FAILED" no_changes) two_rows).rows ≡ some executed_row
apply-terminal_example =
    apply-terminal (op_update 200 2 "FAILED" no_changes) two_rows 2 executed_row two_rows-IsFresh
      executed_there refl tt

approved_first : (try_transition 200 1 "PENDING" "APPROVED" no_changes two_rows).0 ≡ returned true
unfolding try_transition compare_and_swap is_valid_transition is_known_status lookup row_of
approved_first = refl

-- A second approver comes after a rejection of the same proposal.
try_transition_once_example :
    (try_transition 300 1 "PENDING" "REJECTED" no_changes (
      run
        (op_update 250 1 "REJECTED" no_changes ∷ op_delete 1 true ∷ [])
        (try_transition 200 1 "PENDING" "APPROVED" no_changes two_rows).1)).0
    ≢ returned true
try_transition_once_example =
    try_transition_once 200 1 "PENDING" "APPROVED" no_changes two_rows
      (op_update 250 1 "REJECTED" no_changes ∷ op_delete 1 true ∷ []) 300 "REJECTED" no_changes
      two_rows-IsFresh approved_first
