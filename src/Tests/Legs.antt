-- ===== src/Tests/Legs.antt =====
-- Runs at concrete inputs: the legs of an order with an execution specification.
use openwallstreet.Prelude.{◌≡◌, ◌↔◌, true, false, none, some, [], ◌∷◌, pos}
use openwallstreet.Float.{literal}
use openwallstreet.Proposal.Execution.{default_spec}
use openwallstreet.Risk.Gate.{evaluate}
use openwallstreet.Risk.Gate.Bounds.{approves}
use openwallstreet.Placement.Legs.{
  LegClasses, Expressive, LegRun, entry_leg, entry_token, children, place_leg, place_legs,
}
use openwallstreet.Placement.Legs.Acts.{accepts_all}
use openwallstreet.Placement.Legs.Atomic.{Atomic, place_legs-Atomic}
use openwallstreet.Placement.Expressive.{Meeting, request_of}
use openwallstreet.Placement.Expressive.Contracts.{with_contracts, evaluate-with_contracts}
use openwallstreet.Tests.Placement.{amd, market_order, trader, limits, tick}

abbrev classes : LegClasses
classes = record {
  market_order = λ a q ref acc. record market_order {
    action = a;
    total_quantity = q;
    order_ref = ref;
    account = acc;
  };
  limit_order = λ a q p ref acc. record market_order {
    action = a;
    total_quantity = q;
    order_type = "LMT";
    lmt_price = p;
    order_ref = ref;
    account = acc;
  };
  stop_order = λ a q p acc. record market_order {
    action = a;
    total_quantity = q;
    order_type = "STP";
    aux_price = p;
    account = acc;
  };
  trail_order = λ a q acc. record market_order {
    action = a;
    total_quantity = q;
    order_type = "TRAIL";
    account = acc;
  };
}

-- A bracket around the sale of twelve shares, of which ten are held.
abbrev bracket : Expressive
bracket = record {
  contract = amd;
  action = "SELL";
  quantity = literal 12 1;
  spec = record default_spec {
    exit_type = "BRACKET";
    take_profit_price = some (literal 90 1);
    stop_loss_price = some (literal 105 1);
  };
  algo_name = "momentum";
  approver_key = "";
  force_open = false;
}

abbrev run : LegRun
run = record { now = 5000; trader = trader; accepts = true; order_id = 7 }

-- The broker fails at the second child.
place_legs-Atomic_example :
    Atomic
      (entry_leg classes run bracket ∷ children classes "DU1" bracket 7)
      (place_leg run (entry_token bracket (entry_leg classes run bracket) true []))
      (accepts_all amd
        (children classes "DU1" bracket 7)
        (run ∷ record run { accepts = false } ∷ []))
      (place_legs classes bracket true [] run (run ∷ record run { accepts = false } ∷ []) none)
place_legs-Atomic_example =
    place_legs-Atomic classes bracket true [] run (run ∷ record run { accepts = false } ∷ []) none

abbrev meeting : Meeting
meeting = record {
  start = trader;
  margin = none;
  after_margin = trader;
  snapshot = some tick;
  at_gate = trader;
  at_tier = trader;
  tier_snapshot = some tick;
  entry_run = run;
  child_runs = run ∷ run ∷ [];
  verdict = none;
}

-- Twelve options, with a limit of one contract an order.
abbrev options : Expressive
options = record bracket { contract = record amd { sec_type = "OPT" } }

evaluate-with_contracts_example :
    (approves (
        evaluate (with_contracts (pos 1) limits) meeting.at_gate.world (request_of meeting options))
      ≡ true)
    ↔ (approves (evaluate limits meeting.at_gate.world (request_of meeting options)) ≡ true)
evaluate-with_contracts_example = evaluate-with_contracts limits meeting options (pos 1)
