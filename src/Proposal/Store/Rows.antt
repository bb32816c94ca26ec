-- ===== src/Proposal/Store/Rows.antt =====
-- The rows of the table, and how a proposal is written into one and read back.
use openwallstreet.Prelude.{
  ℕ, Option, none, some, String, ◌==◌, string_eq, List, [], ◌∷◌, if◌then◌else◌, lookup, insert,
  erase,
}
use openwallstreet.Float.{Float}
use openwallstreet.Proposal.Execution.{ExecutionSpec, text, Fields, to_dict, from_dict}

abbrev pub Metadata : Type 0
Metadata = Fields

-- `TradeProposal`; a timestamp is its reading of the clock.
pub record TradeProposal : Type 0 where
  pub symbol : String
  pub action : String
  pub quantity : Option Float
  pub amount : Option Float
  pub execution : ExecutionSpec
  pub reasoning : String
  pub confidence : Float
  pub thesis : String
  pub source : String
  pub metadata : Metadata
  pub id : Option ℕ
  pub status : String
  pub created_at : Option ℕ
  pub updated_at : Option ℕ
  pub order_ids : List ℕ
  pub rejection_reason : String
  pub sec_type : String
  pub exchange : String
  pub currency : String
  pub group : String

-- A row of `trade_proposals` but for its id.
pub record Row : Type 0 where
  pub symbol : String
  pub action : String
  pub quantity : Option Float
  pub amount : Option Float
  pub execution : Fields
  pub reasoning : String
  pub confidence : Float
  pub thesis : String
  pub source : String
  pub metadata : Metadata
  pub status : String
  pub created_at : ℕ
  pub updated_at : ℕ
  pub order_ids : List ℕ
  pub rejection_reason : String
  pub sec_type : String

-- `if hint: meta[key] = hint`
unfoldable pub put_hint : String → String → Metadata → Metadata
put_hint key hint meta = if hint == "" then meta else insert key (text hint) meta

-- `metadata_dict.pop(key, '')` of a text; the store writes only texts under these keys.
unfoldable pub pop_hint : String → Metadata → String
pop_hint key meta = elim (lookup key meta) [ none ↦ "" | some (text hint) ↦ hint | some _ ↦ "" ]

-- `{**existing, **extra}`
unfoldable pub merge : Metadata → Metadata → Metadata
merge [] existing = existing
merge ((k, v) ∷ extra) existing = merge extra (insert k v existing)

-- The values of the INSERT.
unfoldable pub row_of : ℕ → TradeProposal → Row
unfolding put_hint
row_of now p = record {
  symbol = p.symbol;
  action = p.action;
  quantity = p.quantity;
  amount = p.amount;
  execution = to_dict p.execution;
  reasoning = p.reasoning;
  confidence = p.confidence;
  thesis = p.thesis;
  source = p.source;
  metadata =
      put_hint "_group" p.group
        (put_hint "_currency" p.currency (put_hint "_exchange" p.exchange p.metadata));
  status = p.status;
  created_at = now;
  updated_at = now;
  order_ids = p.order_ids;
  rejection_reason = p.rejection_reason;
  sec_type = p.sec_type;
}

-- `_rows_to_proposals` of one row.
unfoldable pub proposal_of : ℕ → Row → TradeProposal
unfolding pop_hint
proposal_of id r =
    let meta₁ = erase "_exchange" r.metadata in
    let meta₂ = erase "_currency" meta₁ in
    record {
      symbol = r.symbol;
      action = r.action;
      quantity = r.quantity;
      amount = r.amount;
      execution = from_dict r.execution;
      reasoning = r.reasoning;
      confidence = r.confidence;
      thesis = r.thesis;
      source = r.source;
      metadata = erase "_group" meta₂;
      id = some id;
      status = r.status;
      created_at = some r.created_at;
      updated_at = some r.updated_at;
      order_ids = r.order_ids;
      rejection_reason = r.rejection_reason;
      sec_type = r.sec_type;
      exchange = pop_hint "_exchange" r.metadata;
      currency = pop_hint "_currency" meta₁;
      group = pop_hint "_group" meta₂;
    }
