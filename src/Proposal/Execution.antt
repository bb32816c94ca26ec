-- ===== src/Proposal/Execution.antt =====
-- trader/trading/proposal.py: the execution specification and its validation.
pub mod Valid
use openwallstreet.Prelude.{
  Bool, true, false, not, ◌&&◌, ◌||◌, Option, none, some, if◌then◌else◌, String, ◌==◌, string_eq,
  List, [], ◌∷◌, ◌++◌,
}
use openwallstreet.Float.{Float}

pub record ExecutionSpec : Type 0 where
  pub order_type : String
  pub limit_price : Option Float
  pub exit_type : String
  pub take_profit_price : Option Float
  pub stop_loss_price : Option Float
  pub trailing_stop_percent : Option Float
  pub trailing_stop_amount : Option Float
  pub tif : String
  pub outside_rth : Bool
  pub good_till_date : Option String

-- The messages of `validate`.
pub data SpecError : Type 0 where
  limit_needs_price bracket_needs_take_profit bracket_needs_stop_loss stop_loss_needs_price :
      SpecError
  trailing_needs_distance trailing_on_market : SpecError

abbrev pub is_none : Option Float → Bool
is_none none = true
is_none (some x) = false

-- `if c: errors.append(e)`
abbrev pub when : Bool → SpecError → List SpecError
when c e = if c then e ∷ [] else []

unfoldable pub validate : ExecutionSpec → List SpecError
validate s =
    when (s.order_type == "LIMIT" && is_none s.limit_price) limit_needs_price
    ++ (when (s.exit_type == "BRACKET" && is_none s.take_profit_price) bracket_needs_take_profit
        ++ (when (s.exit_type == "BRACKET" && is_none s.stop_loss_price) bracket_needs_stop_loss
            ++ (when (s.exit_type == "STOP_LOSS" && is_none s.stop_loss_price) stop_loss_needs_price
                ++ (when
                      (s.exit_type == "TRAILING_STOP"
                        && (is_none s.trailing_stop_percent && is_none s.trailing_stop_amount))
                      trailing_needs_distance
                    ++ when (s.exit_type == "TRAILING_STOP" && s.order_type == "MARKET")
                        trailing_on_market))))

-- The dict of `to_dict`: the fields that are not None, in declaration order.
pub data Field : Type 0 where
  text : String → Field
  number : Float → Field
  flag : Bool → Field

abbrev pub Fields : Type 0
Fields = List (String × Field)

number_field : String → Option Float → Fields
number_field k none = []
number_field k (some x) = (k, number x) ∷ []

text_field : String → Option String → Fields
text_field k none = []
text_field k (some x) = (k, text x) ∷ []

unfoldable pub to_dict : ExecutionSpec → Fields
unfolding number_field text_field
to_dict s =
    ("order_type", text s.order_type)
    ∷ (number_field "limit_price" s.limit_price
        ++ (("exit_type", text s.exit_type)
            ∷ (number_field "take_profit_price" s.take_profit_price
                ++ (number_field "stop_loss_price" s.stop_loss_price
                    ++ (number_field "trailing_stop_percent" s.trailing_stop_percent
                        ++ (number_field "trailing_stop_amount" s.trailing_stop_amount
                            ++ (("tif", text s.tif)
                                ∷ ("outside_rth", flag s.outside_rth)
                                ∷ text_field "good_till_date" s.good_till_date)))))))

-- The dataclass defaults.
unfoldable pub default_spec : ExecutionSpec
default_spec = record {
  order_type = "MARKET";
  limit_price = none;
  exit_type = "NONE";
  take_profit_price = none;
  stop_loss_price = none;
  trailing_stop_percent = none;
  trailing_stop_amount = none;
  tif = "DAY";
  outside_rth = true;
  good_till_date = none;
}

-- One keyword argument; an unknown key is filtered out. A value of another type, which Python keeps as it is,
-- has no place in the typed record and is left out.
set_number : String → Float → ExecutionSpec → ExecutionSpec
set_number k x s =
    if k == "limit_price"
    then record s { limit_price = some x }
    else if k == "take_profit_price"
    then record s { take_profit_price = some x }
    else if k == "stop_loss_price"
    then record s { stop_loss_price = some x }
    else if k == "trailing_stop_percent"
    then record s { trailing_stop_percent = some x }
    else if k == "trailing_stop_amount"
    then record s { trailing_stop_amount = some x }
    else s

set_text : String → String → ExecutionSpec → ExecutionSpec
set_text k x s =
    if k == "order_type"
    then record s { order_type = x }
    else if k == "exit_type"
    then record s { exit_type = x }
    else if k == "tif"
    then record s { tif = x }
    else if k == "good_till_date"
    then record s { good_till_date = some x }
    else s

set_flag : String → Bool → ExecutionSpec → ExecutionSpec
set_flag k b s = if k == "outside_rth" then record s { outside_rth = b } else s

set_field : String × Field → ExecutionSpec → ExecutionSpec
unfolding set_number set_text set_flag
set_field (k, number x) s = set_number k x s
set_field (k, text x) s = set_text k x s
set_field (k, flag b) s = set_flag k b s

set_all : Fields → ExecutionSpec → ExecutionSpec
unfolding set_field
set_all [] s = s
set_all (f ∷ fs) s = set_all fs (set_field f s)

unfoldable pub from_dict : Fields → ExecutionSpec
unfolding set_all default_spec
from_dict d = set_all d default_spec
