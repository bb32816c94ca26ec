-- ===== src/Placement/Executioner/Authorised.antt =====
-- What stands behind every order that reaches the broker.
use openwallstreet.Prelude.{
  ℕ, subst, ◌≡◌, ◌≢◌, ◌⊎◌, inl, inr, refl, Bool, true, false, none, some, arith, string_eq, eq_iff,
  Bool-cases, Option-cases,
}
use openwallstreet.Orders.Structure.{rejection_for_order}
use openwallstreet.Risk.Checks.{Checks}
use openwallstreet.Risk.Gate.{evaluate, check_instrument}
use openwallstreet.Risk.Gate.Bounds.{IsAllowed, evaluate_iff}
use openwallstreet.Placement.Account.{Order, Trader, RiskGate}
use openwallstreet.Placement.Sink.{
  ApprovedOrder, submitted, shape_of, is_authorised, account_refusal, submit, spend,
  subscribe_place_order_direct,
}
use openwallstreet.Placement.Executioner.{
  Call, Run, is_exit, request_of, Verdict, cleared, stopped, evaluate_open, clear_open, clear,
  sanity_refusal, tier_error, mint, place_cleared, place_order,
}

-- The order is pinned to the account that is configured.
abbrev pub IsPinned : Trader → Order → Type 0
IsPinned t o = (t.ib_account ≢ "") × (o.account ≡ t.ib_account)

-- What the sink demands of a token.
pub record IsSpendable (t : Trader) (a : ApprovedOrder) : Type 0 where
  pub enabled : t.execution_enabled ≡ true
  pub sane : rejection_for_order (shape_of a.order) ≡ none
  pub authorised : is_authorised a ≡ true
  pub pinned : IsPinned t a.order

account_refusal-IsPinned : (t : Trader) (o : Order) → account_refusal t o ≡ none → IsPinned t o
unfolding account_refusal
account_refusal-IsPinned t o h =
    ground (arith, eq_iff t.ib_account "", eq_iff o.account "", eq_iff o.account t.ib_account)

pub subscribe-IsSpendable :
    (now : ℕ) (t : Trader) (accepts : Bool) (a b : ApprovedOrder)
    → (subscribe_place_order_direct now t accepts a).0 ≡ submitted b
    → IsSpendable t a × (a ≡ b)
unfolding subscribe_place_order_direct spend submit
subscribe-IsSpendable now t accepts a b h = elim (Option-cases (account_refusal t a.order)) [
  | inr (r, wrong) ↦ absurd (ground (arith, wrong))
  | inl pinned ↦ (
    record {
      enabled = ground arith;
      sane = ground arith;
      authorised = ground (arith, pinned);
      pinned = account_refusal-IsPinned t a.order pinned;
    },
    ground (arith, pinned),
  )
]

-- An opening order went through the trading filter and the gate, at the moment of the call.
pub record IsGated (w : Run) (k : Call) (c : Checks) : Type 0 where
  pub gate : RiskGate
  pub present : w.start.risk_gate ≡ some gate
  pub permitted :
      check_instrument gate.trading_filter k.contract.symbol k.contract.exchange k.contract.sec_type
      ≡ true
  pub allowed : IsAllowed gate.limits w.start.world (request_of w k)

evaluate_open-IsAllowed :
    (w : Run) (k : Call) (g : RiskGate) (c : Checks)
    → evaluate_open w k g ≡ cleared c
    → IsAllowed g.limits w.start.world (request_of w k)
unfolding evaluate_open
evaluate_open-IsAllowed w k g c h =
    elim (Option-cases (evaluate g.limits w.start.world (request_of w k))) [
      | inl raised ↦ absurd (ground (arith, raised))
      | inr (r, found) ↦
          (evaluate_iff g.limits w.start.world (request_of w k)).0
            (rw found (ground (arith, found)))
    ]

clear_open-IsGated : (w : Run) (k : Call) (c : Checks) → clear_open w k ≡ cleared c → IsGated w k c
unfolding clear_open
clear_open-IsGated w k c h = elim (Option-cases w.start.risk_gate) [
  | inl missing ↦ absurd (ground (arith, missing))
  | inr (g, found) ↦ record {
    gate = g;
    present = found;
    permitted = ground (arith, found);
    allowed = evaluate_open-IsAllowed w k g c (ground (arith, found));
  }
]

clear-cases :
    (w : Run) (k : Call) (c : Checks)
    → clear w k ≡ cleared c
    → (is_exit w k ≡ true) ⊎ ((is_exit w k ≡ false) × IsGated w k c)
unfolding clear
clear-cases w k c h = elim (Bool-cases (is_exit w k)) [
  | inl exit ↦ inl exit
  | inr open_side ↦ inr (open_side, clear_open-IsGated w k c (ground (arith, open_side)))
]

-- An order reaches the broker only with the account pinned, a sane structure and execution enabled at the
-- sink; with no objection of the approver's tier; and either as an exit by the live position, not forced
-- open, or after the trading filter and the risk gate of the moment of the call let it through.
pub record IsAuthorised (w : Run) (k : Call) (a : ApprovedOrder) : Type 0 where
  pub same_contract : a.contract ≡ k.contract
  pub same_order : a.order ≡ k.order
  pub spendable : IsSpendable w.at_sink a
  pub approved_tier : tier_error w k ≡ none
  pub cleared_by :
      ((a.is_exit ≡ true) × (is_exit w k ≡ true)) ⊎ ((a.is_exit ≡ false) × IsGated w k a.checks)

place_cleared-IsAuthorised :
    (w : Run) (k : Call) (c : Checks) (a : ApprovedOrder)
    → (is_exit w k ≡ true) ⊎ ((is_exit w k ≡ false) × IsGated w k c)
    → (place_cleared w k c).0 ≡ submitted a
    → IsAuthorised w k a
unfolding place_cleared mint
place_cleared-IsAuthorised w k c a by h = elim (Option-cases (tier_error w k)) [
  | inr (e, refusing) ↦ absurd (ground (arith, refusing))
  | inl fine ↦
      let (spendable, same) =
        subscribe-IsSpendable w.now w.at_sink w.accepts (mint w k c) a (ground (arith, fine)) in
      subst (IsAuthorised w k) same (record {
        same_contract = refl;
        same_order = refl;
        spendable = spendable;
        approved_tier = fine;
        cleared_by = elim by [ inl exit ↦ inl (exit, exit) | inr open_side ↦ inr open_side ];
      })
]

-- Every order that `place_order` submits is the one it was called with, and it is authorised: execution is
-- enabled, the order is sane and pinned to the configured account, the approver's tier has no objection,
-- and it is an exit by the live position or was let through by the trading filter and by every limit of
-- the risk gate.
pub place_order-IsAuthorised :
    (w : Run) (k : Call) (a : ApprovedOrder)
    → (place_order w k).0 ≡ submitted a
    → IsAuthorised w k a
unfolding place_order
place_order-IsAuthorised w k a h = go (clear w k) refl
  where
    go : (v : Verdict) → clear w k ≡ v → IsAuthorised w k a
    go (stopped r events) e = absurd (ground (arith, e))
    go (cleared c) e = elim (Option-cases (sanity_refusal w k)) [
      | inr (r, insane) ↦ absurd (ground (arith, e, insane))
      | inl sane ↦
          place_cleared-IsAuthorised w k c a (clear-cases w k c e) (ground (arith, e, sane))
    ]
