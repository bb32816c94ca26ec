-- ===== src/Placement/Executioner/Exits.antt =====
-- The way of an exit through the executioner.
use openwallstreet.Prelude.{◌≡◌, refl, true, false, none, arith, string_eq, eq_iff, []}
use openwallstreet.Orders.Structure.{rejection_for_order, sanity_check_order}
use openwallstreet.Placement.Account.{Order, Trader}
use openwallstreet.Placement.Exposure.{order_reduces_exposure}
use openwallstreet.Placement.Tier.{enforce_approver_tier}
use openwallstreet.Placement.Sink.{
  submitted, shape_of, is_authorised, account_refusal, submit, spend, subscribe_place_order_direct,
}
use openwallstreet.Placement.Executioner.{
  cleared, Call, Run, is_exit, clear, sanity_refusal, tier_error, mint, place_cleared, place_order,
}
use openwallstreet.Placement.Executioner.Authorised.{IsPinned}

-- What an exit needs besides its classification: none of it is a gate.
pub record IsWorkable (w : Run) (k : Call) : Type 0 where
  pub unforced : k.force_open ≡ false
  pub exit : order_reduces_exposure w.start k.contract k.order.action k.order.total_quantity ≡ true
  pub still_exit :
      order_reduces_exposure w.at_tier k.contract k.order.action k.order.total_quantity ≡ true
  pub sane : rejection_for_order (shape_of k.order) ≡ none
  pub snapshot : w.snapshot_arrives ≡ true
  pub enabled : w.at_sink.execution_enabled ≡ true
  pub pinned : IsPinned w.at_sink k.order
  pub accepted : w.accepts ≡ true

pub account_refusal-none : (t : Trader) (o : Order) → IsPinned t o → account_refusal t o ≡ none
unfolding account_refusal
account_refusal-none t o (set, same) =
    ground (arith, eq_iff t.ib_account "", eq_iff o.account "", eq_iff o.account t.ib_account)

module _ (w : Run) (k : Call) (h : IsWorkable w k) where
  workable-is_exit : is_exit w k ≡ true
  unfolding is_exit
  workable-is_exit = ground (arith, h.unforced, h.exit)

  workable-clear : clear w k ≡ cleared []
  unfolding clear
  workable-clear = rw workable-is_exit refl

  workable-sanity : sanity_refusal w k ≡ none
  unfolding sanity_refusal sanity_check_order
  workable-sanity = ground (arith, h.snapshot, h.sane)

  workable-tier : tier_error w k ≡ none
  unfolding tier_error enforce_approver_tier
  workable-tier = ground (arith, h.unforced, h.still_exit)

  workable-sink :
      (subscribe_place_order_direct w.now w.at_sink w.accepts (mint w k [])).0
      ≡ submitted (mint w k [])
  unfolding subscribe_place_order_direct spend submit is_authorised mint
  workable-sink = ground (
    arith,
    h.enabled,
    h.sane,
    workable-is_exit,
    h.accepted,
    account_refusal-none w.at_sink k.order h.pinned,
  )

  -- An exit is never refused by a gate: an order that reduces the live position, at the call and at the
  -- tier, is submitted whatever the filter, the limits, the account's values, the checks and the approver's
  -- key are, if it is sane, pinned to the configured account and not forced open, execution is enabled, and
  -- the snapshot arrives and the broker accepts it.
  pub place_order_exit : (place_order w k).0 ≡ submitted (mint w k [])
  unfolding place_order place_cleared
  place_order_exit = ground (arith, workable-clear, workable-sanity, workable-tier, workable-sink)
