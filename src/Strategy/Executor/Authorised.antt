-- ===== src/Strategy/Executor/Authorised.antt =====
-- The trades that a signal leads to.
use openwallstreet.Prelude.{
  ℕ, ◌≡◌, ◌⊎◌, arith, inl, inr, refl, sym, ap, ◌∙◌, subst, Option, none, some, List, ◌∷◌,
  Option-cases, ℤ,
}
use openwallstreet.Float.{Float}
use openwallstreet.Data.Ledger.{Key, key_eq}
use openwallstreet.Placement.Direct.{Action}
use openwallstreet.Strategy.Decision.{SignalWork, Directive, Kind, decide_signal, at_cap}
use openwallstreet.Strategy.Decision.Rules.{
  IsOpening, IsClosing, IsDeclared, check_manifest-IsDeclared, decide_signal-opens_iff,
  decide_signal-closes_iff, decide_signal-quantity,
}
use openwallstreet.Strategy.State.{open_position, count_opens_since}
use openwallstreet.Strategy.Sdk.{Ident, exact, resolve_exact, Answers, Sent}
use openwallstreet.Strategy.Sdk
use openwallstreet.Strategy.Stops.{Executor}
use openwallstreet.Strategy.Stops.Quiet.{trades, Quiet}
use openwallstreet.Strategy.Close.{Flow, finished, refused, crashed, tracked_of, execute_close}
use openwallstreet.Strategy.Close.Sold.{Sale, Sold, execute_close-Closes}
use openwallstreet.Strategy.Open.{key_of, execute_open}
use openwallstreet.Strategy.Open.Bought.{purchase, execute_open-Opens}
use openwallstreet.Strategy.Executor.{
  gates, opens_if, manifest_gate, on_refusal, open_gated, or_zero, follow, warn_if_stale_gate_inert,
  process_signal,
}
use openwallstreet.Strategy.Executor.Idle.{warn_if_stale_gate_inert-Quiet}

-- The opens of the strategy in a window before the gate.
abbrev pub opens_within : Answers → SignalWork → ℕ → Executor → ℕ
opens_within a w window s = count_opens_since w.strategy_name a.gate_clock window s.log

-- A purchase that every gate lets through.
pub record IsBought (a : Answers) (w : SignalWork) (s : Executor) (i : Ident) : Type 0 where
  pub gated : IsOpening w (gates a w s)
  pub declared : IsDeclared w (opens_within a w 86400000000 s) (opens_within a w 3600000000 s)
  pub instrument : resolve_exact a.resolver w.conid ≡ exact i

-- A sale that every gate lets through, of what is attributed and what the broker holds.
pub record IsSold (a : Answers) (w : SignalWork) (s : Executor) (sent : List Sent) (i : Ident)
    (qty : Float) : Type 0 where
  pub gated : IsClosing w (gates a w s)
  pub sale :
      Sale a
        (key_of w)
        w.bar_ts.wall
        (gates a w s).held_qty
        (tracked_of (open_position (key_of w) s.rows))
        sent
        i
        qty

-- Nothing, one purchase or one sale.
abbrev pub Trades : Answers → SignalWork → Executor → List Sent → Type 0
Trades a w s sent =
    (trades sent ≡ trades s.sent)
    ⊎ ((i : Ident) × (trades sent ≡ purchase w (decide_signal w (gates a w s)) i ∷ trades s.sent)
        × IsBought a w s i)
    ⊎ ((i : Ident) × (qty : Float) × (trades sent
          ≡ Sdk.sell (key_of w) w.bar_ts.wall i qty ∷ trades s.sent)
        × IsSold a w s sent i qty)

on_refusal-sent :
    (a : Answers) (k : Key) (bar : ℕ) (x : Action) (r : Flow × Executor)
    → (on_refusal a k bar x r).sent ≡ r.1.sent
unfolding on_refusal
on_refusal-sent a k bar x (refused, s) = refl
on_refusal-sent a k bar x (finished, s) = refl
on_refusal-sent a k bar x (crashed, s) = refl

at_cap-opens_if : (limit : Option ℤ) (n : ℕ) → at_cap limit (opens_if limit n) ≡ at_cap limit n
at_cap-opens_if none n = refl
at_cap-opens_if (some l) n = refl

manifest_gate-IsDeclared :
    (a : Answers) (w : SignalWork) (d : Directive) (s : Executor)
    → manifest_gate a w d s ≡ none
    → IsDeclared w (opens_within a w 86400000000 s) (opens_within a w 3600000000 s)
unfolding manifest_gate
manifest_gate-IsDeclared a w d s h =
    let declared = check_manifest-IsDeclared w d _ _ h in
    record {
      universe = declared.universe;
      day = sym (at_cap-opens_if w.manifest_max_opens_per_day _) ∙ declared.day;
      hour = sym (at_cap-opens_if w.manifest_max_opens_per_hour _) ∙ declared.hour;
    }

open_gated-trades :
    (a : Answers) (w : SignalWork) (d : Directive) (s : Executor)
    → (trades (open_gated a w d s).sent ≡ trades s.sent)
      ⊎ ((i : Ident) × (trades (open_gated a w d s).sent ≡ purchase w d i ∷ trades s.sent)
          × IsDeclared w (opens_within a w 86400000000 s) (opens_within a w 3600000000 s)
          × (resolve_exact a.resolver w.conid ≡ exact i))
unfolding open_gated
open_gated-trades a w d s = elim (Option-cases (manifest_gate a w d s)) [
  | inr (refusal, e) ↦ rw (open_gated, e) (inl refl)
  | inl e ↦
      let r = execute_open a w d s in
      let sent = on_refusal-sent a (key_of w) w.bar_ts.wall w.action r in
      rw (open_gated, e)
        (rw sent (elim (execute_open-Opens a w d s).bought [
          | inl same ↦ inl same
          | inr (i, bought, exactly) ↦ inr (i, bought, manifest_gate-IsDeclared a w d s e, exactly)
        ]))
]

close-trades :
    (a : Answers) (k : Key) (bar : ℕ) (x : Action) (q : Float) (s : Executor)
    → Sold a k bar q
        (tracked_of (open_position k s.rows))
        s.sent
        (on_refusal a k bar x (execute_close a k bar q s)).sent
close-trades a k bar x q s =
    rw (on_refusal-sent a k bar x (execute_close a k bar q s)) (execute_close-Closes a k bar q s).1

-- The state after the warning, and the kind of the directive with its equation.
follow-Trades :
    (a : Answers) (w : SignalWork) (s t : Executor) (kind : Kind)
    → (decide_signal w (gates a w s)).kind ≡ kind
    → t.rows ≡ s.rows
    → Quiet s t
    → Trades a w s (follow a w (decide_signal w (gates a w s)) kind t).sent
unfolding follow
follow-Trades a w s t Kind.skip e rows quiet = inl quiet.trades_kept
follow-Trades a w s t Kind.refused e rows quiet = inl quiet.trades_kept
follow-Trades a w s t Kind.open_position e rows quiet =
    elim (open_gated-trades a w (decide_signal w (gates a w s)) t) [
      | inl same ↦ inl (same ∙ quiet.trades_kept)
      | inr (i, bought, declared, exactly) ↦ inr (
          inl (
            i,
            bought
                ∙ ap (λ (xs : List Sent). purchase w (decide_signal w (gates a w s)) i ∷ xs)
                    quiet.trades_kept,
            record {
              gated = (decide_signal-opens_iff w (gates a w s)).0 e;
              declared =
                  subst
                    (λ log.
                      IsDeclared w (count_opens_since w.strategy_name a.gate_clock 86400000000 log)
                        (count_opens_since w.strategy_name a.gate_clock 3600000000 log))
                    quiet.log declared;
              instrument = exactly;
            },
          ))
    ]
follow-Trades a w s t Kind.close_position e rows quiet =
    let g = gates a w s in
    let q = or_zero (decide_signal w g).quantity in
    let sent =
      (on_refusal a (key_of w) w.bar_ts.wall w.action
        (execute_close a (key_of w) w.bar_ts.wall q t)).sent in
    elim (close-trades a (key_of w) w.bar_ts.wall w.action q t) [
      | inl same ↦ inl (same ∙ quiet.trades_kept)
      | inr (i, qty, sold, sale) ↦ inr (
          inr (
            i,
            qty,
            sold
                ∙ ap (λ (xs : List Sent). Sdk.sell (key_of w) w.bar_ts.wall i qty ∷ xs)
                    quiet.trades_kept,
            record {
              gated = (decide_signal-closes_iff w g).0 e;
              sale =
                  subst
                    (λ x.
                      Sale a (key_of w) w.bar_ts.wall x
                        (tracked_of (open_position (key_of w) s.rows)) sent i qty)
                    (ap or_zero (decide_signal-quantity w g e))
                    (subst
                      (λ rs.
                        Sale a (key_of w) w.bar_ts.wall q (tracked_of (open_position (key_of w) rs))
                          sent i qty)
                      rows sale);
            },
          ))
    ]

warn_if_stale_gate_inert-rows :
    (w : SignalWork) (age : Option Float) (s : Executor)
    → (warn_if_stale_gate_inert w age s).rows ≡ s.rows
unfolding warn_if_stale_gate_inert
warn_if_stale_gate_inert-rows w age s = ground arith

-- A signal leads to one trade at most: to a purchase only where every gate of an open and the manifest let it
-- through, and to a sale only where the gates of a close do, of a finite and positive quantity not above what
-- is attributed nor above what the broker holds once the cancellation of the stops has been sent; both in the
-- instrument that the conid resolves to exactly.
pub process_signal-Trades :
    (a : Answers) (w : SignalWork) (s : Executor) → Trades a w s (process_signal a w s).sent
unfolding process_signal
process_signal-Trades a w s =
    let g = gates a w s in
    follow-Trades a w s (warn_if_stale_gate_inert w g.age s) (decide_signal w g).kind refl
      (warn_if_stale_gate_inert-rows w g.age s) (warn_if_stale_gate_inert-Quiet w g.age s)
