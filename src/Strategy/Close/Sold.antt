-- ===== src/Strategy/Close/Sold.antt =====
-- What a close sends.
use openwallstreet.Prelude.{
  ℕ, ◌≡◌, ◌≢◌, ◌⊎◌, inl, inr, refl, ap, ◌∙◌, arith, true, false, not, ◌&&◌, Option, none, some,
  List, [], ◌∷◌, eqb, Bool-cases, Option-cases,
}
use openwallstreet.Float
use openwallstreet.Float.{Float, zero_float}
use openwallstreet.Float.Laws.{finite_pos}
use openwallstreet.Data.Ledger.{Key, key_eq}
use openwallstreet.Orders.Quantity.{reducible_quantity}
use openwallstreet.Orders.Quantity.Shares.{reducible_quantity_bounds}
use openwallstreet.Strategy.State.{closed_externally, open_position}
use openwallstreet.Strategy.Sdk.{
  Ident, exact, imprecise, unresolved, Resolved, resolve_exact, Holding, Approval, approved,
  not_approved, Answers, own_live_protectives, broker_quantity, Sent, approve,
}
use openwallstreet.Strategy.Sdk
use openwallstreet.Strategy.Stops.{Executor, send, cancel_protective, load_open_view}
use openwallstreet.Strategy.Stops.Quiet.{
  trades, Quiet, Quiet-refl, Quiet-trans, load_open_view-Quiet, cancel_protective-Quiet,
}
use openwallstreet.Strategy.Close.{
  refused, append_event, close_rows, settle_close, propose_close, sweep, tracked_of, clear_stops,
  close_read, execute_close,
}
use openwallstreet.Strategy.Close.Cancelled.{all_cancelled, clear_stops-all_cancelled}
use openwallstreet.Strategy.Close.Logged.{
  Logged, Quiet-Logged, close_rows-Quiet, settle_close-IsSettled, Quiet-Logged-trans,
}

-- A sale of a quantity within what is attributed and what the broker holds, in the instrument of the conid. The
-- position is read after the cancellation of the tracked stop and of the strategy's other live ones for the
-- conid has been sent, and nothing else is sent between the reading and the sale.
pub record Sale (a : Answers) (k : Key) (bar : ℕ) (attributed : Float) (tracked : ℕ)
    (sent : List Sent) (i : Ident) (qty : Float) : Type 0 where
  pub instrument : resolve_exact a.resolver k.1 ≡ exact i
  pub positive : finite_pos qty ≡ true
  pub within_attributed : Float.le qty attributed ≡ true
  pub asked : List Sent
  pub at_once : (n : ℕ) × (sent ≡ approve n ∷ Sdk.sell k bar i qty ∷ asked)
  pub cancelled : all_cancelled k (tracked ∷ own_live_protectives k a.close_trades) asked ≡ true
  pub within_broker :
      (hs : List Holding) × (a.close_holdings asked ≡ some hs)
      × (Float.le qty (broker_quantity k.1 hs) ≡ true)

-- No trade, or one sale.
abbrev pub Sold : Answers → Key → ℕ → Float → ℕ → List Sent → List Sent → Type 0
Sold a k bar attributed tracked before sent =
    (trades sent ≡ trades before)
    ⊎ ((i : Ident) × (qty : Float) × (trades sent ≡ Sdk.sell k bar i qty ∷ trades before)
        × Sale a k bar attributed tracked sent i qty)

sweep-Quiet : (k : Key) (tracked : ℕ) (os : List ℕ) (s : Executor) → Quiet s (sweep k tracked os s)
unfolding sweep
sweep-Quiet k tracked [] s = Quiet-refl s
sweep-Quiet k tracked (o ∷ os) s = elim (Bool-cases (not (eqb tracked 0) && eqb o tracked)) [
  | inl own ↦ rw (sweep, own) (sweep-Quiet k tracked os s)
  | inr other ↦
      rw (sweep, other)
        (Quiet-trans (cancel_protective-Quiet k o s)
          (sweep-Quiet k tracked os (cancel_protective k o s)))
]

clear_stops-Quiet : (a : Answers) (k : Key) (s : Executor) → Quiet s (clear_stops a k s)
unfolding clear_stops
clear_stops-Quiet a k s =
    let tracked = tracked_of (open_position k s.rows) in
    Quiet-trans (cancel_protective-Quiet k tracked s) (
      sweep-Quiet k tracked (own_live_protectives k a.close_trades) (cancel_protective k tracked s))

settle_close-sent :
    (a : Answers) (k : Key) (bar : ℕ) (qty : Float) (n : ℕ) (s : Executor)
    → (settle_close a k bar qty n s).1.sent ≡ s.sent
unfolding settle_close append_event load_open_view
settle_close-sent a k bar qty n s = elim (Option-cases a.approval) [
  | inl raised ↦ rw (settle_close, raised) refl
  | inr (not_approved, e) ↦ rw (settle_close, e) refl
  | inr (approved ids, e) ↦ rw (settle_close, e) refl
]

propose_close-trades :
    (a : Answers) (k : Key) (bar : ℕ) (i : Ident) (qty : Float) (s : Executor)
    → let s' = (propose_close a k bar i qty s).1 in
      Logged k bar s s'
      × ((trades s'.sent ≡ trades s.sent)
          ⊎ ((trades s'.sent ≡ Sdk.sell k bar i qty ∷ trades s.sent)
              × ((n : ℕ) × (s'.sent ≡ approve n ∷ Sdk.sell k bar i qty ∷ s.sent))))
unfolding propose_close trades
propose_close-trades a k bar i qty s = elim (Option-cases a.proposal_id) [
  | inl raised ↦ rw (propose_close, raised) (Quiet-Logged k bar (Quiet-refl s), inl refl)
  | inr (n, e) ↦
      let asked = send (approve n) (send (Sdk.sell k bar i qty) s) in
      let (logged, same) = settle_close-IsSettled a k bar qty n asked in
      rw (propose_close, e)
        (
          record { rows = logged.rows; log = logged.log },
          inr (same, (n, settle_close-sent a k bar qty n asked)),
        )
]

le-zero : Float.le zero_float zero_float ≡ true
unfolding Float.le zero_float
le-zero = refl

module _ (a : Answers) (k : Key) (bar : ℕ) (attributed : Float) (tracked : ℕ) where
  clamped-Sale :
      (i : Ident) (hs : List Holding) (asked sent : List Sent)
      → let qty = reducible_quantity (some attributed) (some (broker_quantity k.1 hs)) in
        resolve_exact a.resolver k.1 ≡ exact i
        → all_cancelled k (tracked ∷ own_live_protectives k a.close_trades) asked ≡ true
        → a.close_holdings asked ≡ some hs
        → (n : ℕ) × (sent ≡ approve n ∷ Sdk.sell k bar i qty ∷ asked)
        → Float.le qty zero_float ≡ false
        → Sale a k bar attributed tracked sent i qty
  clamped-Sale i hs asked sent exactly cleared read at_once left =
      elim (reducible_quantity_bounds attributed (broker_quantity k.1 hs)) [
        | inl (positive, mine, theirs, _, _) ↦ record {
          instrument = exactly;
          positive = positive;
          within_attributed = mine;
          asked = asked;
          at_once = at_once;
          cancelled = cleared;
          within_broker = (hs, read, theirs);
        }
        | inr (empty, _) ↦ absurd (cc (le-zero, empty, left))
      ]

  close_read-Sold :
      (i : Ident) (o : Option (List Holding)) (s : Executor)
      → resolve_exact a.resolver k.1 ≡ exact i
      → all_cancelled k (tracked ∷ own_live_protectives k a.close_trades) s.sent ≡ true
      → a.close_holdings s.sent ≡ o
      → let s' = (close_read a k bar attributed i o s).1 in
        Logged k bar s s' × Sold a k bar attributed tracked s.sent s'.sent
  unfolding close_read
  close_read-Sold i none s exactly cleared read = (Quiet-Logged k bar (Quiet-refl s), inl refl)
  close_read-Sold i (some hs) s exactly cleared read =
      let qty = reducible_quantity (some attributed) (some (broker_quantity k.1 hs)) in
      elim (Bool-cases (Float.le qty zero_float)) [
        | inl gone ↦
            let quiet =
              Quiet-trans (close_rows-Quiet k closed_externally none s)
                (load_open_view-Quiet (close_rows k closed_externally none s)) in
            rw gone (Quiet-Logged k bar quiet, inl quiet.trades_kept)
        | inr left ↦
            let (logged, sold) = propose_close-trades a k bar i qty s in
            rw left (
              logged,
              elim sold [
                | inl none_sent ↦ inl none_sent
                | inr (one, at_once) ↦
                    inr (i, qty, one, clamped-Sale i hs s.sent _ exactly cleared read at_once left)
              ],
            )
      ]

  Quiet-Sold-trans :
      {s t : Executor} (sent : List Sent)
      → Quiet s t
      → Sold a k bar attributed tracked t.sent sent
      → Sold a k bar attributed tracked s.sent sent
  Quiet-Sold-trans sent h (inl same) = inl (same ∙ h.trades_kept)
  Quiet-Sold-trans sent h (inr (i, qty, one, sale)) =
      inr (i, qty, one ∙ ap (λ (xs : List Sent). Sdk.sell k bar i qty ∷ xs) h.trades_kept, sale)

-- What a close may do: its log and rows, and its trades.
abbrev pub Closes : Answers → Key → ℕ → Float → Executor → Executor → Type 0
Closes a k bar attributed s s' =
    Logged k bar s s' × Sold a k bar attributed (tracked_of (open_position k s.rows)) s.sent s'.sent

-- A close sends at most one proposal to sell: of a finite and positive quantity, not above what is attributed
-- nor above what the broker holds when it is read, in the instrument that the conid resolves to exactly. By that
-- reading the cancellation of the tracked stop and of every live one that the strategy is read to have for the
-- conid has been sent, and between it and the sale nothing is sent. The close proposes nothing else, and it adds
-- at most one row to the log.
pub execute_close-Closes :
    (a : Answers) (k : Key) (bar : ℕ) (attributed : Float) (s : Executor)
    → Closes a k bar attributed s (execute_close a k bar attributed s).1
unfolding execute_close
execute_close-Closes a k bar attributed s = resolved (resolve_exact a.resolver k.1) refl
  where
    resolved :
        (r : Resolved)
        → resolve_exact a.resolver k.1 ≡ r
        → Closes a k bar attributed s (execute_close a k bar attributed s).1
    resolved (exact i) e =
        let cleared = clear_stops a k s in
        let tracked = tracked_of (open_position k s.rows) in
        let quiet = clear_stops-Quiet a k s in
        let holdings = a.close_holdings cleared.sent in
        let (logged, sold) =
          close_read-Sold a k bar attributed tracked i holdings cleared e
            (clear_stops-all_cancelled a k s) refl in
        rw (execute_close, e)
          (
            Quiet-Logged-trans k bar quiet logged,
            Quiet-Sold-trans a k bar attributed tracked
                (close_read a k bar attributed i holdings cleared).1.sent quiet sold,
          )
    resolved imprecise e = rw (execute_close, e) (Quiet-Logged k bar (Quiet-refl s), inl refl)
    resolved unresolved e = rw (execute_close, e) (Quiet-Logged k bar (Quiet-refl s), inl refl)

close_read-ne-refused :
    (a : Answers) (k : Key) (bar : ℕ) (attributed : Float) (i : Ident) (o : Option (List Holding))
    (s : Executor)
    → (close_read a k bar attributed i o s).0 ≢ refused
unfolding close_read propose_close settle_close
close_read-ne-refused a k bar attributed i none s h = cc
close_read-ne-refused a k bar attributed i (some hs) s h = ground arith

-- A refusal has changed nothing.
pub execute_close-refused :
    (a : Answers) (k : Key) (bar : ℕ) (attributed : Float) (s : Executor)
    → (execute_close a k bar attributed s).0 ≡ refused
    → (execute_close a k bar attributed s).1 ≡ s
unfolding execute_close
execute_close-refused a k bar attributed s = resolved (resolve_exact a.resolver k.1) refl
  where
    resolved :
        (r : Resolved)
        → resolve_exact a.resolver k.1 ≡ r
        → (execute_close a k bar attributed s).0 ≡ refused
        → (execute_close a k bar attributed s).1 ≡ s
    resolved (exact i) e h = absurd (
        close_read-ne-refused a k bar attributed i (a.close_holdings (clear_stops a k s).sent)
          (clear_stops a k s) (rw (execute_close, e) at h))
    resolved imprecise e h = rw (execute_close, e) refl
    resolved unresolved e h = rw (execute_close, e) refl
