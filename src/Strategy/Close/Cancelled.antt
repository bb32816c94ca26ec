-- ===== src/Strategy/Close/Cancelled.antt =====
-- What a close cancels before it reads the position.
use openwallstreet.Prelude.{
  ℕ, ◌≡◌, refl, arith, Bool, true, false, not, ◌&&◌, ◌||◌, List, [], ◌∷◌, eqb, Bool-cases, inl, inr,
  ◌==◌, same_refl,
}
use openwallstreet.Data.Ledger.{Key, key_eq}
use openwallstreet.Strategy.State.{open_position}
use openwallstreet.Strategy.Sdk.{
  Answers, own_live_protectives, Sent, buy, sell, approve, cancel, protect,
}
use openwallstreet.Strategy.Stops.{Executor, cancel_protective}
use openwallstreet.Strategy.Close.{sweep, tracked_of, clear_stops}

-- Whether the cancellation of an order of the key has been sent.
unfoldable pub is_cancelled : Key → ℕ → List Sent → Bool
is_cancelled k o [] = false
is_cancelled k o (cancel j n ∷ xs) = (j == k && eqb o n) || is_cancelled k o xs
is_cancelled k o (buy j bar i q m c ∷ xs) = is_cancelled k o xs
is_cancelled k o (sell j bar i q ∷ xs) = is_cancelled k o xs
is_cancelled k o (approve n ∷ xs) = is_cancelled k o xs
is_cancelled k o (protect j i q p ∷ xs) = is_cancelled k o xs

-- There is no such order, or it is cancelled.
abbrev is_done : Key → List Sent → ℕ → Bool
is_done k sent o = eqb o 0 || is_cancelled k o sent

-- Every order but 0.
unfoldable pub all_cancelled : Key → List ℕ → List Sent → Bool
all_cancelled k [] sent = true
all_cancelled k (o ∷ os) sent = is_done k sent o && all_cancelled k os sent

cancel_protective-keeps :
    (k : Key) (o n : ℕ) (s : Executor)
    → is_done k s.sent o ≡ true
    → is_done k (cancel_protective k n s).sent o ≡ true
unfolding cancel_protective is_cancelled
cancel_protective-keeps k o n s h = ground arith

cancel_protective-is_done :
    (k : Key) (o : ℕ) (s : Executor) → is_done k (cancel_protective k o s).sent o ≡ true
unfolding cancel_protective is_cancelled
cancel_protective-is_done k o s = ground (arith, same_refl k)

sweep-keeps :
    (k : Key) (tracked o : ℕ) (os : List ℕ) (s : Executor)
    → is_done k s.sent o ≡ true
    → is_done k (sweep k tracked os s).sent o ≡ true
unfolding sweep
sweep-keeps k tracked o [] s h = h
sweep-keeps k tracked o (n ∷ os) s h = elim (Bool-cases (not (eqb tracked 0) && eqb n tracked)) [
  | inl own ↦ rw (sweep, own) (sweep-keeps k tracked o os s h)
  | inr other ↦
      rw (sweep, other)
        (sweep-keeps k tracked o os (cancel_protective k n s) (cancel_protective-keeps k o n s h))
]

sweep-all_cancelled :
    (k : Key) (tracked : ℕ) (os : List ℕ) (s : Executor)
    → is_done k s.sent tracked ≡ true
    → all_cancelled k os (sweep k tracked os s).sent ≡ true
unfolding all_cancelled sweep
sweep-all_cancelled k tracked [] s h = refl
sweep-all_cancelled k tracked (o ∷ os) s h =
    elim (Bool-cases (not (eqb tracked 0) && eqb o tracked)) [
      | inl own ↦
          let same : o ≡ tracked = ground arith in
          rw (sweep, own)
            (both (sweep-keeps k tracked o os s (rw same h)) (sweep-all_cancelled k tracked os s h))
      | inr other ↦
          let next = cancel_protective k o s in
          rw (sweep, other)
            (both (sweep-keeps k tracked o os next (cancel_protective-is_done k o s))
              (sweep-all_cancelled k tracked os next (cancel_protective-keeps k tracked o s h)))
    ]
  where
    both : {a b : Bool} → a ≡ true → b ≡ true → (a && b) ≡ true
    both e f = rw (e, f) refl

-- The cancellation of the tracked stop and of every live one of the strategy for the conid has been sent.
pub clear_stops-all_cancelled :
    (a : Answers) (k : Key) (s : Executor)
    → all_cancelled k
        (tracked_of (open_position k s.rows) ∷ own_live_protectives k a.close_trades)
        (clear_stops a k s).sent
      ≡ true
unfolding all_cancelled clear_stops
clear_stops-all_cancelled a k s =
    let tracked = tracked_of (open_position k s.rows) in
    let own = own_live_protectives k a.close_trades in
    let next = cancel_protective k tracked s in
    let done = cancel_protective-is_done k tracked s in
    rw (sweep-keeps k tracked tracked own next done, sweep-all_cancelled k tracked own next done)
      refl
