-- ===== src/Strategy/Decision/Rules.antt =====
-- When `decide_signal` opens and when it closes.
use openwallstreet.Prelude.{
  ◌≡◌, ◌≢◌, ◌↔◌, ◌⊎◌, inl, inr, refl, sym, ap, ◌∙◌, ℕ, true, false, none, some, arith, pos, leb_ℤ,
  ltb_ℤ, Bool-cases, Option-cases,
}
use openwallstreet.Float
use openwallstreet.Float.{Float, zero_float}
use openwallstreet.Placement.Direct.{Action, buy, sell, neutral, is_buy, is_sell}
use openwallstreet.Strategy.Decision.{
  SignalWork, Directive, is_outside, at_cap, check_manifest, skip, open_position, close_position,
  Gates, is_held, decide_fresh, decide_buy, decide_sell, decide_action, decide_signal,
}

-- What every directive but a skip needs.
pub record IsAllowed (w : SignalWork) (g : Gates) : Type 0 where
  pub not_killed : g.kill_switch ≡ false
  pub running : w.state_running ≡ true
  pub matching : (w.paper_only ≡ false) ⊎ (g.paper_trading ≡ true)
  pub new_bar : g.already_executed_bar ≡ false

-- Room for a position, or for a further lot of the one that is held.
abbrev pub HasRoom : SignalWork → Gates → Type 0
HasRoom w g =
    (is_held g ≡ false)
    ⊎ ((leb_ℤ w.pyramid_max_adds (pos 0) ≡ false)
        × (ltb_ℤ w.pyramid_max_adds (pos g.held_lots) ≡ false))

-- A bar of known age that is not too old, where its interval is known.
abbrev pub IsFresh : SignalWork → Gates → Type 0
IsFresh w g =
    (age : Float) × (g.age ≡ some age)
    × ((Float.lt zero_float w.bar_size_seconds ≡ false)
        ⊎ (Float.lt (Float.mul g.stale_bar_multiple w.bar_size_seconds) age ≡ false))

pub record IsOpening (w : SignalWork) (g : Gates) : Type 0 where
  pub allowed : IsAllowed w g
  pub auto : w.auto_execute ≡ true
  pub bought : w.action ≡ buy
  pub armed : (g.paper_trading ≡ true) ⊎ (g.live_armed ≡ true)
  pub room : HasRoom w g
  pub fresh : IsFresh w g
  pub rested : g.cooldown_active ≡ false

pub record IsClosing (w : SignalWork) (g : Gates) : Type 0 where
  pub allowed : IsAllowed w g
  pub sold : w.action ≡ sell
  pub not_flat : Float.le g.held_qty zero_float ≡ false
  pub auto : (w.auto_execute ≡ true) ⊎ (is_held g ≡ true)

is_buy-eq : (x : Action) → is_buy x ≡ true → x ≡ buy
is_buy-eq buy h = refl
is_buy-eq sell h = cc
is_buy-eq neutral h = cc

is_sell-eq : (x : Action) → is_sell x ≡ true → x ≡ sell
is_sell-eq sell h = refl
is_sell-eq buy h = cc
is_sell-eq neutral h = cc

decide_fresh-IsFresh :
    (w : SignalWork) (g : Gates)
    → (decide_fresh w g).kind ≡ open_position
    → IsFresh w g × (g.cooldown_active ≡ false)
unfolding decide_fresh
decide_fresh-IsFresh w g h = elim (Option-cases g.age) [
  | inl unknown ↦ absurd (ground (arith, unknown))
  | inr (age, known) ↦ ((age, known, ground (arith, known)), ground (arith, known))
]

decide_buy-opens :
    (w : SignalWork) (g : Gates)
    → (decide_buy w g).kind ≡ open_position
    → ((g.paper_trading ≡ true) ⊎ (g.live_armed ≡ true))
      × HasRoom w g
      × ((decide_fresh w g).kind ≡ open_position)
unfolding decide_buy
decide_buy-opens w g h = (ground arith, ground arith, ground arith)

decide_sell-never_opens : (g : Gates) → (decide_sell g).kind ≢ open_position
unfolding decide_sell
decide_sell-never_opens g h = ground arith

decide_action-opens :
    (w : SignalWork) (g : Gates)
    → (decide_action w g).kind ≡ open_position
    → (w.action ≡ buy) × ((decide_buy w g).kind ≡ open_position)
unfolding decide_action
decide_action-opens w g h = elim (Bool-cases (is_buy w.action)) [
  | inl b ↦ (is_buy-eq w.action b, rw b at h)
  | inr n ↦ absurd (ground (arith, n, decide_sell-never_opens g))
]

pub decide_signal-IsAllowed :
    (w : SignalWork) (g : Gates) → (decide_signal w g).kind ≢ skip → IsAllowed w g
unfolding decide_signal
decide_signal-IsAllowed w g h = ground arith

decide_signal-opens :
    (w : SignalWork) (g : Gates)
    → (decide_signal w g).kind ≡ open_position
    → (decide_action w g).kind ≡ open_position
unfolding decide_signal
decide_signal-opens w g h = ground arith

decide_signal-auto :
    (w : SignalWork) (g : Gates)
    → (decide_signal w g).kind ≢ skip
    → (w.auto_execute ≡ true) ⊎ ((is_sell w.action ≡ true) × (is_held g ≡ true))
unfolding decide_signal
decide_signal-auto w g h = ground arith

opens-IsOpening :
    (w : SignalWork) (g : Gates) → (decide_signal w g).kind ≡ open_position → IsOpening w g
opens-IsOpening w g h =
    let (b, buying) = decide_action-opens w g (decide_signal-opens w g h) in
    let (armed, room, opens) = decide_buy-opens w g buying in
    let (fresh, rested) = decide_fresh-IsFresh w g opens in
    record {
      allowed = decide_signal-IsAllowed w g (λ s. cc (h, s));
      auto = elim (decide_signal-auto w g (λ s. cc (h, s))) [
        | inl on ↦ on
        | inr (sold, held) ↦ cc (sold, ap is_sell b)
      ];
      bought = b;
      armed = armed;
      room = room;
      fresh = fresh;
      rested = rested;
    }

IsFresh-decide_fresh :
    (w : SignalWork) (g : Gates)
    → IsFresh w g
    → g.cooldown_active ≡ false
    → (decide_fresh w g).kind ≡ open_position
unfolding decide_fresh
IsFresh-decide_fresh w g (age, known, young) rested = ground (arith, known)

IsAllowed-decide_signal :
    (w : SignalWork) (g : Gates)
    → IsAllowed w g
    → w.auto_execute ≡ true
    → decide_signal w g ≡ decide_action w g
unfolding decide_signal
IsAllowed-decide_signal w g h auto = ground arith

IsOpening-opens :
    (w : SignalWork) (g : Gates) → IsOpening w g → (decide_signal w g).kind ≡ open_position
unfolding decide_action decide_buy
IsOpening-opens w g h =
    rw (IsAllowed-decide_signal w g h.allowed h.auto) (
      ground
        (arith, ap is_buy h.bought, h.armed, h.room, IsFresh-decide_fresh w g h.fresh h.rested))

-- `decide_signal` opens exactly when the kill switch is off, the strategy runs, is armed and fits the
-- account, the bar has not been executed, the signal is a BUY, a live account is armed, there is room for a
-- lot, the bar's age is known and does not test as stale (a comparison with NaN never does), and no cooldown
-- is on.
pub decide_signal-opens_iff :
    (w : SignalWork) (g : Gates) → ((decide_signal w g).kind ≡ open_position) ↔ IsOpening w g
decide_signal-opens_iff w g = (opens-IsOpening w g, IsOpening-opens w g)

decide_fresh-never_closes : (w : SignalWork) (g : Gates) → (decide_fresh w g).kind ≢ close_position
unfolding decide_fresh
decide_fresh-never_closes w g h = ground arith

decide_buy-never_closes : (w : SignalWork) (g : Gates) → (decide_buy w g).kind ≢ close_position
unfolding decide_buy
decide_buy-never_closes w g h = ground (arith, decide_fresh-never_closes w g)

decide_action-closes :
    (w : SignalWork) (g : Gates)
    → (decide_action w g).kind ≡ close_position
    → (is_sell w.action ≡ true) × (Float.le g.held_qty zero_float ≡ false)
unfolding decide_action decide_sell
decide_action-closes w g h = elim (Bool-cases (is_buy w.action)) [
  | inl b ↦ absurd (ground (arith, b, decide_buy-never_closes w g))
  | inr n ↦ (ground (arith, n), ground (arith, n))
]

decide_signal-closes :
    (w : SignalWork) (g : Gates)
    → (decide_signal w g).kind ≡ close_position
    → (decide_action w g).kind ≡ close_position
unfolding decide_signal
decide_signal-closes w g h = ground arith

closes-IsClosing :
    (w : SignalWork) (g : Gates) → (decide_signal w g).kind ≡ close_position → IsClosing w g
closes-IsClosing w g h =
    let (sold, held) = decide_action-closes w g (decide_signal-closes w g h) in
    record {
      allowed = decide_signal-IsAllowed w g (λ s. cc (h, s));
      sold = is_sell-eq w.action sold;
      not_flat = held;
      auto = elim (decide_signal-auto w g (λ s. cc (h, s))) [
        | inl on ↦ inl on
        | inr (_, positive) ↦ inr positive
      ];
    }

IsClosing-closes :
    (w : SignalWork) (g : Gates) → IsClosing w g → (decide_signal w g).kind ≡ close_position
unfolding decide_signal decide_action decide_sell
IsClosing-closes w g h = ground (
  arith,
  ap is_buy h.sold,
  ap is_sell h.sold,
  h.auto,
  h.not_flat,
  h.allowed.not_killed,
  h.allowed.running,
  h.allowed.matching,
  h.allowed.new_bar,
)

-- `decide_signal` closes exactly when the kill switch is off, the strategy runs and fits the account, the bar
-- has not been executed, the signal is a SELL, what is held does not test as 0 or less, and the strategy is
-- armed or holds more than 0: no arming of the account, cooldown, age of the bar or pyramid stops a close.
pub decide_signal-closes_iff :
    (w : SignalWork) (g : Gates) → ((decide_signal w g).kind ≡ close_position) ↔ IsClosing w g
decide_signal-closes_iff w g = (closes-IsClosing w g, IsClosing-closes w g)

decide_action-quantity :
    (w : SignalWork) (g : Gates)
    → (decide_action w g).kind ≡ close_position
    → (decide_action w g).quantity ≡ some g.held_qty
unfolding decide_action decide_sell
decide_action-quantity w g h = elim (Bool-cases (is_buy w.action)) [
  | inl b ↦ absurd (ground (arith, b, decide_buy-never_closes w g))
  | inr n ↦ ground (arith, n)
]

decide_signal-action :
    (w : SignalWork) (g : Gates)
    → (decide_signal w g).kind ≢ skip
    → decide_signal w g ≡ decide_action w g
unfolding decide_signal
decide_signal-action w g h = ground arith

-- A close is of all that is held.
pub decide_signal-quantity :
    (w : SignalWork) (g : Gates)
    → (decide_signal w g).kind ≡ close_position
    → (decide_signal w g).quantity ≡ some g.held_qty
decide_signal-quantity w g h =
    let same = decide_signal-action w g (λ s. cc (h, s)) in
    ap (λ (d : Directive). d.quantity) same
    ∙ decide_action-quantity w g (sym (ap (λ (d : Directive). d.kind) same) ∙ h)

-- What the manifest of a strategy allows an open to do.
pub record IsDeclared (w : SignalWork) (opens_today opens_hour : ℕ) : Type 0 where
  pub universe : is_outside w.conid w.manifest_allowed_conids ≡ false
  pub day : at_cap w.manifest_max_opens_per_day opens_today ≡ false
  pub hour : at_cap w.manifest_max_opens_per_hour opens_hour ≡ false

pub check_manifest-IsDeclared :
    (w : SignalWork) (d : Directive) (m n : ℕ) → check_manifest w d m n ≡ none → IsDeclared w m n
unfolding check_manifest
check_manifest-IsDeclared w d m n h = ground arith
