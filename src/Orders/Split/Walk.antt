-- ===== src/Orders/Split/Walk.antt =====
-- The loop of `split_order` that steps the opening half down by one double at a time.
use mathlib.Core.WellFounded.{Acc}
use openwallstreet.Prelude.{
  ℕ, zero, suc, ◌<◌, ◌≡◌, refl, true, false, ℤ, pos, ◌-◌, lt_wf, zero-lt, Bool-cases, if◌then◌else◌,
  ◌⊎◌, inl, inr,
}
use openwallstreet.Float
use openwallstreet.Float.{Float, inf, fin, overflow, quantum, previous, previous-lt}

-- `while open_qty > 0.0 and available + open_qty > qty: open_qty = nextafter(open_qty, 0.0)` on a finite
-- opening half of `suc n` units.
walk : Float → Float → (n : ℕ) → Acc ◌<◌ n → ℕ
walk available qty zero w = 0
walk available qty (suc n) (Acc.intro _ smaller) =
    let rest =
      walk available qty (previous (suc n))
        (smaller (previous (suc n)) (previous-lt (suc n) (zero-lt n))) in
    if Float.lt qty (Float.add available (fin (pos (suc n)))) then rest else suc n

-- The loop on any opening half. What is not positive is left alone; an infinity steps to the largest double.
unfoldable pub step_down : Float → Float → Float → Float
unfolding walk lt_wf
step_down available qty (fin (pos n)) = fin (pos (walk available qty n (lt_wf.apply n)))
step_down available qty inf =
    let n = overflow - quantum (overflow - 1) in
    elim (Float.lt qty (Float.add available inf)) [
      | true ↦ fin (pos (walk available qty n (lt_wf.apply n)))
      | false ↦ inf
    ]
step_down available qty x = x

-- When the walk ends the halves fit into the request, or nothing is left to open.
walk-stops :
    (available qty : Float) (n : ℕ) (w : Acc ◌<◌ n)
    → (walk available qty n w ≡ 0)
      ⊎ (Float.lt qty (Float.add available (fin (pos (walk available qty n w)))) ≡ false)
unfolding walk
walk-stops available qty zero w = inl refl
walk-stops available qty (suc n) (Acc.intro _ smaller) =
    elim (Bool-cases (Float.lt qty (Float.add available (fin (pos (suc n)))))) [
      | inl over ↦ rw (over) (
          walk-stops available qty (previous (suc n)) (smaller _ (previous-lt (suc n) (zero-lt n))))
      | inr fits ↦ rw fits (inr fits)
    ]

-- From a finite opening half that is not negative, or from an overflow, the loop ends at a finite half
-- that fits into the request, or at none.
abbrev pub Ends : Float → Float → Float → Type 0
Ends available qty x =
    (m : ℕ) × (step_down available qty x ≡ fin (pos m))
    × ((m ≡ 0) ⊎ (Float.lt qty (Float.add available (fin (pos m))) ≡ false))

pub step_down-Ends : (available qty : Float) (n : ℕ) → Ends available qty (fin (pos n))
unfolding step_down
step_down-Ends available qty n =
    (walk available qty n (lt_wf.apply n), refl, walk-stops available qty n (lt_wf.apply n))

pub step_down-Ends_inf : (a q : ℤ) → Ends (fin a) (fin q) inf
unfolding step_down Float.add Float.lt
step_down-Ends_inf a q =
    let n = overflow - quantum (overflow - 1) in
    (walk (fin a) (fin q) n (lt_wf.apply n), refl, walk-stops (fin a) (fin q) n (lt_wf.apply n))

-- A half that fits is left alone.
pub step_down-fits :
    (available qty : Float) (n : ℕ)
    → Float.lt qty (Float.add available (fin (pos n))) ≡ false
    → step_down available qty (fin (pos n)) ≡ fin (pos n)
unfolding step_down walk lt_wf
step_down-fits available qty zero h = refl
step_down-fits available qty (suc n) h = rw h refl
