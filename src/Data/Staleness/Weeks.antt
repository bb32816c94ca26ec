-- ===== src/Data/Staleness/Weeks.antt =====
-- The count of sessions, without a loop.
use openwallstreet.Prelude.{
  ℕ, zero, suc, ◌+◌, ◌-◌, ◌*◌, ◌/◌, ◌%◌, ◌≡◌, ap, ◌∙◌, arith, leb, ltb, if◌then◌else◌, Bool-cases,
  inl, inr,
}
use openwallstreet.Data.Staleness.{
  Stamp, instant, as_utc, moment, date_of, session, count_sessions, sessions_between, sessions,
  sessions_behind,
}

-- The weekdays up to a day: five of each full week, and five at most of the last one.
abbrev pub weekdays : ℕ → ℕ
weekdays day = 5 * (day / 7) + (if ltb (day % 7) 5 then day % 7 else 5)

sum_le : (a b n : ℕ) → n + a ≡ 0 + b → 0 ≡ a - b
sum_le a b n h = omega arith

sum_sub : (a b n : ℕ) → n + b ≡ 0 + a → n ≡ a - b
sum_sub a b n h = omega arith

weekdays-next : (day : ℕ) → weekdays (day + 1) ≡ weekdays day + session (day + 1)
weekdays-next day = grind arith

count_sessions-weekdays :
    (left cursor days : ℕ)
    → count_sessions left (cursor + 1) days + weekdays cursor ≡ days + weekdays (cursor + left)
unfolding count_sessions
count_sessions-weekdays zero cursor days = grind arith
count_sessions-weekdays (suc left) cursor days = grind (
  arith,
  count_sessions-weekdays left (cursor + 1) (days + session (cursor + 1)),
  weekdays-next cursor,
)

sessions_between-weekdays :
    (start end : ℕ) → sessions_between start end ≡ weekdays end - weekdays start
unfolding sessions_between
sessions_between-weekdays start end = elim (Bool-cases (leb end start)) [
  | inl current ↦
      let later = count_sessions-weekdays (start - end) end 0 in
      let there : end + (start - end) ≡ start = ground arith in
      rw (sessions_between, current)
        (sum_le (weekdays end) (weekdays start) _ (later ∙ ap (λ m. 0 + weekdays m) there))
  | inr behind ↦
      let later = count_sessions-weekdays (end - start) start 0 in
      let there : start + (end - start) ≡ end = ground arith in
      rw (sessions_between, behind)
        (sum_sub (weekdays end) (weekdays start) _ (later ∙ ap (λ m. 0 + weekdays m) there))
]

-- Between two readable moments the number of sessions behind is the difference of the weekdays up to
-- either day in UTC, and 0 where the bar is not older than the day asked about.
pub sessions_behind-weekdays :
    (clock : ℕ) (last_bar now : Stamp) (last current : ℕ)
    → as_utc last_bar ≡ instant last
    → moment clock now ≡ instant current
    → sessions_behind clock last_bar now
      ≡ sessions (weekdays (date_of current) - weekdays (date_of last))
unfolding sessions_behind
sessions_behind-weekdays clock last_bar now last current read asked =
    rw (sessions_behind, read, asked)
      (ap sessions (sessions_between-weekdays (date_of last) (date_of current)))
