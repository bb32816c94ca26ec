-- ===== src/Data/Staleness.antt =====
-- trader/data/bar_staleness.py. A wall clock is a number of microseconds from the start of day 0, the day
-- before 0001-01-01, so its days are Python's ordinals; an offset of a time zone is in microseconds. All
-- times are before the year 10000.
pub mod Weeks
use openwallstreet.Prelude.{
  ℕ, zero, suc, ◌+◌, ◌-◌, ◌*◌, ◌/◌, ◌%◌, Bool, true, false, Option, none, some, leb, ltb,
  if◌then◌else◌, ℤ, pos, negsuc,
}

-- A value that may be a datetime; a pandas Timestamp is the datetime that it converts to, or none of these.
pub data Stamp : Type 0 where
  absent other : Stamp
  naive : ℕ → Stamp
  aware : ℕ → ℤ → Stamp

-- `astimezone(utc)`; none is the OverflowError of a time before year 1.
unfoldable pub to_utc : ℕ → ℤ → Option ℕ
to_utc wall (pos offset) = if ltb wall (offset + 86400000000) then none else some (wall - offset)
to_utc wall (negsuc offset) = some (wall + suc offset)

pub data AsUtc : Type 0 where
  unknown overflow : AsUtc
  instant : ℕ → AsUtc

-- `_as_utc`
unfoldable pub as_utc : Stamp → AsUtc
unfolding to_utc
as_utc absent = unknown
as_utc other = unknown
as_utc (naive wall) = instant wall
as_utc (aware wall offset) = elim (to_utc wall offset) [ none ↦ overflow | some t ↦ instant t ]

-- `.date()`, as an ordinal
abbrev pub date_of : ℕ → ℕ
date_of t = t / 86400000000

-- `.weekday()`: 0 is Monday, as 0001-01-01 was.
abbrev pub weekday : ℕ → ℕ
weekday day = (day + 6) % 7

-- `cursor.weekday() < 5`, as a count
abbrev pub session : ℕ → ℕ
session day = if ltb (weekday day) 5 then 1 else 0

-- The loop, over the days that are left from the cursor on.
unfoldable pub count_sessions : ℕ → ℕ → ℕ → ℕ
count_sessions zero cursor days = days
count_sessions (suc left) cursor days = count_sessions left (cursor + 1) (days + session cursor)

-- The sessions after `start`, up to `end`.
unfoldable pub sessions_between : ℕ → ℕ → ℕ
unfolding count_sessions
sessions_between start end = if leb end start then 0 else count_sessions (end - start) (start + 1) 0

-- The answers of `sessions_behind`: a number, None, or an OverflowError.
pub data Behind : Type 0 where
  sessions : ℕ → Behind
  not_known raised : Behind

-- The moment that is asked about, the clock's where none is given.
unfoldable pub moment : ℕ → Stamp → AsUtc
unfolding as_utc
moment clock absent = instant clock
moment clock other = as_utc other
moment clock (naive wall) = as_utc (naive wall)
moment clock (aware wall offset) = as_utc (aware wall offset)

-- `sessions_behind`
unfoldable pub sessions_behind : ℕ → Stamp → Stamp → Behind
unfolding as_utc moment sessions_between
sessions_behind clock last_bar now = elim (as_utc last_bar) [
  | unknown ↦ not_known
  | overflow ↦ raised
  | instant last ↦ elim (moment clock now) [
    | unknown ↦ not_known
    | overflow ↦ raised
    | instant current ↦ sessions (sessions_between (date_of last) (date_of current))
  ]
]
