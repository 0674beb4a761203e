-- ===== src/Clock.antt =====
-- The parts of Go's `time` package that the program uses. An instant is its distance in nanoseconds
-- from Go's zero time (1 January of year 1, UTC), so `UTC()` changes nothing; a `time.Duration` is
-- an int64 of nanoseconds.
use openclaw_p2p.Prelude.{ℕ, ◌+◌, ◌-◌, ◌*◌, ℤ, pos_part, neg_part, Bool, ltb, eqb}

abbrev pub Time : Type 0
Time = ℕ

-- t.IsZero()
abbrev pub is_zero : Time → Bool
is_zero t = eqb t 0

-- t.After(u)
abbrev pub after : Time → Time → Bool
after t u = ltb u t

-- time.Second, time.Minute, time.Hour
abbrev pub second : ℕ
second = 1000000000

abbrev pub minute : ℕ
minute = 60 * second

abbrev pub hour : ℕ
hour = 60 * minute

-- t.Add(d), which for the durations of this program stays after year 1
abbrev pub add : Time → ℤ → Time
add t d = t + pos_part d - neg_part d
