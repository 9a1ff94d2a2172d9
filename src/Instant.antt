-- ===== src/Instant.antt =====
-- Go's `time.Time` and `time.Duration`, as the server uses them.
--
-- An instant is a count of nanoseconds since Go's zero time, 0001-01-01T00:00:00Z, so that
-- `IsZero` is `== 0` and UTC midnights are the multiples of a day (Go has no leap seconds).
-- Instants before the zero time are not modelled.
use rize_backend.Base.{ℕ, ◌-◌, ◌*◌, ◌/◌, Bool, ltb, ◌==◌}

abbrev pub Time : Type 0
Time = ℕ

abbrev pub second : ℕ
second = 1000000000

abbrev pub day : ℕ
day = 86400 * second

-- t.Before(u)
abbrev pub before : Time → Time → Bool
before t u = ltb t u

-- t.After(u)
abbrev pub after : Time → Time → Bool
after t u = ltb u t

-- t.Equal(u)
abbrev pub equal : Time → Time → Bool
equal t u = t == u

-- t.IsZero()
abbrev pub is_zero : Time → Bool
is_zero t = t == 0

-- int64(u.Sub(t).Seconds()) for t ≤ u: the whole seconds.
abbrev pub whole_seconds : Time → Time → ℕ
whole_seconds t u = (u - t) / second
