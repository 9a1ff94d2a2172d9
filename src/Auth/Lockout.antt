-- ===== src/Auth/Lockout.antt =====
-- internal/auth/service.go and internal/store/storedb/login_lockout.sql.go: failed logins lock an
-- account, for twice as long each time up to a maximum.
--
-- The duration is a double in the statement. Doubling is exact on doubles, so a duration of whole
-- microseconds is what the numbers here say, up to an exponent of 1023.
pub mod Guesses
use rize_backend.Base.{
  ℕ, ◌+◌, ◌*◌, ◌%◌, ◌^◌, Bool, true, ◌&&◌, Option, none, some, ltb, leb, if◌then◌else◌,
}
use rize_backend.Instant.{Time, second}
use rize_backend.Auth.{Env}
use rize_backend.Auth.Tables.{User}

-- A setting, or its default.
abbrev pub or_default : ℕ → ℕ → ℕ
or_default n default = if ltb 0 n then n else default

abbrev pub threshold : Env → ℕ
threshold env = or_default env.lockout_threshold 10

abbrev pub base_duration : Env → ℕ
base_duration env = or_default env.lockout_base_duration (900 * second)

abbrev pub max_duration : Env → ℕ
max_duration env = or_default env.lockout_max_duration (86400 * second)

-- `n >= int32(threshold)`; a threshold that wraps to a negative number is always reached.
abbrev pub reaches : ℕ → ℕ → Bool
reaches n limit = let w = limit % 2 ^ 32 in if ltb w (2 ^ 31) then leb w n else true

-- LEAST(base * 2 ^ lockout_count, maximum)
pub lock_duration : ℕ → ℕ → ℕ → ℕ
lock_duration base maximum count = let d = base * 2 ^ count in if ltb maximum d then maximum else d

-- locked_until IS NULL OR locked_until <= now
abbrev pub is_unlocked : Time → Option Time → Bool
is_unlocked now none = true
is_unlocked now (some t) = leb t now

abbrev lock : Env → User → User
lock env u = record u {
  failed_login_attempts = u.failed_login_attempts + 1;
  lockout_count = u.lockout_count + 1;
  locked_until =
      some (env.now + lock_duration (base_duration env) (max_duration env) u.lockout_count);
}

-- RecordFailedLoginAttempt on its row.
pub record_failed_attempt : Env → User → User
record_failed_attempt env u =
    if is_unlocked env.now u.locked_until && reaches (u.failed_login_attempts + 1) (threshold env)
    then lock env u
    else record u { failed_login_attempts = u.failed_login_attempts + 1 }

-- ResetLoginLockout on its row.
abbrev pub cleared : User → User
cleared u = record u { failed_login_attempts = 0; lockout_count = 0; locked_until = none }
