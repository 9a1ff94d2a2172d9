-- ===== src/Sync/Push/Skew.antt =====
-- The clock-skew correction of `applyFocusSession` in internal/sync/service.go.
use rize_backend.Base.{ℕ, ◌+◌, ◌≤◌, ◌<◌, ◌≡◌, arith, if◌then◌else◌}
use rize_backend.Base.Int.{two63, sub_saturated, is_negative, neg64, exceeds}
use rize_backend.Instant.{Time, day}

abbrev pub max_clock_skew : ℕ
max_clock_skew = day

-- The client's `updated_at`, or the server's time.
pub corrected : Time → Time → Time
corrected now updated_at =
    let skew = sub_saturated now updated_at in
    let skew = if is_negative skew then neg64 skew else skew in
    if exceeds skew max_clock_skew then now else updated_at

pub record IsCorrection (now updated_at stored : Time) : Type 0 where
  pub not_ahead : stored ≤ now + max_clock_skew
  pub not_behind : now ≤ stored + max_clock_skew
  pub kept :
      updated_at ≤ now + max_clock_skew → now ≤ updated_at + max_clock_skew → stored ≡ updated_at

-- For a client's `updated_at` under 2 ^ 63 nanoseconds ahead of the server's time, the time
-- stored is within 24 hours of the server's time, and is the client's own if that was.
pub corrected-IsCorrection :
    (now updated_at : Time)
    → updated_at < now + two63
    → IsCorrection now updated_at (corrected now updated_at)
unfolding corrected
corrected-IsCorrection now updated_at h = record {
  not_ahead = ground arith;
  not_behind = ground arith;
  kept = λ a b. ground arith;
}

-- A client's `updated_at` that is 2 ^ 63 nanoseconds or more ahead of the server's time is stored
-- as it is.
pub corrected_far :
    (now updated_at : Time) → now + two63 ≤ updated_at → corrected now updated_at ≡ updated_at
unfolding corrected
corrected_far now updated_at h = ground arith
