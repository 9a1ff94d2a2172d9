-- ===== src/Store/TimeRange.antt =====
-- internal/store/timerange.go
use rize_backend.Base.{ℕ, ◌+◌, ◌*◌, ◌≤◌, ◌≡◌, ◌↔◌, Option, none, some, arith, if◌then◌else◌}
use rize_backend.Base.Int.{sub_saturated, exceeds}
use rize_backend.Instant.{Time, day, after}

abbrev pub max_report_range : ℕ
max_report_range = 366 * day

pub data RangeError : Type 0 where
  from_after_to range_too_long : RangeError

-- The error of `ValidateRange`, if any. `to.Sub(from)` is clamped to the range of `int64`.
unfoldable pub validate_range : Time → Time → Option RangeError
validate_range from to =
    if after from to
    then some from_after_to
    else if exceeds (sub_saturated to from) max_report_range
    then some range_too_long
    else none

-- A range is accepted exactly if it is in order and at most 366 days long, even where the
-- difference of its ends is clamped to `int64`.
pub validate_range_iff :
    (from to : Time)
    → (validate_range from to ≡ none) ↔ ((from ≤ to) × (to ≤ from + max_report_range))
unfolding validate_range
validate_range_iff from to = ground arith
