-- ===== src/Reports/Service.antt =====
-- internal/reports/service.go: the report endpoints below the HTTP layer.
pub mod Requests
use rize_backend.Base.{
  ℕ, zero, suc, ◌+◌, ◌-◌, ◌*◌, ◌/◌, ◌%◌, ◌^◌, ◌≤◌, ◌<◌, String, ◌≡◌, refl, sym, ap, ◌∙◌, ◌≢◌, ◌↔◌,
  ◌⊎◌, inl, inr, Bool, true, false, not, ◌&&◌, ◌||◌, Option, none, some, List, [], ◌∷◌, ◌++◌, map,
  arith, ltb, leb, ◌==◌, if◌then◌else◌, ltb→lt, lt→ltb, ltb-false→le, le→ltb-false, leb→le, ==_iff,
  Bool-cases, Option-cases, length, take, drop, keep, any, All, last?, length-append,
  take-append-drop, length-take, length-drop, sum,
}
use rize_backend.Base.{str_eq}
use rize_backend.Base.Result.{Result, ok, err, ◌>>=◌, ◌>>◌, require, or_fail}
use rize_backend.Instant.{Time, day, is_zero}
use rize_backend.Store.TimeRange.{RangeError, from_after_to, range_too_long, validate_range}
use rize_backend.Reports.Window.{day_start}
use rize_backend.Reports.Bucket.{Bucket, sum_seconds, to_sorted_slice}
use rize_backend.Reports.Totals.{
  Error, validation, Queries, Filters, valid_precision, category_totals, app_totals, project_totals,
}

-- The result of a breakdown by category, app or project.
pub record Breakdown : Type 0 where
  pub from : Time
  pub to : Time
  pub buckets : List Bucket

pub record Summary : Type 0 where
  pub from : Time
  pub to : Time
  pub total_tracked_seconds : ℕ
  pub categories : List Bucket

pub record Daily : Type 0 where
  pub date : Time
  pub total_tracked_seconds : ℕ
  pub categories : List Bucket

range_error : Option RangeError → Result Error (Unit {0})
range_error none = ok tt
range_error (some from_after_to) = err (validation "from must not be after to")
range_error (some range_too_long) =
    err (validation "requested range exceeds the maximum allowed range of 366 days")

check_range : Time → Time → Result Error (Unit {0})
unfolding range_error
check_range from to = do
  require (not (is_zero from || is_zero to)) (validation "from and to are required")
  range_error (validate_range from to)

validate_precision : Filters → Result Error (Unit {0})
validate_precision f =
    require (str_eq f.precision "" || valid_precision f.precision)
      (validation "precision must be one of exact, approximate")

-- What every ranged endpoint does before it reads any total: the caller's id, or an error.
admit : Queries → String → Time → Time → Filters → Result Error String
unfolding check_range validate_precision
admit q user_id from to f = do
  uid ← or_fail (q.parse_uuid user_id) (validation "invalid authenticated user id")
  check_range from to
  validate_precision f
  ok uid

pub categories : Queries → String → Time → Time → Time → Filters → Result Error Breakdown
unfolding admit
categories q user_id from to now f = do
  uid ← admit q user_id from to f
  totals ← category_totals q uid from to now f
  ok (record { from = from; to = to; buckets = to_sorted_slice totals })

pub apps : Queries → String → Time → Time → Time → Filters → Result Error Breakdown
unfolding admit
apps q user_id from to now f = do
  uid ← admit q user_id from to f
  totals ← app_totals q uid from to now f
  ok (record { from = from; to = to; buckets = to_sorted_slice totals })

pub projects : Queries → String → Time → Time → Filters → Result Error Breakdown
unfolding admit
projects q user_id from to f = do
  uid ← admit q user_id from to f
  totals ← project_totals q uid from to f
  ok (record { from = from; to = to; buckets = to_sorted_slice totals })

unfoldable pub summary : Queries → String → Time → Time → Time → Filters → Result Error Summary
unfolding admit
summary q user_id from to now f = do
  uid ← admit q user_id from to f
  totals ← category_totals q uid from to now f
  ok (record {
    from = from;
    to = to;
    total_tracked_seconds = sum_seconds totals;
    categories = to_sorted_slice totals;
  })

pub daily : Queries → String → Time → Time → Filters → Result Error Daily
unfolding validate_precision
daily q user_id date now f = do
  uid ← or_fail (q.parse_uuid user_id) (validation "invalid authenticated user id")
  validate_precision f
  let from = day_start date
  totals ← category_totals q uid from (from + day) now f
  ok (record {
    date = from;
    total_tracked_seconds = sum_seconds totals;
    categories = to_sorted_slice totals;
  })
