-- ===== src/Reports/Tests.antt =====
-- Runs of the reports at concrete inputs.
use rize_backend.Base.{
  ◌+◌, ◌-◌, ◌*◌, ◌≤◌, String, ◌≡◌, refl, Option, none, some, List, [], ◌∷◌, arith, All,
}
use rize_backend.Base.Result.{Result, ok, err, ◌>>=◌}
use rize_backend.Instant.{Time, second, day}
use rize_backend.Reports.Window.{split_closed_open}
use rize_backend.Reports.Window.Cover.{
  times_counted, split_closed_open-cover, IsClosedPart, split_closed_open-IsClosedPart,
}
use rize_backend.Reports.Trim.{Interval, merge_and_sum, per_device_seconds}
use rize_backend.Reports.Trim.Cap.{per_device_seconds_cap}
use rize_backend.Reports.Trim.Measure.{measure, interval}
use rize_backend.Reports.Trim.Sorting.{EndsBy, IsWhole}
use rize_backend.Reports.Trim.Union.{merge_and_sum_union, merge_and_sum_exact}
use rize_backend.Reports.Grouping.{RawRow, dim_app, dim_category, group_rows}
use rize_backend.Reports.Grouping.Lookup.{events_at, events_of, events_at-group_rows}
use rize_backend.Reports.Bucket.{Bucket, to_sorted_slice}
use rize_backend.Reports.Bucket.Order.{IsReportOf, to_sorted_slice-IsReportOf}
use rize_backend.Reports.Totals.{Error, Queries, category_rows, category_totals}
use rize_backend.Store.TimeRange.{validate_range}
use rize_backend.Reports.Totals.Sums.{
  total_of, raw_windows_total, closed_total, no_filters, total-category_totals,
}
use rize_backend.Reports.Service.{Summary, summary}
use rize_backend.Reports.Service.Requests.{IsSummary, summary-IsSummary}

-- From noon to the third midnight, asked in the third day.
abbrev noon : Time
noon = 43200 * second

abbrev to : Time
to = 3 * day

abbrev now : Time
now = 2 * day + 60 * second

split_closed_open-cover_example : times_counted (day + 5) (split_closed_open noon to now) ≡ 1
split_closed_open-cover_example = split_closed_open-cover noon to now (day + 5)

split_closed_open-IsClosedPart_example :
    IsClosedPart noon to now (split_closed_open noon to now).closed
split_closed_open-IsClosedPart_example =
    split_closed_open-IsClosedPart noon to now (unfold split_closed_open in refl)

-- Two events that overlap by a second.
abbrev events : List Interval
events = interval second (3 * second) ∷ interval (2 * second) (4 * second) ∷ []

events_end : All (EndsBy (5 * second)) events
events_end = (
  record { nonempty = omega arith; by = omega arith },
  (record { nonempty = omega arith; by = omega arith }, tt),
)

events-IsWhole : All IsWhole events
events-IsWhole = (record { start = refl; end = refl }, (record { start = refl; end = refl }, tt))

per_device_seconds_cap_example :
    per_device_seconds second (3 * second) (("mac", events) ∷ ("phone", events) ∷ []) ≤ 4
per_device_seconds_cap_example =
    per_device_seconds_cap second (3 * second) (("mac", events) ∷ ("phone", events) ∷ [])

merge_and_sum_union_example :
    (merge_and_sum events * second ≤ measure (5 * second) events)
    × (measure (5 * second) events ≤ merge_and_sum events * second + 2 * (second - 1))
merge_and_sum_union_example = merge_and_sum_union (5 * second) events events_end

merge_and_sum_exact_example : merge_and_sum events * second ≡ measure (5 * second) events
merge_and_sum_exact_example = merge_and_sum_exact (5 * second) events events_end events-IsWhole

abbrev row : String → Option String → Time → RawRow
row dev app t = record {
  device_id = dev;
  category_id = none;
  category_name = none;
  app_id = app;
  app_name = some "Editor";
  app_bundle_id = some "com.example.editor";
  project_id = none;
  project_name = none;
  started_at = t;
  ended_at = t + second;
}

abbrev rows : List RawRow
rows =
    row "mac" (some "a1") second
    ∷ row "mac" none (2 * second)
    ∷ row "mac" (some "a1") (5 * second)
    ∷ []

events_at-group_rows_example :
    events_at "a1" "mac" (group_rows dim_app [] rows) ≡ events_of dim_app "a1" "mac" rows
events_at-group_rows_example = events_at-group_rows dim_app "a1" "mac" rows

abbrev buckets : List Bucket
buckets =
    record { id = "c1"; name = "Code"; bundle_id = ""; seconds = 5 }
    ∷ record { id = "c2"; name = "Mail"; bundle_id = ""; seconds = 9 }
    ∷ []

to_sorted_slice-IsReportOf_example : IsReportOf buckets (to_sorted_slice buckets)
to_sorted_slice-IsReportOf_example = to_sorted_slice-IsReportOf buckets

-- A database in which every id is its own spelling.
abbrev queries : Queries
queries = record {
  parse_uuid = λ s. some s;
  raw_activity_events = λ uid from until f. some rows;
  category_totals_for_range = λ uid w cap.
      some (record { category_id = some "c1"; category_name = some "Code"; total_s = 40 } ∷ []);
  app_totals_for_range = λ uid w cap. none;
}

total-category_totals_example : total_of (category_totals queries "u1" noon to now no_filters) ≡ (
    closed_total
      (category_rows queries "u1")
      "reports: category totals"
      (split_closed_open noon to now)
    >>= λ closed.
        raw_windows_total queries "u1" no_filters dim_category (split_closed_open noon to now).raw
        >>= λ raw. ok (closed + raw))
total-category_totals_example = total-category_totals queries "u1" noon to now

abbrev no_summary : Summary
no_summary = record { from = 0; to = 0; total_tracked_seconds = 0; categories = [] }

abbrev answered : Result Error Summary → Summary
answered (ok r) = r
answered (err e) = no_summary

abbrev answer : Summary
answer = answered (summary queries "u1" noon to now no_filters)

summary-IsSummary_example : IsSummary queries "u1" noon to now no_filters answer
unfolding summary validate_range category_totals split_closed_open
summary-IsSummary_example = summary-IsSummary queries "u1" noon to now no_filters answer refl
