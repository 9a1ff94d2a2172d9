-- ===== src/Reports/Totals.antt =====
-- internal/reports/dimension.go: the totals of a report by category, app or project.
--
-- The database is the parameter `Queries`, a function for each query of internal/store/storedb
-- that this code calls; `none` is a database error. `parse_uuid` is `pgtype.UUID.Scan` followed
-- by `String`: the canonical spelling of a UUID, or `none`.
pub mod Sums
use rize_backend.Base.{
  ℕ, zero, suc, ◌+◌, ◌-◌, ◌*◌, ◌/◌, ◌%◌, ◌^◌, ◌≤◌, ◌<◌, String, ◌≡◌, refl, sym, ap, ◌∙◌, ◌≢◌, ◌↔◌,
  ◌⊎◌, inl, inr, Bool, true, false, not, ◌&&◌, ◌||◌, Option, none, some, List, [], ◌∷◌, ◌++◌, map,
  arith, ltb, leb, ◌==◌, if◌then◌else◌, ltb→lt, lt→ltb, ltb-false→le, le→ltb-false, leb→le, ==_iff,
  Bool-cases, Option-cases, length, take, drop, keep, any, All, last?, length-append,
  take-append-drop, length-take, length-drop, sum,
}
use mathlib.Core.Option
use rize_backend.Base.{str_eq}
use rize_backend.Base.Result.{Result, ok, err, ◌>>=◌, ◌>>◌, require, or_fail}
use rize_backend.Instant.{Time, whole_seconds}
use rize_backend.Reports.Window.{Window, Split, split_closed_open}
use rize_backend.Reports.Bucket.{Bucket, merge_bucket}
use rize_backend.Reports.Grouping.{
  RawRow, Dimension, dim_category, dim_app, dim_project, Key, name_or, group_rows, to_bucket,
}

pub data Error : Type 0 where
  validation : String → Error
  internal : String → Error

pub record CategoryRow : Type 0 where
  pub category_id : Option String
  pub category_name : Option String
  pub total_s : ℕ

pub record AppRow : Type 0 where
  pub app_id : Option String
  pub app_name : Option String
  pub app_bundle_id : Option String
  pub total_s : ℕ

pub record Filters : Type 0 where
  pub app_id : String
  pub category_id : String
  pub project_id : String
  pub device_id : String
  pub precision : String

-- The filters as a query takes them; `none` is SQL NULL.
pub record QueryFilters : Type 0 where
  pub app_id : Option String
  pub category_id : Option String
  pub project_id : Option String
  pub device_id : Option String
  pub precision : Option String

pub record Queries : Type 0 where
  pub parse_uuid : String → Option String
  pub raw_activity_events : String → Time → Time → QueryFilters → Option (List RawRow)
  pub category_totals_for_range : String → Window → ℕ → Option (List CategoryRow)
  pub app_totals_for_range : String → Window → ℕ → Option (List AppRow)

pub window_seconds : Window → ℕ
window_seconds w = let seconds = whole_seconds w.from w.to in if ltb seconds 1 then 1 else seconds

unfoldable pub valid_precision : String → Bool
valid_precision p = str_eq p "exact" || str_eq p "approximate"

parse_optional_uuid : Queries → String → String → Result Error (Option String)
parse_optional_uuid q s message =
    if str_eq s ""
    then ok none
    else do id ← or_fail (q.parse_uuid s) (validation message); ok (some id)

parse_filters : Queries → Filters → Result Error QueryFilters
unfolding parse_optional_uuid valid_precision
parse_filters q f = do
  app_id ← parse_optional_uuid q f.app_id "app_id must be a valid UUID"
  category_id ← parse_optional_uuid q f.category_id "category_id must be a valid UUID"
  project_id ← parse_optional_uuid q f.project_id "project_id must be a valid UUID"
  device_id ← parse_optional_uuid q f.device_id "device_id must be a valid UUID"
  require (str_eq f.precision "" || valid_precision f.precision)
      (validation "precision must be one of exact, approximate")
  ok (record {
    app_id = app_id;
    category_id = category_id;
    project_id = project_id;
    device_id = device_id;
    precision = if str_eq f.precision "" then none else some f.precision;
  })

pub raw_totals : Queries → String → Time → Time → Filters → Dimension → Result Error (List Bucket)
unfolding parse_filters
raw_totals q uid from to f dim = do
  filters ← parse_filters q f
  rows ← or_fail (q.raw_activity_events uid from to filters) (internal "reports: raw totals")
  ok (map (to_bucket from to) (group_rows dim [] rows))

-- A row of a continuous aggregate as the loop over it reads it.
pub record Total : Type 0 where
  pub key : Key
  pub seconds : ℕ

category_total : CategoryRow → Total
category_total row = record {
  key = name_or row.category_id row.category_name none "Uncategorized";
  seconds = row.total_s;
}

app_total : AppRow → Total
app_total row = record {
  key = name_or row.app_id row.app_name row.app_bundle_id "Unknown";
  seconds = row.total_s;
}

pub merge_rows : List Bucket → List Total → List Bucket
merge_rows result [] = result
merge_rows result (t ∷ rows) =
    merge_rows (merge_bucket result t.key.id t.key.name t.key.bundle t.seconds) rows

merge_buckets : List Bucket → List Bucket → List Bucket
merge_buckets result [] = result
merge_buckets result (b ∷ raw) =
    merge_buckets (merge_bucket result b.id b.name b.bundle_id b.seconds) raw

-- The loop over the raw windows of a split.
merge_windows :
    Queries → String → Filters → Dimension → List Bucket → List Window → Result Error (List Bucket)
unfolding raw_totals merge_buckets
merge_windows q uid f dim result [] = ok result
merge_windows q uid f dim result (w ∷ windows) = do
  raw ← raw_totals q uid w.from w.to f dim
  merge_windows q uid f dim (merge_buckets result raw) windows

-- The closed part of a split, read from an aggregate by `totals`.
merge_closed : (Window → ℕ → Option (List Total)) → String → Split → Result Error (List Bucket)
unfolding window_seconds merge_rows
merge_closed totals what s =
    if s.has_closed
    then (do
      rows ← or_fail (totals s.closed (window_seconds s.closed)) (internal what)
      ok (merge_rows [] rows))
    else ok []

pub category_rows : Queries → String → Window → ℕ → Option (List Total)
unfolding category_total
category_rows q uid w cap = Option.map (map category_total) (q.category_totals_for_range uid w cap)

pub app_rows : Queries → String → Window → ℕ → Option (List Total)
unfolding app_total
app_rows q uid w cap = Option.map (map app_total) (q.app_totals_for_range uid w cap)

-- The bucket of one id, where the request names one.
only : Queries → String → String → List Bucket → Result Error (List Bucket)
only q raw_id message result = if str_eq raw_id "" then ok result else do
  id ← or_fail (q.parse_uuid raw_id) (validation message)
  ok (keep (λ b. str_eq b.id id) result)

-- `now` is `time.Now()`.
unfoldable pub category_totals :
    Queries → String → Time → Time → Time → Filters → Result Error (List Bucket)
unfolding raw_totals merge_windows merge_closed category_rows only
category_totals q uid from to now f =
    if not (str_eq f.app_id "")
      || not (str_eq f.project_id "")
      || not (str_eq f.device_id "")
      || not (str_eq f.precision "")
    then raw_totals q uid from to f dim_category
    else do
      let s = split_closed_open from to now
      closed ← merge_closed (category_rows q uid) "reports: category totals" s
      result ← merge_windows q uid f dim_category closed s.raw
      only q f.category_id "category_id must be a valid UUID" result

pub app_totals : Queries → String → Time → Time → Time → Filters → Result Error (List Bucket)
unfolding raw_totals merge_windows merge_closed app_rows only
app_totals q uid from to now f =
    if not (str_eq f.category_id "")
      || not (str_eq f.project_id "")
      || not (str_eq f.device_id "")
      || not (str_eq f.precision "")
    then raw_totals q uid from to f dim_app
    else do
      let s = split_closed_open from to now
      closed ← merge_closed (app_rows q uid) "reports: app totals" s
      result ← merge_windows q uid f dim_app closed s.raw
      only q f.app_id "app_id must be a valid UUID" result

pub project_totals : Queries → String → Time → Time → Filters → Result Error (List Bucket)
unfolding raw_totals
project_totals q uid from to f = raw_totals q uid from to f dim_project
