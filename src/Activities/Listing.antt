-- ===== src/Activities/Listing.antt =====
-- List of internal/activities/service.go and Timeline of internal/reports/timeline.go, with
-- ListActivityEventsForUser of internal/store/storedb/activities.sql.go.
pub mod Walked
use rize_backend.Base.{
  ℕ, ◌+◌, String, Bool, true, false, not, ◌&&◌, ◌||◌, Option, none, some, List, [], ◌∷◌, ltb, leb,
  if◌then◌else◌, keep, take, last?, length, str_eq,
}
use rize_backend.Base.Result.{Result, ok, err, ◌>>=◌, ◌>>◌, require, or_fail}
use rize_backend.Instant.{Time, is_zero}
use rize_backend.Store.Base64.{Bytes}
use rize_backend.Store.Cursor.{limit_param}
use rize_backend.Store.Paging.{Page, clamp_limit}
use rize_backend.Store.Paging.Sorting.{sort_by}
use rize_backend.Store.TimeRange.{RangeError, from_after_to, range_too_long, validate_range}
use rize_backend.Activities.{ActivityEvent, Position, ActivityError, validation, internal, Env}
use rize_backend.Activities.Cursor.{earlier, encode_position, decode_position}

-- A request's filters, where "" leaves one out.
pub record ListParams : Type 0 where
  pub from : Time
  pub to : Time
  pub app_id : String
  pub category_id : String
  pub project_id : String
  pub device_id : String
  pub precision : String

-- The statement's arguments, less the cursor and the limit.
pub record Selection : Type 0 where
  pub user_id : String
  pub from_ts : Time
  pub to_ts : Time
  pub app_id : Option String
  pub category_id : Option String
  pub project_id : Option String
  pub device_id : Option String
  pub precision : Option String

-- `validPrecision`
abbrev pub valid_precision : String → Bool
valid_precision p = str_eq p "exact" || str_eq p "approximate"

abbrev pub range_error : Option RangeError → Result ActivityError (Unit {0})
range_error none = ok tt
range_error (some from_after_to) = err (validation "from must not be after to")
range_error (some range_too_long) =
    err (validation "requested range exceeds the maximum allowed range of 366 days")

abbrev pub check_range : Time → Time → Result ActivityError (Unit {0})
check_range from to = do
  require (not (is_zero from || is_zero to)) (validation "from and to are required")
  range_error (validate_range from to)

abbrev pub check_precision : String → Result ActivityError (Unit {0})
check_precision p =
    require (str_eq p "" || valid_precision p)
      (validation "precision must be one of exact, approximate")

-- `parseOptionalUUID`
abbrev pub parse_optional_uuid : Env → String → String → Result ActivityError (Option String)
parse_optional_uuid env s message =
    if str_eq s ""
    then ok none
    else do id ← or_fail (env.parse_uuid s) (validation message); ok (some id)

abbrev pub parse_filters : Env → String → ListParams → Result ActivityError Selection
parse_filters env uid p = do
  app_id ← parse_optional_uuid env p.app_id "app_id must be a valid UUID"
  category_id ← parse_optional_uuid env p.category_id "category_id must be a valid UUID"
  project_id ← parse_optional_uuid env p.project_id "project_id must be a valid UUID"
  device_id ← parse_optional_uuid env p.device_id "device_id must be a valid UUID"
  ok (record {
    user_id = uid;
    from_ts = p.from;
    to_ts = p.to;
    app_id = app_id;
    category_id = category_id;
    project_id = project_id;
    device_id = device_id;
    precision = if str_eq p.precision "" then none else some p.precision;
  })

-- What List and Timeline accept, with their checks in their order.
unfoldable pub list_request : Env → String → ListParams → Result ActivityError Selection
list_request env user_id p = do
  uid ← or_fail (env.parse_uuid user_id) (validation "invalid authenticated user id")
  check_range p.from p.to
  selection ← parse_filters env uid p
  check_precision p.precision
  ok selection

pub timeline_request : Env → String → ListParams → Result ActivityError Selection
timeline_request env user_id p = do
  uid ← or_fail (env.parse_uuid user_id) (validation "invalid authenticated user id")
  check_range p.from p.to
  check_precision p.precision
  parse_filters env uid p

-- $n IS NULL OR column = $n, where NULL equals nothing.
abbrev pub filter_by : Option String → Option String → Bool
filter_by none column = true
filter_by (some wanted) none = false
filter_by (some wanted) (some found) = str_eq found wanted

unfoldable pub is_selected : Selection → ActivityEvent → Bool
is_selected s a =
    str_eq a.user_id s.user_id
    && not a.deleted
    && leb s.from_ts a.started_at
    && ltb a.started_at s.to_ts
    && filter_by s.app_id a.app_id
    && filter_by s.category_id a.category_id
    && filter_by s.project_id a.project_id
    && filter_by s.device_id (some a.device_id)
    && filter_by s.precision (some a.precision)

abbrev pub position : ActivityEvent → Position
position a = record { started_at = a.started_at; event_id = a.event_id }

-- ORDER BY started_at ASC, event_id ASC
abbrev pub in_order : List ActivityEvent → List ActivityEvent
in_order events = sort_by position earlier events

abbrev pub list_activity_events : Selection → Position → ℕ → List ActivityEvent → List ActivityEvent
list_activity_events s cursor limit events =
    take limit (keep (λ a. earlier cursor (position a)) (in_order (keep (is_selected s) events)))

abbrev pub page_size : ℕ → ℕ
page_size raw_limit = clamp_limit 50 200 raw_limit

-- The next token; the one that came in, if there are no rows.
abbrev pub next_token : Env → Bytes → Option ActivityEvent → Bytes
next_token env raw_cursor none = raw_cursor
next_token env raw_cursor (some last) = encode_position env (position last)

-- The rows that the query returned, one more than the page, cut.
abbrev pub to_page : Env → Bytes → ℕ → List ActivityEvent → Page ActivityEvent Bytes
to_page env raw_cursor limit fetched =
    let has_more = ltb limit (length fetched) in
    let rows = if has_more then take limit fetched else fetched in
    record {
      rows = rows;
      next_cursor = next_token env raw_cursor (last? rows);
      has_more = has_more;
    }

-- What follows the checks in both.
pub events_page :
    Env → String → Selection → Bytes → ℕ → Result ActivityError (Page ActivityEvent Bytes)
events_page env what s raw_cursor raw_limit = do
  cursor ← or_fail (decode_position env raw_cursor) (validation "invalid cursor")
  events ← or_fail env.events (internal what)
  ok (
      to_page env raw_cursor (page_size raw_limit)
        (list_activity_events s cursor (limit_param (page_size raw_limit + 1)) events))

pub list : Env → String → ListParams → Bytes → ℕ → Result ActivityError (Page ActivityEvent Bytes)
unfolding list_request events_page
list env user_id p raw_cursor raw_limit = do
  selection ← list_request env user_id p
  events_page env "activities: list" selection raw_cursor raw_limit

pub timeline :
    Env → String → ListParams → Bytes → ℕ → Result ActivityError (Page ActivityEvent Bytes)
unfolding timeline_request events_page
timeline env user_id p raw_cursor raw_limit = do
  selection ← timeline_request env user_id p
  events_page env "reports: timeline" selection raw_cursor raw_limit
