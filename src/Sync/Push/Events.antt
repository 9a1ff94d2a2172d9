-- ===== src/Sync/Push/Events.antt =====
-- `applyActivityEvent` and `constraintViolationResult` of internal/sync/service.go. Every statement commits by itself.
pub mod Writes
pub mod Replies
use rize_backend.Store.Query.{DbError, Fault, broken, fault, no_rows, sqlstate}
use rize_backend.Base.{ℕ, String, Bool, not, ◌||◌, Option, none, some, List, if◌then◌else◌}
use Prim.Native.String.{◌++◌ as str_append}
use rize_backend.Base.{str_eq}
use rize_backend.Base.Result.{Result, ok, err, ◌>>=◌, ◌>>◌, require, or_fail}
use rize_backend.Instant.{Time, before}
use rize_backend.Sync.Push.{
  ActivityEventData, PushResult, applied_activity_event, duplicate_activity_event,
  invalid_activity_event, insert_event, tombstone_event, PushError, apply_item, Env,
}
use rize_backend.Sync.Push.Tables.{
  App, ActivityEvent, Tables, insert_activity_event, tombstone_activity_event,
}
use rize_backend.Sync.Push.Apps.{resolve_app, resolve_category}

valid_activity_type : String → Bool
valid_activity_type t =
    str_eq t "app_active"
    || str_eq t "idle"
    || str_eq t "locked"
    || str_eq t "mobile_usage"
    || str_eq t "manual"

valid_event_precision : String → Bool
valid_event_precision p = str_eq p "exact" || str_eq p "approximate"

abbrev invalid_event : ℕ → String → String → PushResult
invalid_event index event_id message =
    invalid_activity_event index event_id "VALIDATION_ERROR" message

-- `eventType`, or the complaint about the type that was sent.
event_type : ℕ → String → Option String → Result PushResult String
unfolding valid_activity_type
event_type index event_id none = ok "manual"
event_type index event_id (some t) = do
  require (valid_activity_type t) (
      invalid_event index event_id
        "type must be one of app_active, idle, locked, mobile_usage, manual")
  ok t

-- What the checks have found of an item.
pub record CheckedEvent : Type 0 where
  pub raw : ActivityEventData
  pub event_id : String
  pub started_at : Time
  pub ended_at : Time
  pub kind : String

-- The parsed id and times.
pub record EventSpan : Type 0 where
  pub event_id : String
  pub started_at : Time
  pub ended_at : Time

-- The checks of the id and the times.
check_span : Env → ℕ → ActivityEventData → Result PushResult EventSpan
check_span env index d = do
  event_id ←
      or_fail (env.parse_uuid d.event_id)
        (invalid_event index d.event_id "event_id must be a valid UUID")
  started_at ←
      or_fail (env.parse_time d.started_at)
        (invalid_event index d.event_id "started_at must be an RFC3339 timestamp")
  ended_at ←
      or_fail (env.parse_time d.ended_at)
        (invalid_event index d.event_id "ended_at must be an RFC3339 timestamp")
  require (not (before ended_at started_at))
      (invalid_event index d.event_id "ended_at precedes started_at")
  ok (record { event_id = event_id; started_at = started_at; ended_at = ended_at })

-- The checks of the other fields, and the type.
check_kind : ℕ → ActivityEventData → Result PushResult String
unfolding valid_event_precision event_type
check_kind index d = do
  require (not (str_eq d.app_bundle_id ""))
      (invalid_event index d.event_id "app_bundle_id is required")
  require (valid_event_precision d.precision)
      (invalid_event index d.event_id "precision must be \"exact\" or \"approximate\"")
  event_type index d.event_id d.kind

pub check_activity_event : Env → ℕ → String → Result PushResult CheckedEvent
unfolding check_span check_kind
check_activity_event env index payload = do
  d ←
      or_fail (env.unmarshal_activity_event payload)
        (invalid_event index "" "malformed activity_event payload")
  span ← check_span env index d
  kind ← check_kind index d
  ok (record {
    raw = d;
    event_id = span.event_id;
    started_at = span.started_at;
    ended_at = span.ended_at;
    kind = kind;
  })

-- The code and the message of a violated constraint.
unfoldable pub constraint_violation_result : Env → DbError → Option (String × String)
constraint_violation_result env no_rows = none
constraint_violation_result env (fault broken) = none
constraint_violation_result env (fault (sqlstate code name)) =
    if str_eq code "23503"
    then some ("FOREIGN_KEY_VIOLATION", "referenced row does not exist")
    else if str_eq code "23514" || str_eq code "23505" || str_eq code "23502"
    then some (
      "VALIDATION_ERROR",
      if str_eq name ""
          then "value violates a database constraint"
          else str_append "value violates constraint " (env.quote name),
    )
    else none

abbrev pub Applied : Type 0
Applied = Result PushError PushResult × Tables

-- A failed write: an invalid item, if a constraint was violated, else the end of the batch.
abbrev pub failed_write :
    ℕ
    → DbError
    → (String → String → PushResult)
    → Option (String × String)
    → Result PushError PushResult
failed_write index e invalid none = err (apply_item index e)
failed_write index e invalid (some (code, message)) = ok (invalid code message)

abbrev with_events : Tables → List ActivityEvent → Tables
with_events t events = record t { events = events }

-- Below the insert that found the key taken.
tombstone : Env → ℕ → String → CheckedEvent → Tables → Option Fault → Applied
tombstone env index uid c t (some f) = (err (apply_item index (fault f)), t)
tombstone env index uid c t none =
    elim (tombstone_activity_event (env.server_seq index) uid c.event_id c.started_at t.events) [
      | none ↦ (ok (duplicate_activity_event index c.raw.event_id), t)
      | some events ↦ (ok (applied_activity_event index c.raw.event_id), with_events t events)
    ]

insert : Env → ℕ → String → CheckedEvent → ActivityEvent → Tables → Option Fault → Applied
unfolding tombstone constraint_violation_result
insert env index uid c new t (some f) = (
  failed_write index (fault f) (invalid_activity_event index c.raw.event_id)
      (constraint_violation_result env (fault f)),
  t,
)
insert env index uid c new t none = elim (insert_activity_event new t.events) [
  | some events ↦ (ok (applied_activity_event index c.raw.event_id), with_events t events)
  | none ↦
      if c.raw.deleted
      then tombstone env index uid c t (env.faults index tombstone_event)
      else (ok (duplicate_activity_event index c.raw.event_id), t)
]

pub new_event :
    Env → ℕ → String → String → String → CheckedEvent → App → Option String → ActivityEvent
new_event env index uid device_id source c app category_id = record {
  event_id = c.event_id;
  user_id = uid;
  device_id = device_id;
  started_at = c.started_at;
  ended_at = c.ended_at;
  kind = c.kind;
  source = source;
  precision = c.raw.precision;
  app_id = app.id;
  raw_bundle_id = c.raw.app_bundle_id;
  window_title = c.raw.window_title;
  category_id = category_id;
  deleted = c.raw.deleted;
  server_seq = env.server_seq index;
}

-- With the category resolved, or not.
insert_categorized :
    Env
    → ℕ
    → String
    → String
    → String
    → CheckedEvent
    → App
    → Tables
    → Result DbError (Option String)
    → Applied
unfolding insert new_event
insert_categorized env index uid device_id source c app t (err e) = (err (apply_item index e), t)
insert_categorized env index uid device_id source c app t (ok category_id) =
    insert env index uid c (new_event env index uid device_id source c app category_id) t
      (env.faults index insert_event)

-- With the app resolved, or not.
insert_for_app :
    Env → ℕ → String → String → String → CheckedEvent → Tables → Result DbError App → Applied
unfolding insert_categorized
insert_for_app env index uid device_id source c t (err e) = (err (apply_item index e), t)
insert_for_app env index uid device_id source c t (ok app) =
    insert_categorized env index uid device_id source c app t
      (resolve_category env index uid app t.settings)

store_event :
    Env → ℕ → String → String → String → String → Tables → Result PushResult CheckedEvent → Applied
unfolding insert_for_app
store_event env index uid device_id platform source t (err invalid) = (ok invalid, t)
store_event env index uid device_id platform source t (ok c) =
    let (app, apps) = resolve_app env index c.raw.app_bundle_id platform t.apps in
    insert_for_app env index uid device_id source c (record t { apps = apps }) app

unfoldable pub apply_activity_event :
    Env → String → String → String → String → ℕ → String → Tables → Applied
unfolding store_event check_activity_event
apply_activity_event env uid device_id platform source index payload t =
    store_event env index uid device_id platform source t (check_activity_event env index payload)
