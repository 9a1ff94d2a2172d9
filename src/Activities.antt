-- ===== src/Activities.antt =====
-- The raw listings of activity events: GET /v1/activities of internal/activities, and the timeline of
-- internal/reports/timeline.go.
pub mod Cursor
pub mod Listing
mod Tests
use rize_backend.Base.{ℕ, String, Bool, Option, List}
use rize_backend.Base.Int.{ℤ}
use rize_backend.Instant.{Time}
use rize_backend.Store.Base64.{Bytes}

-- An event's id is the number of its 128 bits, by which PostgreSQL orders UUIDs.
pub record ActivityEvent : Type 0 where
  pub event_id : ℕ
  pub user_id : String
  pub device_id : String
  pub started_at : Time
  pub ended_at : Time
  pub duration_s : Option ℤ
  pub kind : String
  pub source : String
  pub precision : String
  pub app_id : Option String
  pub raw_bundle_id : Option String
  pub window_title : Option String
  pub url : Option String
  pub category_id : Option String
  pub project_id : Option String
  pub deleted : Bool
  pub inserted_at : Time
  pub server_seq : ℕ

-- Where a listing goes on, `cursor` in the source.
pub record Position : Type 0 where
  pub started_at : Time
  pub event_id : ℕ

pub data ActivityError : Type 0 where
  validation : String → ActivityError
  internal : String → ActivityError

-- `parse_uuid` is `pgtype.UUID.Scan`, `print_event_id` and `parse_event_id` are `String` and `Scan` of
-- an event's id. `events` is the table, `none` if it cannot be read.
pub record Env : Type 0 where
  pub parse_uuid : String → Option String
  pub print_event_id : ℕ → Bytes
  pub parse_event_id : Bytes → Option ℕ
  pub events : Option (List ActivityEvent)
