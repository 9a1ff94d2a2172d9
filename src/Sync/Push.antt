-- ===== src/Sync/Push.antt =====
-- internal/sync/dto.go, and what `push` of internal/sync/service.go asks of the world around it.
pub mod Tables
pub mod Replied
pub mod Writes
pub mod Skew
pub mod Apps
pub mod Events
pub mod Sessions
pub mod Batch
mod Tests
use rize_backend.Base.{
  ℕ, zero, suc, ◌+◌, ◌-◌, ◌*◌, ◌/◌, ◌%◌, ◌^◌, ◌≤◌, ◌<◌, String, ◌≡◌, refl, sym, ap, ◌∙◌, ◌≢◌, ◌↔◌,
  ◌⊎◌, inl, inr, Bool, true, false, not, ◌&&◌, ◌||◌, Option, none, some, List, [], ◌∷◌, ◌++◌, map,
  arith, ltb, leb, ◌==◌, if◌then◌else◌, ltb→lt, lt→ltb, ltb-false→le, le→ltb-false, leb→le, ==_iff,
  Bool-cases, Option-cases, length, take, drop, keep, any, All, last?, length-append,
  take-append-drop, length-take, length-drop, sum, In, In-keep, In_of_keep, In_of_take,
  In_of_append, In-append_left, In-append_right, any-eq-true, In-All,
}
use Prim.Native.String.{◌++◌ as str_append}
use rize_backend.Base.Int.{ℤ}
use rize_backend.Instant.{Time}
use rize_backend.Store.Query.{Fault, DbError}

-- `payload` is the raw JSON of the field `data`.
pub record PushItem : Type 0 where
  pub entity_type : String
  pub payload : String

pub record PushRequest : Type 0 where
  pub device_id : String
  pub items : List PushItem

pub record ActivityEventData : Type 0 where
  pub event_id : String
  pub started_at : String
  pub ended_at : String
  pub app_bundle_id : String
  pub window_title : Option String
  pub precision : String
  pub kind : Option String
  pub deleted : Bool

pub record FocusSessionData : Type 0 where
  pub id : String
  pub updated_at : String
  pub started_at : String
  pub ended_at : Option String
  pub project_id : String
  pub kind : String
  pub status : String
  pub planned_duration_s : Option ℤ
  pub note : Option String
  pub deleted : Bool

pub record PushResultError : Type 0 where
  pub code : String
  pub message : String

pub record PushResult : Type 0 where
  pub index : ℕ
  pub entity_type : String
  pub event_id : String
  pub id : String
  pub status : String
  pub server_seq : Option ℕ
  pub error : Option PushResultError

abbrev pub applied_activity_event : ℕ → String → PushResult
applied_activity_event index event_id = record {
  index = index;
  entity_type = "activity_event";
  event_id = event_id;
  id = "";
  status = "applied";
  server_seq = none;
  error = none;
}

abbrev pub duplicate_activity_event : ℕ → String → PushResult
duplicate_activity_event index event_id = record {
  index = index;
  entity_type = "activity_event";
  event_id = event_id;
  id = "";
  status = "duplicate";
  server_seq = none;
  error = none;
}

abbrev pub invalid_activity_event : ℕ → String → String → String → PushResult
invalid_activity_event index event_id code message = record {
  index = index;
  entity_type = "activity_event";
  event_id = event_id;
  id = "";
  status = "invalid";
  server_seq = none;
  error = some (record { code = code; message = message });
}

abbrev pub applied_focus_session : ℕ → String → ℕ → PushResult
applied_focus_session index id server_seq = record {
  index = index;
  entity_type = "focus_session";
  event_id = "";
  id = id;
  status = "applied";
  server_seq = some server_seq;
  error = none;
}

abbrev pub duplicate_focus_session : ℕ → String → PushResult
duplicate_focus_session index id = record {
  index = index;
  entity_type = "focus_session";
  event_id = "";
  id = id;
  status = "duplicate";
  server_seq = none;
  error = none;
}

abbrev pub invalid_focus_session : ℕ → String → String → String → PushResult
invalid_focus_session index id code message = record {
  index = index;
  entity_type = "focus_session";
  event_id = "";
  id = id;
  status = "invalid";
  server_seq = none;
  error = some (record { code = code; message = message });
}

abbrev pub invalid_unsupported_entity : ℕ → String → PushResult
invalid_unsupported_entity index entity_type = record {
  index = index;
  entity_type = entity_type;
  event_id = "";
  id = "";
  status = "invalid";
  server_seq = none;
  error = some (record {
    code = "UNSUPPORTED_ENTITY_TYPE";
    message =
        str_append "entity_type \""
          (str_append entity_type "\" is not yet supported by this endpoint");
  });
}

-- The statements that `push` runs.
pub data Query : Type 0 where
  get_device get_app create_app get_app_again get_setting insert_event tombstone_event : Query
  get_project upsert_session get_session : Query

pub data PushError : Type 0 where
  batch_too_large device_not_found : PushError
  validation : String → PushError
  apply_item : ℕ → DbError → PushError
  resolve_device : DbError → PushError

-- The libraries and the database around a batch, by the index of the item: `parse_uuid` is
-- `parseUUID`, the canonical spelling; `parse_time` is `time.Parse(time.RFC3339, s)`; `quote` is
-- `%q`; `new_id` is gen_random_uuid() and `server_seq` the sequence's value for the item's write;
-- `rival` is the id of the app, if a concurrent push creates it just before this one does.
pub record Env : Type 0 where
  pub unmarshal_activity_event : String → Option ActivityEventData
  pub unmarshal_focus_session : String → Option FocusSessionData
  pub parse_uuid : String → Option String
  pub parse_time : String → Option Time
  pub quote : String → String
  pub faults : ℕ → Query → Option Fault
  pub new_id : ℕ → String
  pub server_seq : ℕ → ℕ
  pub rival : ℕ → Option String
  pub now : Time
