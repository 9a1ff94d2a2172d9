-- ===== src/Sync/Push/Tests.antt =====
-- Runs of `push` at concrete inputs.
use rize_backend.Base.{◌+◌, ◌*◌, ◌≡◌, refl, false, none, some, List, [], ◌∷◌, arith}
use rize_backend.Base.Result.{Result, ok, err}
use rize_backend.Base.Int.{two63}
use rize_backend.Instant.{day}
use rize_backend.Sync.Push.{
  PushRequest, ActivityEventData, FocusSessionData, PushResult, PushError, Env,
}
use rize_backend.Sync.Push.Tables.{
  Tables, get_device_by_id, get_app_by_bundle_id, get_setting_by_user_and_app,
  insert_activity_event, upsert_focus_session,
}
use rize_backend.Sync.Push.Apps.{resolve_app, resolve_category}
use rize_backend.Sync.Push.Events.{apply_activity_event}
use rize_backend.Sync.Push.Sessions.{apply_focus_session}
use rize_backend.Sync.Push.Tables.Isolation.{IsIsolated}
use rize_backend.Sync.Push.Tables.Newer.{IsNewer}
use rize_backend.Sync.Push.Skew.{corrected, IsCorrection, corrected-IsCorrection, corrected_far}
use rize_backend.Sync.Push.Batch.{push}
use rize_backend.Sync.Push.Batch.Writes.{push-IsIsolated, push-IsNewer}
use rize_backend.Sync.Push.Batch.Replies.{AreReplies, push-AreReplies}

corrected-IsCorrection_example :
    IsCorrection (40 * day) (50 * day) (corrected (40 * day) (50 * day))
corrected-IsCorrection_example = corrected-IsCorrection (40 * day) (50 * day) (omega arith)

corrected_far_example : corrected (40 * day) (40 * day + two63) ≡ 40 * day + two63
corrected_far_example = corrected_far (40 * day) (40 * day + two63) (omega arith)

abbrev event : ActivityEventData
event = record {
  event_id = "e1";
  started_at = "noon";
  ended_at = "one";
  app_bundle_id = "com.example.editor";
  window_title = none;
  precision = "exact";
  kind = none;
  deleted = false;
}

abbrev session : FocusSessionData
session = record {
  id = "s1";
  updated_at = "noon";
  started_at = "noon";
  ended_at = none;
  project_id = "";
  kind = "focus";
  status = "running";
  planned_duration_s = none;
  note = none;
  deleted = false;
}

abbrev env : Env
env = record {
  unmarshal_activity_event = λ s. some event;
  unmarshal_focus_session = λ s. some session;
  parse_uuid = λ s. some s;
  parse_time = λ s. some (40 * day);
  quote = λ s. s;
  faults = λ index query. none;
  new_id = λ index. "a1";
  server_seq = λ index. index + 7;
  rival = λ index. none;
  now = 40 * day;
}

abbrev request : PushRequest
request = record {
  device_id = "d1";
  items =
      record { entity_type = "activity_event"; payload = "{}" }
      ∷ record { entity_type = "focus_session"; payload = "{}" }
      ∷ record { entity_type = "project"; payload = "{}" }
      ∷ [];
}

abbrev tables : Tables
tables = record {
  devices = record { id = "d1"; user_id = "u1"; platform = "macos"; revoked_at = none } ∷ [];
  apps = [];
  settings = [];
  projects = [];
  events = [];
  sessions = [];
}

abbrev answered : Result PushError (List PushResult) → List PushResult
answered (ok results) = results
answered (err e) = []

push-IsIsolated_example : IsIsolated "u1" tables (push env "u1" request tables).1
push-IsIsolated_example = push-IsIsolated env "u1" "u1" request tables refl

push-IsNewer_example : IsNewer tables (push env "u1" request tables).1
push-IsNewer_example = push-IsNewer env "u1" "u1" request tables refl

push-AreReplies_example : AreReplies 0 request.items (answered (push env "u1" request tables).0)
unfolding push get_device_by_id apply_activity_event resolve_app get_app_by_bundle_id
    resolve_category get_setting_by_user_and_app insert_activity_event apply_focus_session
    upsert_focus_session
push-AreReplies_example =
    push-AreReplies env "u1" request tables (answered (push env "u1" request tables).0) refl
