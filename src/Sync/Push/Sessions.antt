-- ===== src/Sync/Push/Sessions.antt =====
-- `applyFocusSession` of internal/sync/service.go.
pub mod Writes
pub mod Replies
use rize_backend.Store.Query.{DbError, Fault, fault, no_rows, one}
use rize_backend.Base.{ℕ, String, Bool, not, ◌||◌, Option, none, some, if◌then◌else◌}
use rize_backend.Base.{str_eq}
use rize_backend.Base.Result.{Result, ok, err, ◌>>=◌, or_fail}
use rize_backend.Instant.{Time}
use rize_backend.Sync.Push.{
  FocusSessionData, PushResult, applied_focus_session, duplicate_focus_session,
  invalid_focus_session, get_project, upsert_session, get_session, PushError, apply_item, Env,
}
use rize_backend.Sync.Push.Tables.{
  Project, FocusSession, Tables, get_project_by_id_for_user, get_focus_session_by_id,
  upsert_focus_session,
}
use rize_backend.Sync.Push.Events.{Applied, failed_write, constraint_violation_result}
use rize_backend.Sync.Push.Skew.{corrected}

valid_focus_kind : String → Bool
valid_focus_kind k = str_eq k "focus" || str_eq k "break" || str_eq k "meeting"

valid_focus_status : String → Bool
valid_focus_status s = str_eq s "running" || str_eq s "completed" || str_eq s "abandoned"

abbrev invalid_session : ℕ → String → String → PushResult
invalid_session index id message = invalid_focus_session index id "VALIDATION_ERROR" message

pub record CheckedSession : Type 0 where
  pub raw : FocusSessionData
  pub id : String
  pub updated_at : Time
  pub started_at : Time
  pub ended_at : Option Time
  pub project_id : Option String

parse_ended_at : Env → ℕ → String → Option String → Result PushResult (Option Time)
parse_ended_at env index id none = ok none
parse_ended_at env index id (some s) = do
  t ← or_fail (env.parse_time s) (invalid_session index id "ended_at must be an RFC3339 timestamp")
  ok (some t)

parse_project_id : Env → ℕ → String → String → Result PushResult (Option String)
parse_project_id env index id s = if str_eq s "" then ok none else do
  p ← or_fail (env.parse_uuid s) (invalid_session index id "project_id must be a valid UUID")
  ok (some p)

-- The checks above the lookup of the project.
pub parse_focus_session : Env → ℕ → String → Result PushResult CheckedSession
unfolding parse_ended_at parse_project_id
parse_focus_session env index payload = do
  d ←
      or_fail (env.unmarshal_focus_session payload)
        (invalid_session index "" "malformed focus_session payload")
  id ← or_fail (env.parse_uuid d.id) (invalid_session index d.id "id must be a valid UUID")
  updated_at ←
      or_fail (env.parse_time d.updated_at)
        (invalid_session index d.id "updated_at must be an RFC3339 timestamp")
  started_at ←
      or_fail (env.parse_time d.started_at)
        (invalid_session index d.id "started_at must be an RFC3339 timestamp")
  ended_at ← parse_ended_at env index d.id d.ended_at
  project_id ← parse_project_id env index d.id d.project_id
  ok (record {
    raw = d;
    id = id;
    updated_at = updated_at;
    started_at = started_at;
    ended_at = ended_at;
    project_id = project_id;
  })

-- The project's owner: `none` is a project of this user.
project_refusal : ℕ → String → Result DbError Project → Option (Result PushError PushResult)
project_refusal index id (ok p) = none
project_refusal index id (err no_rows) = some (
    ok (
      invalid_focus_session index id "FOREIGN_KEY_VIOLATION"
        "project_id does not reference an existing project owned by this user"))
project_refusal index id (err (fault f)) = some (err (apply_item index (fault f)))

check_project :
    Env
    → ℕ
    → String
    → CheckedSession
    → Tables
    → Option String
    → Option (Result PushError PushResult)
unfolding project_refusal
check_project env index uid c t none = none
check_project env index uid c t (some p) =
    project_refusal index c.raw.id
      (one (env.faults index get_project) (get_project_by_id_for_user p uid t.projects))

-- The checks below the lookup of the project.
check_session : Env → ℕ → String → CheckedSession → Tables → Option (Result PushError PushResult)
unfolding check_project valid_focus_kind valid_focus_status
check_session env index uid c t = elim (check_project env index uid c t c.project_id) [
  | some refusal ↦ some refusal
  | none ↦
      if not (valid_focus_kind c.raw.kind)
      then some (ok (invalid_session index c.raw.id "kind must be one of focus, break, meeting"))
      else if not (valid_focus_status c.raw.status)
      then some (
          ok (invalid_session index c.raw.id "status must be one of running, completed, abandoned"))
      else none
]

pub new_session : Env → ℕ → String → String → CheckedSession → FocusSession
new_session env index uid device_id c =
    let updated_at = corrected env.now c.updated_at in
    record {
      id = c.id;
      user_id = uid;
      device_id = device_id;
      project_id = c.project_id;
      kind = c.raw.kind;
      planned_duration_s = c.raw.planned_duration_s;
      started_at = c.started_at;
      ended_at = c.ended_at;
      status = c.raw.status;
      note = c.raw.note;
      updated_at = updated_at;
      deleted_at = if c.raw.deleted then some updated_at else none;
      server_seq = env.server_seq index;
    }

-- The row that an upsert without effect met.
lost_to : ℕ → String → String → Result DbError FocusSession → Result PushError PushResult
lost_to index uid id (err e) = err (apply_item index e)
lost_to index uid id (ok existing) =
    if str_eq existing.user_id uid
    then ok (duplicate_focus_session index id)
    else ok (invalid_focus_session index id "FORBIDDEN" "this id belongs to a different user")

upsert : Env → ℕ → String → CheckedSession → FocusSession → Tables → Option Fault → Applied
unfolding lost_to constraint_violation_result
upsert env index uid c new t (some f) = (
  failed_write index (fault f) (invalid_focus_session index c.raw.id)
      (constraint_violation_result env (fault f)),
  t,
)
upsert env index uid c new t none = elim (upsert_focus_session new t.sessions) [
  | some sessions ↦
      (ok (applied_focus_session index c.raw.id new.server_seq), record t { sessions = sessions })
  | none ↦ (
    lost_to index uid c.raw.id
        (one (env.faults index get_session) (get_focus_session_by_id c.id t.sessions)),
    t,
  )
]

store_session : Env → ℕ → String → String → Tables → Result PushResult CheckedSession → Applied
unfolding check_session upsert new_session
store_session env index uid device_id t (err invalid) = (ok invalid, t)
store_session env index uid device_id t (ok c) = elim (check_session env index uid c t) [
  | some refusal ↦ (refusal, t)
  | none ↦
      upsert env index uid c (new_session env index uid device_id c) t
        (env.faults index upsert_session)
]

unfoldable pub apply_focus_session : Env → String → String → ℕ → String → Tables → Applied
unfolding store_session parse_focus_session
apply_focus_session env uid device_id index payload t =
    store_session env index uid device_id t (parse_focus_session env index payload)
