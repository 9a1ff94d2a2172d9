-- ===== src/Entities/FocusSessions/Fields.antt =====
-- What a request says of a focus session, checked: device_id and project_id name the caller's own rows,
-- kind and status are known words, times parse.
use rize_backend.Base.{
  String, Bool, true, false, ◌&&◌, ◌||◌, Option, none, some, List, if◌then◌else◌,
}
use Prim.Native.String.{◌++◌ as str_append}
use rize_backend.Base.{str_eq}
use rize_backend.Base.Result.{Result, ok, ◌>>=◌, ◌>>◌, require, or_fail}
use mathlib.Core.Option
use rize_backend.Instant.{Time}
use rize_backend.Store.Query.{one, find}
use rize_backend.Entities.{
  Env, EntityError, validation, lookup_error, map_error, get_device, get_project,
}
use rize_backend.Base.Int.{ℤ}
use rize_backend.Entities.Projects.{Project}
use rize_backend.Auth.Tables.{get_device_by_id}
use rize_backend.Entities.FocusSessions.{FocusSession, CreateRequest, UpdateRequest, References}

-- `validKind`
abbrev pub valid_kind : String → Bool
valid_kind s = str_eq s "focus" || str_eq s "break" || str_eq s "meeting"

-- `validStatus`
abbrev pub valid_status : String → Bool
valid_status s = str_eq s "running" || str_eq s "completed" || str_eq s "abandoned"

abbrev pub resolve_device : Env → References → String → String → Result EntityError String
resolve_device env refs uid raw = do
  did ← or_fail (env.parse_uuid raw) (validation "device_id must be a valid UUID")
  device ←
      map_error
        (lookup_error (validation "device_id does not reference a device owned by this user")
          "focussessions: resolve device")
        (one (env.faults get_device) (get_device_by_id did uid refs.devices))
  ok did

-- GetProjectByIDForUser, which also returns deleted projects.
abbrev pub get_project_by_id : String → String → List Project → Option Project
get_project_by_id id uid ps = find (λ p. str_eq p.id id && str_eq p.user_id uid) ps

abbrev pub existing_project :
    Env → References → String → String → Result EntityError (Option String)
existing_project env refs uid raw = do
  pid ← or_fail (env.parse_uuid raw) (validation "project_id must be a valid UUID")
  project ←
      map_error
        (lookup_error (validation "project_id does not reference a project owned by this user")
          "focussessions: resolve project")
        (one (env.faults get_project) (get_project_by_id pid uid refs.projects))
  ok (some pid)

abbrev pub resolve_project : Env → References → String → String → Result EntityError (Option String)
resolve_project env refs uid raw =
    if str_eq raw "" then ok none else existing_project env refs uid raw

abbrev pub parse_timestamp : Env → String → Result EntityError Time
parse_timestamp env raw =
    or_fail (env.parse_time raw)
      (validation (str_append "expected an RFC3339 timestamp, got " (env.quote raw)))

abbrev pub check_kind : String → Result EntityError String
check_kind s = do
  require (valid_kind s) (validation "kind must be one of focus, break, meeting")
  ok s

abbrev pub check_status : String → Result EntityError String
check_status s = do
  require (valid_status s) (validation "status must be one of running, completed, abandoned")
  ok s

abbrev pub checked_or :
    {A B : Type 0} → (A → Result EntityError B) → B → Option A → Result EntityError B
checked_or check current none = ok current
checked_or check current (some a) = check a

-- A field that the request can clear.
abbrev pub cleared_or :
    {A B : Type 0}
    → Bool
    → (A → Result EntityError (Option B))
    → Option B
    → Option A
    → Result EntityError (Option B)
cleared_or true check current given = ok none
cleared_or false check current given = checked_or check current given

abbrev pub some_timestamp : Env → String → Result EntityError (Option Time)
some_timestamp env raw = do t ← parse_timestamp env raw; ok (some t)

-- ended_at of a POST request, where "" leaves it out.
abbrev pub ended_at_of : Env → String → Result EntityError (Option Time)
ended_at_of env raw = if str_eq raw "" then ok none else some_timestamp env raw

-- The columns that a request determines.
pub record Fields : Type 0 where
  pub device_id : String
  pub project_id : Option String
  pub kind : String
  pub planned_duration_s : Option ℤ
  pub started_at : Time
  pub ended_at : Option Time
  pub status : String
  pub note : Option String

abbrev pub created_fields : Env → References → String → CreateRequest → Result EntityError Fields
created_fields env refs uid req = do
  device_id ← resolve_device env refs uid req.device_id
  project_id ← resolve_project env refs uid req.project_id
  kind ← check_kind req.kind
  status ← check_status req.status
  started_at ← parse_timestamp env req.started_at
  ended_at ← ended_at_of env req.ended_at
  ok (record {
    device_id = device_id;
    project_id = project_id;
    kind = kind;
    planned_duration_s = req.planned_duration_s;
    started_at = started_at;
    ended_at = ended_at;
    status = status;
    note = Option.map env.trim req.note;
  })

abbrev pub given_or : {A : Type 0} → Option A → Option A → Option A
given_or current none = current
given_or current (some a) = some a

abbrev pub updated_fields :
    Env → References → String → UpdateRequest → FocusSession → Result EntityError Fields
updated_fields env refs uid req s = do
  device_id ← checked_or (resolve_device env refs uid) s.device_id req.device_id
  project_id ←
      cleared_or req.clear_project_id (resolve_project env refs uid) s.project_id req.project_id
  kind ← checked_or check_kind s.kind req.kind
  status ← checked_or check_status s.status req.status
  started_at ← checked_or (parse_timestamp env) s.started_at req.started_at
  ended_at ← cleared_or req.clear_ended_at (some_timestamp env) s.ended_at req.ended_at
  ok (record {
    device_id = device_id;
    project_id = project_id;
    kind = kind;
    planned_duration_s = given_or s.planned_duration_s req.planned_duration_s;
    started_at = started_at;
    ended_at = ended_at;
    status = status;
    note = given_or s.note (Option.map env.trim req.note);
  })
