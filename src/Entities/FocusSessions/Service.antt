-- ===== src/Entities/FocusSessions/Service.antt =====
-- The requests of internal/focussessions/service.go.
pub mod Ensured
use rize_backend.Base.{ℕ, String, false, none}
use rize_backend.Base.Action.{Action, ◌>>=◌, pure, read}
use rize_backend.Base.Result.{Result}
use rize_backend.Store.Base64.{Bytes}
use rize_backend.Store.Paging.{Page}
use rize_backend.Entities.{
  Env, EntityError, authenticated, path_id, id_or_new, as_validation, insert_row, update_row,
}
use rize_backend.Entities.Rows.{Table, get_own, is_mine, insert_into, update_own}
use rize_backend.Entities.Reads.{get_entity, list_entities}
use rize_backend.Entities.Requests.{write_row, delete_entity}
use rize_backend.Entities.FocusSessions.{
  FocusSession, entity, CreateRequest, UpdateRequest, References,
}
use rize_backend.Entities.FocusSessions.Fields.{Fields, created_fields, updated_fields}

abbrev pub merged : Fields → FocusSession → FocusSession
merged f s = record s {
  device_id = f.device_id;
  project_id = f.project_id;
  kind = f.kind;
  planned_duration_s = f.planned_duration_s;
  started_at = f.started_at;
  ended_at = f.ended_at;
  status = f.status;
  note = f.note;
}

abbrev pub new_session : Env → String → String → Fields → FocusSession
new_session env id uid f = record {
  id = id;
  user_id = uid;
  device_id = f.device_id;
  project_id = f.project_id;
  kind = f.kind;
  planned_duration_s = f.planned_duration_s;
  started_at = f.started_at;
  ended_at = f.ended_at;
  status = f.status;
  note = f.note;
  created_at = env.db_now;
  updated_at = env.db_now;
  deleted_at = none;
  server_seq = 0;
}

pub create :
    Env → References → String → CreateRequest → Action (Table FocusSession) EntityError FocusSession
create env refs user_id req = do
  uid ← pure (authenticated env user_id)
  fields ← pure (created_fields env refs uid req)
  id ← pure (id_or_new env req.id)
  write_row entity env as_validation "focussessions: create" (
      insert_into entity env (env.faults insert_row) (λ s. false) "focus_sessions_pkey"
        (new_session env id uid fields))

pub list :
    Env → String → Bytes → ℕ → Table FocusSession → Result EntityError (Page FocusSession Bytes)
list env user_id raw_cursor raw_limit t =
    list_entities entity env "focussessions: list" (is_mine entity) user_id raw_cursor raw_limit t

pub get : Env → String → String → Table FocusSession → Result EntityError FocusSession
get env user_id id t = get_entity env "focussessions: get" (get_own entity) user_id id t

pub update :
    Env
    → References
    → String
    → String
    → UpdateRequest
    → Action (Table FocusSession) EntityError FocusSession
unfolding get
update env refs user_id id req = do
  uid ← pure (authenticated env user_id)
  current ← read (get env user_id id)
  fields ← pure (updated_fields env refs uid req current)
  sid ← pure (path_id env id)
  write_row entity env as_validation "focussessions: update"
      (update_own entity env (env.faults update_row) uid sid (λ s. false) "" (merged fields))

pub delete : Env → String → String → Action (Table FocusSession) EntityError (Unit {0})
delete env user_id id = delete_entity entity env "focussessions: delete" user_id id
