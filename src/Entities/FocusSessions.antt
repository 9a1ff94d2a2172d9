-- ===== src/Entities/FocusSessions.antt =====
-- internal/focussessions/service.go, with the statements of
-- internal/store/storedb/focus_sessions.sql.go. What it asks of the tables of devices and projects
-- stands in `References`.
pub mod Fields
pub mod Service
pub mod Checked
use rize_backend.Base.{
  ℕ, zero, suc, ◌+◌, ◌-◌, ◌*◌, ◌/◌, ◌%◌, ◌^◌, ◌≤◌, ◌<◌, String, ◌≡◌, refl, sym, ap, ◌∙◌, ◌≢◌, ◌↔◌,
  ◌⊎◌, inl, inr, Bool, true, false, not, ◌&&◌, ◌||◌, Option, none, some, List, [], ◌∷◌, ◌++◌, map,
  arith, ltb, leb, ◌==◌, if◌then◌else◌, ltb→lt, lt→ltb, ltb-false→le, le→ltb-false, leb→le, ==_iff,
  Bool-cases, Option-cases, length, take, drop, keep, any, All, last?, length-append,
  take-append-drop, length-take, length-drop, sum, In, In-keep, In_of_keep, In_of_take,
  In_of_append, In-append_left, In-append_right, any-eq-true, In-All,
}
use Prim.Native.String.{◌++◌ as str_append}
use rize_backend.Base.{str_eq}
use rize_backend.Base.Action.{Action, ◌>>=◌, ◌>>◌, give, pure, read, write}
use rize_backend.Base.Result.{Result, ok, err, require, or_fail}
use rize_backend.Instant.{Time}
use rize_backend.Store.Base64.{Bytes}
use rize_backend.Store.Paging.{Page}
use rize_backend.Store.Query.{is_null, one, find}
use rize_backend.Entities.{
  Env, EntityError, not_found, validation, authenticated, path_id, id_or_new, required, required_or,
  map_constraint_violation, as_validation, lookup_error, map_error, succeeds, insert_row,
  update_row, get_row, get_device, get_project,
}
use rize_backend.Entities.Rows.{
  Entity, Table, get_own, is_mine, is_visible, owned_by, insert_into, update_own,
}
use rize_backend.Entities.Reads.{get_entity, list_entities}
use rize_backend.Entities.Requests.{write_row, delete_entity}
use rize_backend.Base.Int.{ℤ}
use rize_backend.Entities.Projects.{Project}
use rize_backend.Auth.Tables.{Device}

pub record FocusSession : Type 0 where
  pub id : String
  pub user_id : String
  pub device_id : String
  pub project_id : Option String
  pub kind : String
  pub planned_duration_s : Option ℤ
  pub started_at : Time
  pub ended_at : Option Time
  pub status : String
  pub note : Option String
  pub created_at : Time
  pub updated_at : Time
  pub deleted_at : Option Time
  pub server_seq : ℕ

abbrev pub entity : Entity FocusSession
entity = record {
  id = λ s. s.id;
  owner = λ s. some s.user_id;
  deleted_at = λ s. s.deleted_at;
  server_seq = λ s. s.server_seq;
  stamp = λ now n s. record s { updated_at = now; server_seq = n };
  mark_deleted = λ now s. record s { deleted_at = some now };
  id-stamp = λ now n s. refl;
  owner-stamp = λ now n s. refl;
  deleted_at-stamp = λ now n s. refl;
  server_seq-stamp = λ now n s. refl;
  id-mark_deleted = λ now s. refl;
  owner-mark_deleted = λ now s. refl;
  deleted_at-mark_deleted = λ now s. refl;
}

pub record CreateRequest : Type 0 where
  pub id : String
  pub device_id : String
  pub project_id : String
  pub kind : String
  pub planned_duration_s : Option ℤ
  pub started_at : String
  pub ended_at : String
  pub status : String
  pub note : Option String

pub record UpdateRequest : Type 0 where
  pub device_id : Option String
  pub project_id : Option String
  pub clear_project_id : Bool
  pub kind : Option String
  pub planned_duration_s : Option ℤ
  pub started_at : Option String
  pub ended_at : Option String
  pub clear_ended_at : Bool
  pub status : Option String
  pub note : Option String

-- The tables that a session's references are looked up in.
pub record References : Type 0 where
  pub devices : List Device
  pub projects : List Project
