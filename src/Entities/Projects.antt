-- ===== src/Entities/Projects.antt =====
-- internal/projects/service.go, with the statements of internal/store/storedb/projects.sql.go.
pub mod Ensured
use rize_backend.Base.{ℕ, String, refl, Bool, true, false, Option, none, some}
use rize_backend.Base.Action.{Action, ◌>>=◌, pure, read}
use rize_backend.Base.Result.{Result}
use rize_backend.Instant.{Time}
use rize_backend.Store.Base64.{Bytes}
use rize_backend.Store.Paging.{Page}
use rize_backend.Entities.{
  Env, EntityError, authenticated, path_id, id_or_new, required, required_or,
  map_constraint_violation, insert_row, update_row,
}
use rize_backend.Entities.Rows.{Entity, Table, get_own, is_mine, insert_into, update_own}
use rize_backend.Entities.Reads.{get_entity, list_entities}
use rize_backend.Entities.Requests.{write_row, delete_entity}

pub record Project : Type 0 where
  pub id : String
  pub user_id : String
  pub name : String
  pub color : String
  pub created_at : Time
  pub updated_at : Time
  pub archived_at : Option Time
  pub deleted_at : Option Time
  pub server_seq : ℕ

abbrev pub entity : Entity Project
entity = record {
  id = λ p. p.id;
  owner = λ p. some p.user_id;
  deleted_at = λ p. p.deleted_at;
  server_seq = λ p. p.server_seq;
  stamp = λ now n p. record p { updated_at = now; server_seq = n };
  mark_deleted = λ now p. record p { deleted_at = some now };
  id-stamp = λ now n p. refl;
  owner-stamp = λ now n p. refl;
  deleted_at-stamp = λ now n p. refl;
  server_seq-stamp = λ now n p. refl;
  id-mark_deleted = λ now p. refl;
  owner-mark_deleted = λ now p. refl;
  deleted_at-mark_deleted = λ now p. refl;
}

pub record CreateRequest : Type 0 where
  pub id : String
  pub name : String
  pub color : String

pub record UpdateRequest : Type 0 where
  pub name : Option String
  pub color : Option String
  pub archived : Option Bool

abbrev pub new_project : Env → String → String → String → String → Project
new_project env id uid name color = record {
  id = id;
  user_id = uid;
  name = name;
  color = color;
  created_at = env.db_now;
  updated_at = env.db_now;
  archived_at = none;
  deleted_at = none;
  server_seq = 0;
}

pub create : Env → String → CreateRequest → Action (Table Project) EntityError Project
create env user_id req = do
  uid ← pure (authenticated env user_id)
  name ← pure (required env req.name "name is required")
  color ← pure (required env req.color "color is required")
  id ← pure (id_or_new env req.id)
  write_row entity env map_constraint_violation "projects: create" (
      insert_into entity env (env.faults insert_row) (λ p. false) "projects_pkey"
        (new_project env id uid name color))

pub list : Env → String → Bytes → ℕ → Table Project → Result EntityError (Page Project Bytes)
list env user_id raw_cursor raw_limit t =
    list_entities entity env "projects: list" (is_mine entity) user_id raw_cursor raw_limit t

pub get : Env → String → String → Table Project → Result EntityError Project
get env user_id id t = get_entity env "projects: get" (get_own entity) user_id id t

-- archived_at after an update.
abbrev pub archived_at_of : Env → Option Time → Option Bool → Option Time
archived_at_of env current none = current
archived_at_of env current (some true) = some env.now
archived_at_of env current (some false) = none

abbrev pub merged : String → String → Option Time → Project → Project
merged name color archived_at p = record p { name = name; color = color; archived_at = archived_at }

pub update : Env → String → String → UpdateRequest → Action (Table Project) EntityError Project
unfolding get
update env user_id id req = do
  current ← read (get env user_id id)
  name ← pure (required_or env current.name req.name "name must not be blank")
  color ← pure (required_or env current.color req.color "color must not be blank")
  uid ← pure (authenticated env user_id)
  pid ← pure (path_id env id)
  write_row entity env map_constraint_violation "projects: update" (
      update_own entity env (env.faults update_row) uid pid (λ p. false) ""
        (merged name color (archived_at_of env current.archived_at req.archived)))

pub delete : Env → String → String → Action (Table Project) EntityError (Unit {0})
delete env user_id id = delete_entity entity env "projects: delete" user_id id
