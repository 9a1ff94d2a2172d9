-- ===== src/Entities/Tags.antt =====
-- internal/tags/service.go, with the statements of internal/store/storedb/tags.sql.go.
pub mod Ensured
use rize_backend.Base.{ℕ, String, refl, Bool, ◌&&◌, Option, none, some}
use rize_backend.Base.{str_eq}
use rize_backend.Base.Action.{Action, ◌>>=◌, pure, read}
use rize_backend.Base.Result.{Result}
use rize_backend.Instant.{Time}
use rize_backend.Store.Base64.{Bytes}
use rize_backend.Store.Paging.{Page}
use rize_backend.Entities.{
  Env, EntityError, authenticated, path_id, id_or_new, required, required_or,
  map_constraint_violation, insert_row, update_row,
}
use rize_backend.Entities.Rows.{Entity, Table, get_own, is_mine, insert_into, update_own}
use rize_backend.Entities.Reads.{get_entity, list_entities}
use rize_backend.Entities.Requests.{write_row, delete_entity}

pub record Tag : Type 0 where
  pub id : String
  pub user_id : String
  pub name : String
  pub updated_at : Time
  pub deleted_at : Option Time
  pub server_seq : ℕ

abbrev pub entity : Entity Tag
entity = record {
  id = λ a. a.id;
  owner = λ a. some a.user_id;
  deleted_at = λ a. a.deleted_at;
  server_seq = λ a. a.server_seq;
  stamp = λ now n a. record a { updated_at = now; server_seq = n };
  mark_deleted = λ now a. record a { deleted_at = some now };
  id-stamp = λ now n a. refl;
  owner-stamp = λ now n a. refl;
  deleted_at-stamp = λ now n a. refl;
  server_seq-stamp = λ now n a. refl;
  id-mark_deleted = λ now a. refl;
  owner-mark_deleted = λ now a. refl;
  deleted_at-mark_deleted = λ now a. refl;
}

pub record CreateRequest : Type 0 where
  pub id : String
  pub name : String

pub record UpdateRequest : Type 0 where
  pub name : Option String

abbrev pub new_tag : Env → String → String → String → Tag
new_tag env id uid name = record {
  id = id;
  user_id = uid;
  name = name;
  updated_at = env.db_now;
  deleted_at = none;
  server_seq = 0;
}

-- UNIQUE (user_id, name), which deleted tags count for too.
abbrev pub has_name : String → String → Tag → Bool
has_name uid name a = str_eq a.user_id uid && str_eq a.name name

abbrev pub name_constraint : String
name_constraint = "tags_user_id_name_key"

pub create : Env → String → CreateRequest → Action (Table Tag) EntityError Tag
create env user_id req = do
  uid ← pure (authenticated env user_id)
  name ← pure (required env req.name "name is required")
  id ← pure (id_or_new env req.id)
  write_row entity env map_constraint_violation "tags: create" (
      insert_into entity env (env.faults insert_row) (has_name uid name) name_constraint
        (new_tag env id uid name))

pub list : Env → String → Bytes → ℕ → Table Tag → Result EntityError (Page Tag Bytes)
list env user_id raw_cursor raw_limit t =
    list_entities entity env "tags: list" (is_mine entity) user_id raw_cursor raw_limit t

pub get : Env → String → String → Table Tag → Result EntityError Tag
get env user_id id t = get_entity env "tags: get" (get_own entity) user_id id t

abbrev pub renamed : String → Tag → Tag
renamed name a = record a { name = name }

pub update : Env → String → String → UpdateRequest → Action (Table Tag) EntityError Tag
unfolding get
update env user_id id req = do
  current ← read (get env user_id id)
  name ← pure (required_or env current.name req.name "name must not be blank")
  uid ← pure (authenticated env user_id)
  rid ← pure (path_id env id)
  write_row entity env map_constraint_violation "tags: update" (
      update_own entity env (env.faults update_row) uid rid (has_name uid name) name_constraint
        (renamed name))

pub delete : Env → String → String → Action (Table Tag) EntityError (Unit {0})
delete env user_id id = delete_entity entity env "tags: delete" user_id id
