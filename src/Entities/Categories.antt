-- ===== src/Entities/Categories.antt =====
-- internal/categories/service.go, with the statements of internal/store/storedb/categories.sql.go.
pub mod Ensured
use rize_backend.Base.{ℕ, String, refl, Bool, false, ◌&&◌, Option, none, some, ltb, leb}
use rize_backend.Base.{str_eq}
use rize_backend.Base.Action.{Action, ◌>>=◌, ◌>>◌, pure, read}
use rize_backend.Base.Result.{Result, ok, err, require}
use rize_backend.Instant.{Time}
use rize_backend.Store.Base64.{Bytes}
use rize_backend.Store.Paging.{Page}
use rize_backend.Store.Query.{one, find}
use rize_backend.Entities.{
  Env, EntityError, not_found, validation, authenticated, path_id, required, required_or,
  as_validation, lookup_error, map_error, insert_row, update_row, get_row,
}
use rize_backend.Entities.Rows.{Entity, Table, get_own, is_visible, insert_into, update_own}
use rize_backend.Entities.Reads.{get_entity, list_entities}
use rize_backend.Entities.Requests.{write_row, delete_entity}
use rize_backend.Base.Int.{ℤ, pos, negsuc}

-- A category without a user is a system default.
pub record Category : Type 0 where
  pub id : String
  pub user_id : Option String
  pub name : String
  pub color : String
  pub productivity : ℤ
  pub created_at : Time
  pub updated_at : Time
  pub deleted_at : Option Time
  pub server_seq : ℕ

abbrev pub entity : Entity Category
entity = record {
  id = λ c. c.id;
  owner = λ c. c.user_id;
  deleted_at = λ c. c.deleted_at;
  server_seq = λ c. c.server_seq;
  stamp = λ now n c. record c { updated_at = now; server_seq = n };
  mark_deleted = λ now c. record c { deleted_at = some now };
  id-stamp = λ now n c. refl;
  owner-stamp = λ now n c. refl;
  deleted_at-stamp = λ now n c. refl;
  server_seq-stamp = λ now n c. refl;
  id-mark_deleted = λ now c. refl;
  owner-mark_deleted = λ now c. refl;
  deleted_at-mark_deleted = λ now c. refl;
}

pub record CreateRequest : Type 0 where
  pub name : String
  pub color : String
  pub productivity : ℤ

pub record UpdateRequest : Type 0 where
  pub name : Option String
  pub color : Option String
  pub productivity : Option ℤ

-- `p < -2 || p > 2` fails.
abbrev pub in_range : ℤ → Bool
in_range (pos n) = leb n 2
in_range (negsuc n) = ltb n 2

abbrev pub validate_productivity : ℤ → Result EntityError (Unit {0})
validate_productivity p = require (in_range p) (validation "productivity must be between -2 and 2")

abbrev pub new_category : Env → String → String → String → ℤ → Category
new_category env uid name color productivity = record {
  id = env.db_uuid;
  user_id = some uid;
  name = name;
  color = color;
  productivity = productivity;
  created_at = env.db_now;
  updated_at = env.db_now;
  deleted_at = none;
  server_seq = 0;
}

pub create : Env → String → CreateRequest → Action (Table Category) EntityError Category
create env user_id req = do
  uid ← pure (authenticated env user_id)
  name ← pure (required env req.name "name is required")
  color ← pure (required env req.color "color is required")
  pure (validate_productivity req.productivity)
  write_row entity env as_validation "categories: create" (
      insert_into entity env (env.faults insert_row) (λ c. false) "categories_pkey"
        (new_category env uid name color req.productivity))

pub list : Env → String → Bytes → ℕ → Table Category → Result EntityError (Page Category Bytes)
list env user_id raw_cursor raw_limit t =
    list_entities entity env "categories: list" (is_visible entity) user_id raw_cursor raw_limit t

-- WHERE id = $1 AND (user_id = $2 OR user_id IS NULL) AND deleted_at IS NULL
abbrev pub get_visible : String → String → Table Category → Option Category
get_visible uid id t = find (λ c. str_eq c.id id && is_visible entity uid c) t.rows

pub get : Env → String → String → Table Category → Result EntityError Category
get env user_id id t = get_entity env "categories: get" get_visible user_id id t

abbrev pub productivity_of : ℤ → Option ℤ → Result EntityError ℤ
productivity_of current none = ok current
productivity_of current (some p) = elim (validate_productivity p) [ err e ↦ err e | ok done ↦ ok p ]

abbrev pub merged : String → String → ℤ → Category → Category
merged name color productivity c = record c {
  name = name;
  color = color;
  productivity = productivity;
}

pub update : Env → String → String → UpdateRequest → Action (Table Category) EntityError Category
update env user_id id req = do
  uid ← pure (authenticated env user_id)
  cid ← pure (path_id env id)
  current ← read (λ t.
      map_error (lookup_error not_found "categories: get own")
        (one (env.faults get_row) (get_own entity uid cid t)))
  name ← pure (required_or env current.name req.name "name must not be blank")
  color ← pure (required_or env current.color req.color "color must not be blank")
  productivity ← pure (productivity_of current.productivity req.productivity)
  write_row entity env as_validation "categories: update" (
      update_own entity env (env.faults update_row) uid cid (λ c. false) ""
        (merged name color productivity))

pub delete : Env → String → String → Action (Table Category) EntityError (Unit {0})
delete env user_id id = delete_entity entity env "categories: delete" user_id id
