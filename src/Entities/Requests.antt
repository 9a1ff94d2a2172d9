-- ===== src/Entities/Requests.antt =====
-- The steps of the requests that write, as the services share them.
pub mod Ensured
use rize_backend.Base.{String, not, ◌==◌, length, keep}
use rize_backend.Base.Action.{Action, ◌>>=◌, ◌>>◌, give, pure, read, write}
use rize_backend.Base.Result.{Result, ok, require}
use rize_backend.Store.Query.{DbError}
use rize_backend.Entities.{
  Env, EntityError, not_found, authenticated, path_id, write_error, map_error, succeeds, delete_row,
}
use rize_backend.Entities.Rows.{Entity, Table, is_own, set_own}

module _ {A : Type 0} (e : Entity A) where
  -- A statement that writes and returns a row.
  pub write_row :
      Env
      → (String → String → EntityError)
      → String
      → (Table A → Result DbError (A × Table A))
      → Action (Table A) EntityError A
  write_row env mapped what statement = do
    p ← read (λ t. map_error (write_error env mapped what) (statement t))
    write (λ t. p.1)
    give p.0

  -- DELETE: the rows are kept, marked as deleted.
  pub delete_entity : Env → String → String → String → Action (Table A) EntityError (Unit {0})
  delete_entity env what user_id id = do
    uid ← pure (authenticated env user_id)
    rid ← pure (path_id env id)
    pure (succeeds (env.faults delete_row) what)
    found ← read (λ t. ok (length (keep (is_own e uid rid) t.rows)))
    write (set_own e env uid rid (e.mark_deleted env.db_now))
    pure (require (not (found == 0)) not_found)
