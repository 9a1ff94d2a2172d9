-- ===== src/Entities/Rows.antt =====
-- The statements that the services run, over rows that have an id, an owner, a time of deletion and
-- a server_seq. The trigger set_server_seq gives a row the next value of the sequence when it is
-- written.
pub mod Distinct
pub mod Written
pub mod Found
pub mod Lookup
use rize_backend.Base.{
  ℕ, ◌+◌, String, ◌≡◌, Bool, false, not, ◌&&◌, ◌||◌, Option, none, some, List, [], ◌∷◌, ◌++◌, ltb,
  if◌then◌else◌, take, keep, any,
}
use rize_backend.Base.{str_eq}
use rize_backend.Base.Result.{Result, ok, err, ◌>>=◌, ◌>>◌, require}
use rize_backend.Instant.{Time}
use rize_backend.Store.Paging.Sorting.{sort_by}
use rize_backend.Store.Query.{Fault, sqlstate, DbError, fault, is_null, one, find, set_where}
use rize_backend.Sync.Feed.{of_user}
use rize_backend.Entities.{Env}

-- `stamp` sets updated_at and server_seq, `mark_deleted` deleted_at.
pub record Entity (A : Type 0) : Type 0 where
  pub id : A → String
  pub owner : A → Option String
  pub deleted_at : A → Option Time
  pub server_seq : A → ℕ
  pub stamp : Time → ℕ → A → A
  pub mark_deleted : Time → A → A
  pub id-stamp : (now : Time) (n : ℕ) (a : A) → id (stamp now n a) ≡ id a
  pub owner-stamp : (now : Time) (n : ℕ) (a : A) → owner (stamp now n a) ≡ owner a
  pub deleted_at-stamp : (now : Time) (n : ℕ) (a : A) → deleted_at (stamp now n a) ≡ deleted_at a
  pub server_seq-stamp : (now : Time) (n : ℕ) (a : A) → server_seq (stamp now n a) ≡ n
  pub id-mark_deleted : (now : Time) (a : A) → id (mark_deleted now a) ≡ id a
  pub owner-mark_deleted : (now : Time) (a : A) → owner (mark_deleted now a) ≡ owner a
  pub deleted_at-mark_deleted : (now : Time) (a : A) → deleted_at (mark_deleted now a) ≡ some now

-- A table, and the last value that it took from the sequence.
pub record Table (A : Type 0) : Type 0 where
  pub rows : List A
  pub last_seq : ℕ

abbrev pub nextval : {A : Type 0} → Env → Table A → ℕ
nextval env t = t.last_seq + 1 + env.seq_gap

-- user_id = $1; NULL equals nothing.
abbrev pub owned_by : String → Option String → Bool
owned_by uid none = false
owned_by uid (some u) = str_eq u uid

module _ {A : Type 0} (e : Entity A) where
  -- WHERE id = $1 AND user_id = $2 AND deleted_at IS NULL
  abbrev pub is_own : String → String → A → Bool
  is_own uid id a = str_eq (e.id a) id && owned_by uid (e.owner a) && is_null (e.deleted_at a)

  abbrev pub get_own : String → String → Table A → Option A
  get_own uid id t = find (is_own uid id) t.rows

  -- With the system's rows, which have no owner.
  abbrev pub is_visible : String → A → Bool
  is_visible uid a = of_user uid (e.owner a) && is_null (e.deleted_at a)

  abbrev pub is_mine : String → A → Bool
  is_mine uid a = owned_by uid (e.owner a) && is_null (e.deleted_at a)

  -- INSERT ... RETURNING, where the primary key is the id and `taken` another unique constraint.
  pub insert_into :
      Env → Option Fault → (A → Bool) → String → A → Table A → Result DbError (A × Table A)
  insert_into env (some f) taken constraint a t = err (fault f)
  insert_into env none taken constraint a t =
      if any (λ b. str_eq (e.id b) (e.id a) || taken b) t.rows
      then err (fault (sqlstate "23505" constraint))
      else ok (
        e.stamp env.db_now (nextval env t) a,
        record {
          rows = t.rows ++ e.stamp env.db_now (nextval env t) a ∷ [];
          last_seq = nextval env t;
        },
      )

  -- UPDATE ... WHERE id = $1 AND user_id = $2 AND deleted_at IS NULL
  pub set_own : Env → String → String → (A → A) → Table A → Table A
  set_own env uid id f t =
      if any (is_own uid id) t.rows
      then record {
        rows = set_where (is_own uid id) (λ a. e.stamp env.db_now (nextval env t) (f a)) t.rows;
        last_seq = nextval env t;
      }
      else t

  -- The same with RETURNING, where no other row may be `taken`.
  pub update_own :
      Env
      → Option Fault
      → String
      → String
      → (A → Bool)
      → String
      → (A → A)
      → Table A
      → Result DbError (A × Table A)
  unfolding set_own
  update_own env f uid id taken constraint change t = do
    a ← one f (get_own uid id t)
    require (not (any (λ b. not (str_eq (e.id b) id) && taken b) t.rows))
        (fault (sqlstate "23505" constraint))
    ok (e.stamp env.db_now (nextval env t) (change a), set_own env uid id change t)

  -- ORDER BY server_seq
  abbrev pub by_seq : List A → List A
  by_seq rows = sort_by e.server_seq ltb rows

  abbrev pub is_after : ℕ → A → Bool
  is_after cursor a = ltb cursor (e.server_seq a)

  -- SELECT ... WHERE visible AND server_seq > cursor ORDER BY server_seq LIMIT limit
  abbrev pub select_page : (A → Bool) → ℕ → ℕ → Table A → List A
  select_page visible cursor limit t =
      take limit (keep (is_after cursor) (by_seq (keep visible t.rows)))
