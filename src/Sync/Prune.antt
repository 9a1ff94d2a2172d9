-- ===== src/Sync/Prune.antt =====
-- internal/sync/retention.go and internal/store/storedb/sync_retention.sql.go: one tick of the
-- job that deletes old entries of the change log.
--
-- The environment chooses which database calls fail (`fails`). A statement writes what only its
-- transaction sees; a commit makes that visible. `MaxAge` and `BatchSize` are numbers here; a
-- negative value takes the branch of 0.
pub mod Transaction
pub mod Horizon
pub mod Bounds
pub mod Atomic
use rize_backend.Base.{
  ℕ, zero, suc, ◌+◌, ◌-◌, ◌*◌, ◌/◌, ◌%◌, ◌^◌, ◌≤◌, ◌<◌, String, ◌≡◌, refl, sym, ap, ◌∙◌, ◌≢◌, ◌↔◌,
  ◌⊎◌, inl, inr, Bool, true, false, not, ◌&&◌, ◌||◌, Option, none, some, List, [], ◌∷◌, ◌++◌, map,
  arith, ltb, leb, ◌==◌, if◌then◌else◌, ltb→lt, lt→ltb, ltb-false→le, le→ltb-false, leb→le, ==_iff,
  Bool-cases, Option-cases, length, take, drop, keep, any, All, last?, length-append,
  take-append-drop, length-take, length-drop, sum,
}
use rize_backend.Base.Action.{Action, ◌>>=◌, ◌>>◌, give, pure, read, write}
use rize_backend.Base.Result.{Result, ok, err, require, or_fail}
use rize_backend.Store.Paging.Sorting.{sort_by}
use rize_backend.Instant.{Time, before}
use rize_backend.Store.Cursor.{PullCursor}
use rize_backend.Sync.Changelog.{Entry, Db}

pub record Pruner : Type 0 where
  pub has_pool : Bool
  pub max_age : ℕ
  pub batch_size : ℕ

pub data Call : Type 0 where
  begin select_batch delete_rows advance_horizon commit : Call

pub data PruneError : Type 0 where
  bad_max_age bad_batch_size no_pool : PruneError
  failed : Call → PruneError

-- WHERE created_at < cutoff ORDER BY changelog_id LIMIT limit
pub select_changelog_prune_batch : Time → ℕ → List Entry → List Entry
select_changelog_prune_batch cutoff limit changelog =
    take limit
      (sort_by (λ e. e.changelog_id) ltb (keep (λ e. before e.created_at cutoff) changelog))

-- The loop over the victims: `maxXid8`, which starts invalid, and `maxServerSeq`.
pub max_xid8 : Option ℕ → List Entry → Option ℕ
max_xid8 m [] = m
max_xid8 none (v ∷ victims) = max_xid8 (some v.xid8) victims
max_xid8 (some x) (v ∷ victims) = max_xid8 (some (if ltb x v.xid8 then v.xid8 else x)) victims

pub max_server_seq : ℕ → List Entry → ℕ
max_server_seq m [] = m
max_server_seq m (v ∷ victims) =
    max_server_seq (if ltb m v.server_seq then v.server_seq else m) victims

pub has_id : ℕ → List Entry → Bool
has_id id victims = any (λ v. v.changelog_id == id) victims

-- WHERE changelog_id = ANY(ids)
delete_changelog_rows : List Entry → List Entry → List Entry
unfolding has_id
delete_changelog_rows victims changelog = keep (λ e. not (has_id e.changelog_id victims)) changelog

pub deleted_count : List Entry → List Entry → ℕ
unfolding has_id
deleted_count victims changelog = length (keep (λ e. has_id e.changelog_id victims) changelog)

greatest : ℕ → ℕ → ℕ
greatest a b = if ltb a b then b else a

pub greatest_xid8 : ℕ → Option ℕ → ℕ
unfolding greatest
greatest_xid8 a none = a
greatest_xid8 a (some b) = greatest a b

advance_changelog_horizon : Option ℕ → ℕ → PullCursor → PullCursor
unfolding greatest_xid8
advance_changelog_horizon xid8 server_seq h = record {
  xid8 = greatest_xid8 h.xid8 xid8;
  server_seq = greatest h.server_seq server_seq;
}

-- int32(p.BatchSize); a negative LIMIT is an error of the query.
pub int32_limit : ℕ → Option ℕ
int32_limit n = let w = n % 2 ^ 32 in if ltb w (2 ^ 31) then some w else none

-- What everybody sees, and what an open transaction has made of it.
pub record Session : Type 0 where
  pub shown : Db
  pub pending : Option Db

abbrev pub idle : Db → Session
idle db = record { shown = db; pending = none }

-- What a statement of the transaction reads.
abbrev pub working : Session → Db
working s = elim s.pending [ none ↦ s.shown | some db ↦ db ]

abbrev pub Step : Type 0 → Type 0
Step A = Action Session PruneError A

call : (Call → Bool) → Call → Step (Unit {0})
call fails c = pure (require (not (fails c)) (failed c))

begin_tx : (Call → Bool) → Step (Unit {0})
unfolding call
begin_tx fails = call fails begin >> write (λ s. record s { pending = some s.shown })

-- A statement that writes, which only the transaction sees.
exec : (Call → Bool) → Call → (Db → Db) → Step (Unit {0})
unfolding call
exec fails c change = call fails c >> write (λ s. record s { pending = some (change (working s)) })

commit_tx : (Call → Bool) → Step (Unit {0})
unfolding call
commit_tx fails = call fails commit >> write (λ s. idle (working s))

pub delete_rows_of : List Entry → Db → Db
unfolding delete_changelog_rows
delete_rows_of victims db = record db { changelog = delete_changelog_rows victims db.changelog }

pub move_horizon : List Entry → Db → Db
unfolding max_xid8 max_server_seq advance_changelog_horizon
move_horizon victims db = record db {
  horizon = advance_changelog_horizon (max_xid8 none victims) (max_server_seq 0 victims) db.horizon;
}

-- From the victims on.
prune_victims : (Call → Bool) → List Entry → Step ℕ
unfolding commit_tx exec deleted_count delete_rows_of move_horizon
prune_victims fails [] = do commit_tx fails; give 0
prune_victims fails (v ∷ victims) = do
  deleted ← read (λ s. ok (deleted_count (v ∷ victims) (working s).changelog))
  exec fails delete_rows (delete_rows_of (v ∷ victims))
  exec fails advance_horizon (move_horizon (v ∷ victims))
  commit_tx fails
  give deleted

prune_tx : Pruner → (Call → Bool) → Time → Step ℕ
unfolding begin_tx call int32_limit select_changelog_prune_batch prune_victims
prune_tx p fails now = do
  pure (require (ltb 0 p.max_age) bad_max_age)
  pure (require (ltb 0 p.batch_size) bad_batch_size)
  pure (require p.has_pool no_pool)
  begin_tx fails
  call fails select_batch
  limit ← pure (or_fail (int32_limit p.batch_size) (failed select_batch))
  victims ←
      read (λ s. ok (select_changelog_prune_batch (now - p.max_age) limit (working s).changelog))
  prune_victims fails victims

-- The deferred Rollback, unless the transaction was committed: then no error is returned.
deferred : Result PruneError ℕ × Session → Result PruneError ℕ × Session
deferred (ok n, s) = (ok n, s)
deferred (err e, s) = (err e, record s { pending = none })

-- `PruneOnce`, with the connection that it uses.
unfoldable pub prune_session : Pruner → (Call → Bool) → Time → Step ℕ
unfolding prune_tx deferred
prune_session p fails now s = deferred (prune_tx p fails now s)

-- What the caller gets, and what everybody sees.
unfoldable pub prune_once : Pruner → (Call → Bool) → Time → Db → Result PruneError ℕ × Db
unfolding prune_session
prune_once p fails now db = let (r, s) = prune_session p fails now (idle db) in (r, s.shown)
