-- ===== src/Sync/Tests.antt =====
-- Runs of the change feed at concrete inputs.
use rize_backend.Base.Result.{err}
use rize_backend.Base.Action.{◌>>=◌, pure, write, read, give}
use rize_backend.Store.Paging.Sorting.{sort_by}
use rize_backend.Base.{
  ◌*◌, ◌<◌, ◌≡◌, refl, ap, ◌≢◌, inl, inr, Bool, true, false, none, some, List, [], ◌∷◌, arith, In,
}
use rize_backend.Instant.{day}
use rize_backend.Store.Cursor.{PullCursor, zero_cursor, is_zero, less, limit_param}
use rize_backend.Store.Paging.{Page, cut_page}
use rize_backend.Sync.Changelog.{Entry, Db, position}
use rize_backend.Sync.Prune.{Pruner, Call, commit, failed, idle, prune_session, prune_once}
use rize_backend.Sync.Prune.Atomic.{IsAtomic, prune_session-IsAtomic}
use rize_backend.Sync.Prune.Horizon.{HasUniqueIds, IsPruned, prune_once-IsPruned}
use rize_backend.Sync.Prune.Bounds.{IsTick, prune_once-IsTick}
use rize_backend.Sync.Feed.{fetch_page}
use rize_backend.Sync.Feed.Sorting.{HasUniquePositions}
use rize_backend.Sync.Feed.Complete.{IsCompletePage, fetch_page-IsCompletePage}
use rize_backend.Sync.History.{
  World, IsFresh, Step, commits, advances, prunes, pulls, Reach, here, next, start,
}
use rize_backend.Sync.History.Consistent.{HasDelivered, fresh_unique_ids, fresh_unique_positions}
use rize_backend.Sync.History.Delivered.{Reach-HasDelivered}

-- A month-old category of everyone and a recent project of one user.
abbrev old : Entry
old = record {
  changelog_id = 1;
  user_id = none;
  entity_type = "categories";
  entity_id = "c1";
  event_started_at = none;
  xid8 = 7;
  server_seq = 2;
  created_at = day;
}

abbrev recent : Entry
recent = record {
  changelog_id = 2;
  user_id = some "u1";
  entity_type = "projects";
  entity_id = "p1";
  event_started_at = none;
  xid8 = 5;
  server_seq = 3;
  created_at = 40 * day;
}

none-IsFresh : (e : Entry) → 0 < e.xid8 → IsFresh [] e
none-IsFresh e h = record { real = h; id = λ f m. absurd m; seq = λ f m. absurd m }

old-IsFresh : IsFresh (recent ∷ []) old
old-IsFresh = record {
  real = omega arith;
  id = λ f m. id_differs f m;
  seq = λ f m. seq_differs f m;
}
  where
    id_differs : (f : Entry) → In f (recent ∷ []) → old.changelog_id ≢ f.changelog_id
    id_differs f (inl p) h = absurd (omega (arith, ap (λ (x : Entry). x.changelog_id) p, h))
    id_differs f (inr m) h = m

    seq_differs : (f : Entry) → In f (recent ∷ []) → old.server_seq ≢ f.server_seq
    seq_differs f (inl p) h = absurd (omega (arith, ap (λ (x : Entry). x.server_seq) p, h))
    seq_differs f (inr m) h = m

abbrev entries : List Entry
entries = old ∷ recent ∷ []

entries_unique_ids : HasUniqueIds entries
entries_unique_ids =
    fresh_unique_ids (recent ∷ []) old old-IsFresh
      (fresh_unique_ids [] recent (none-IsFresh recent (omega arith)) (λ a b m n. absurd m))

entries_unique_positions : HasUniquePositions entries
entries_unique_positions =
    fresh_unique_positions (recent ∷ []) old old-IsFresh
      (fresh_unique_positions [] recent (none-IsFresh recent (omega arith)) (λ a b m n. absurd m))

abbrev db : Db
db = record { changelog = entries; horizon = zero_cursor }

abbrev pruner : Pruner
pruner = record { has_pool = true; max_age = 30 * day; batch_size = 10 }

abbrev nothing_fails : Call → Bool
nothing_fails c = false

abbrev commit_fails : Call → Bool
commit_fails commit = true
commit_fails c = false

prune_once-IsPruned_example : IsPruned db (prune_once pruner nothing_fails (41 * day) db).1
prune_once-IsPruned_example =
    prune_once-IsPruned pruner nothing_fails (41 * day) db entries_unique_ids

prune_session-IsAtomic_example :
    IsAtomic pruner
      (41 * day)
      db
      (err (failed commit))
      (prune_session pruner commit_fails (41 * day) (idle db)).1
unfolding prune_session ◌>>=◌ pure write read sort_by give
prune_session-IsAtomic_example = prune_session-IsAtomic pruner (41 * day) db commit_fails

prune_once-IsTick_example :
    IsTick pruner (41 * day) db (prune_once pruner nothing_fails (41 * day) db).1 1
unfolding prune_once ◌>>=◌ pure write read sort_by give
prune_once-IsTick_example =
    prune_once-IsTick pruner (41 * day) db entries_unique_ids nothing_fails 1 refl

abbrev first_page : Page Entry PullCursor
first_page = record { rows = recent ∷ []; next_cursor = position recent; has_more = true }

first_page_served : fetch_page db 9 "u1" zero_cursor 1 ≡ some first_page
unfolding fetch_page is_zero cut_page limit_param less
first_page_served = refl

fetch_page-IsCompletePage_example : IsCompletePage entries "u1" 9 zero_cursor first_page
fetch_page-IsCompletePage_example =
    fetch_page-IsCompletePage db 9 "u1" zero_cursor 1 first_page (omega arith) (omega arith)
      entries_unique_positions first_page_served

-- The project commits, the client pulls it, and a tick of the pruner runs.
abbrev committed : World
committed = record start { log = recent ∷ []; db = record start.db { changelog = recent ∷ [] } }

abbrev ended : World
ended = record committed { xmin = 9 }

abbrev last_page : Page Entry PullCursor
last_page = record { rows = recent ∷ []; next_cursor = position recent; has_more = false }

abbrev pulled : World
pulled = record ended { cursor = position recent; received = recent ∷ [] }

last_page_served : fetch_page ended.db 9 "u1" zero_cursor 10 ≡ some last_page
unfolding fetch_page is_zero cut_page limit_param less
last_page_served = refl

pulled_once : Step "u1" ended pulled
unfolding is_zero
pulled_once = pulls ended 10 last_page (omega arith) (omega arith) last_page_served

run :
    Reach "u1" start
      (record pulled { db = (prune_once pruner nothing_fails (90 * day) pulled.db).1 })
run =
    next
      (next
        (next (next here (commits start recent (omega arith) (none-IsFresh recent (omega arith))))
          (advances committed 9 (omega arith)))
        pulled_once)
      (prunes pulled pruner nothing_fails (90 * day))

Reach-HasDelivered_example :
    HasDelivered "u1"
      (record pulled { db = (prune_once pruner nothing_fails (90 * day) pulled.db).1 })
Reach-HasDelivered_example = Reach-HasDelivered "u1" _ run
