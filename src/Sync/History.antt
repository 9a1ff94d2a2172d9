-- ===== src/Sync/History.antt =====
-- Commits, ticks of the pruner and pulls of one client, in any order.
--
-- A transaction takes its `xid8` before it commits, so entries appear in the log with any `xid8`
-- that is not below the current `xmin`, and `xmin` never falls. `server_seq` and `changelog_id`
-- come from sequences. A client that is told that its cursor expired starts from the empty one.
pub mod Consistent
pub mod Pulls
pub mod Delivered
use rize_backend.Base.{
  ℕ, zero, suc, ◌+◌, ◌-◌, ◌*◌, ◌/◌, ◌%◌, ◌^◌, ◌≤◌, ◌<◌, String, ◌≡◌, refl, sym, ap, ◌∙◌, ◌≢◌, ◌↔◌,
  ◌⊎◌, inl, inr, Bool, true, false, not, ◌&&◌, ◌||◌, Option, none, some, List, [], ◌∷◌, ◌++◌, map,
  arith, ltb, leb, ◌==◌, if◌then◌else◌, ltb→lt, lt→ltb, ltb-false→le, le→ltb-false, leb→le, ==_iff,
  Bool-cases, Option-cases, length, take, drop, keep, any, All, last?, length-append,
  take-append-drop, length-take, length-drop, sum, In, In-keep, In_of_keep, In_of_take,
  In_of_append, In-append_left, In-append_right, any-eq-true, In-All,
}
use rize_backend.Instant.{Time}
use rize_backend.Store.Cursor.{PullCursor, zero_cursor, is_zero}
use rize_backend.Store.Paging.{Page}
use rize_backend.Sync.Changelog.{Entry, Db}
use rize_backend.Sync.Prune.{Pruner, Call, prune_once}
use rize_backend.Sync.Feed.{fetch_page}

-- `log` is every entry ever committed, `base` the horizon at the client's last pull from the
-- empty cursor.
pub record World : Type 0 where
  pub log : List Entry
  pub db : Db
  pub xmin : ℕ
  pub cursor : PullCursor
  pub received : List Entry
  pub base : PullCursor

pub record IsFresh (log : List Entry) (e : Entry) : Type 0 where
  pub real : 0 < e.xid8
  pub id : (f : Entry) → In f log → e.changelog_id ≢ f.changelog_id
  pub seq : (f : Entry) → In f log → e.server_seq ≢ f.server_seq

pub data Step (uid : String) : World → World → Type 0 where
  commits :
      (w : World) (e : Entry)
      → w.xmin ≤ e.xid8
      → IsFresh w.log e
      → Step uid w
          (record w { log = e ∷ w.log; db = record w.db { changelog = w.db.changelog ++ e ∷ [] } })
  advances : (w : World) (xmin : ℕ) → w.xmin ≤ xmin → Step uid w (record w { xmin = xmin })
  prunes :
      (w : World) (p : Pruner) (fails : Call → Bool) (now : Time)
      → Step uid w (record w { db = (prune_once p fails now w.db).1 })
  pulls :
      (w : World) (limit : ℕ) (page : Page Entry PullCursor)
      → 0 < limit
      → limit ≤ 500
      → fetch_page w.db w.xmin uid w.cursor limit ≡ some page
      → Step uid w (record w {
        cursor = page.next_cursor;
        received = page.rows ++ w.received;
        base = if is_zero w.cursor then w.db.horizon else w.base;
      })
  resets :
      (w : World) (limit : ℕ)
      → fetch_page w.db w.xmin uid w.cursor limit ≡ none
      → Step uid w (record w { cursor = zero_cursor })

pub data Reach (uid : String) (s : World) : World → Type 0 where
  here : Reach uid s s
  next : {t u : World} → Reach uid s t → Step uid t u → Reach uid s u

-- Nothing committed, nothing pulled.
abbrev pub start : World
start = record {
  log = [];
  db = record { changelog = []; horizon = zero_cursor };
  xmin = 1;
  cursor = zero_cursor;
  received = [];
  base = zero_cursor;
}
