-- ===== src/Sync/Pull/Response.antt =====
-- `pull` of internal/sync/pull.go: the checks, the page, and the response by entity type. Every
-- query runs in one transaction, so all read one snapshot.
pub mod Grouped
pub mod Delivered
pub mod Answered
use rize_backend.Base.{
  ℕ, zero, suc, ◌+◌, ◌-◌, ◌*◌, ◌/◌, ◌%◌, ◌^◌, ◌≤◌, ◌<◌, String, ◌≡◌, refl, sym, ap, ◌∙◌, ◌≢◌, ◌↔◌,
  ◌⊎◌, inl, inr, Bool, true, false, not, ◌&&◌, ◌||◌, Option, none, some, List, [], ◌∷◌, ◌++◌, map,
  arith, ltb, leb, ◌==◌, if◌then◌else◌, ltb→lt, lt→ltb, ltb-false→le, le→ltb-false, leb→le, ==_iff,
  Bool-cases, Option-cases, length, take, drop, keep, any, All, last?, length-append,
  take-append-drop, length-take, length-drop, sum, In, In-keep, In_of_keep, In_of_take,
  In_of_append, In-append_left, In-append_right, any-eq-true, In-All,
}
use rize_backend.Base.Result.{Result, ok, err, require, or_fail, ◌>>=◌, ◌>>◌}
use rize_backend.Store.Base64.{Bytes}
use rize_backend.Store.Cursor.{PullCursor, is_zero, encode_pull_cursor, decode_pull_cursor}
use rize_backend.Store.Paging.{Page, clamp_limit}
use rize_backend.Store.Query.{Fault}
use rize_backend.Sync.Changelog.{Entry}
use rize_backend.Sync.Feed.{fetch_page}
use rize_backend.Sync.Pull.{
  Env, PullError, failed, invalid_user_id, invalid_cursor, cursor_expired, begin, get_horizon,
  list_page, ChangelogEntry, Change, upsert, tombstone, Upsert, TombstoneDto, ChangeSet,
  PullResponse, default_pull_limit, max_pull_limit, pull_entity_types,
}
use rize_backend.Sync.Pull.Tables.{Snapshot}
use rize_backend.Sync.Pull.Keyed.{get, held, append_to}
use rize_backend.Sync.Pull.Collect.{Collected, nothing_collected, collect}

pub record Groups : Type 0 where
  pub upserts : List (String × List Upsert)
  pub tombstones : List (String × List TombstoneDto)

abbrev pub group_one : String → Change → Groups → Groups
group_one t (upsert u) g = record g { upserts = append_to t u g.upserts }
group_one t (tombstone d) g = record g { tombstones = append_to t d g.tombstones }

-- A key whose entry was removed is passed over.
abbrev pub group_found : Option ChangelogEntry → Groups → Groups
group_found none g = g
group_found (some entry) g = group_one entry.entity_type entry.change g

unfoldable pub group_entries : List (String × ChangelogEntry) → List String → Groups → Groups
group_entries by_key [] g = g
group_entries by_key (k ∷ ks) g = group_entries by_key ks (group_found (get k by_key) g)

abbrev pub change_set : Groups → String → ChangeSet
change_set g t = record { upserts = held t g.upserts; tombstones = held t g.tombstones }

abbrev pub no_groups : Groups
no_groups = record { upserts = []; tombstones = [] }

unfoldable pub changes_of : Collected → List (String × ChangeSet)
unfolding group_entries
changes_of c =
    let g = group_entries c.by_key c.ordered no_groups in
    map (λ t. (t, change_set g t)) pull_entity_types

abbrev pub succeeds : Option Fault → String → Result PullError (Unit {0})
succeeds none what = ok tt
succeeds (some f) what = err (failed what)

unfoldable pub pull_limit : ℕ → ℕ
pull_limit raw_limit = clamp_limit default_pull_limit max_pull_limit raw_limit

-- The check of the horizon, which an empty cursor skips, and the query for the page.
unfoldable pub read_page :
    Env → Snapshot → String → PullCursor → ℕ → Result PullError (Page Entry PullCursor)
read_page env s uid cursor limit = do
  succeeds (if is_zero cursor then none else env.faults get_horizon) "sync: get changelog horizon"
  page ← or_fail (fetch_page s.db s.xmin uid cursor limit) cursor_expired
  succeeds (env.faults list_page) "sync: list changelog page"
  ok page

abbrev pub respond : Page Entry PullCursor → Collected → PullResponse
respond page c = record {
  changes = changes_of c;
  next_cursor = encode_pull_cursor page.next_cursor;
  has_more = page.has_more;
}

unfoldable pub pull : Env → Snapshot → String → Bytes → ℕ → Result PullError PullResponse
unfolding pull_limit read_page changes_of
pull env s user_id raw_cursor raw_limit = do
  uid ← or_fail (env.parse_uuid user_id) invalid_user_id
  cursor ← or_fail (decode_pull_cursor raw_cursor) invalid_cursor
  succeeds (env.faults begin) "sync: begin pull snapshot transaction"
  page ← read_page env s uid cursor (pull_limit raw_limit)
  c ← collect env s uid page.rows nothing_collected
  ok (respond page c)
