-- ===== src/Sync/Feed.antt =====
-- The paging part of `pull` in internal/sync/pull.go, with the query `ListChangelogPage` of
-- internal/store/storedb/pull.sql.go: the horizon check, the page and the next cursor.
--
-- `xmin` is `pg_snapshot_xmin(pg_current_snapshot())`: every transaction below it has ended. The
-- check and the query read one snapshot, so both read the same `Db`.
pub mod Sorting
pub mod Complete
use rize_backend.Base.{
  ℕ, zero, suc, ◌+◌, ◌-◌, ◌*◌, ◌/◌, ◌%◌, ◌^◌, ◌≤◌, ◌<◌, String, ◌≡◌, refl, sym, ap, ◌∙◌, ◌≢◌, ◌↔◌,
  ◌⊎◌, inl, inr, Bool, true, false, not, ◌&&◌, ◌||◌, Option, none, some, List, [], ◌∷◌, ◌++◌, map,
  arith, ltb, leb, ◌==◌, if◌then◌else◌, ltb→lt, lt→ltb, ltb-false→le, le→ltb-false, leb→le, ==_iff,
  Bool-cases, Option-cases, length, take, drop, keep, any, All, last?, length-append,
  take-append-drop, length-take, length-drop, sum, In, In-keep, In_of_keep, In_of_take,
  In_of_append, In-append_left, In-append_right, any-eq-true, In-All,
}
use rize_backend.Base.{str_eq}
use rize_backend.Store.Cursor.{PullCursor, is_zero, less, limit_param}
use rize_backend.Store.Paging.{Page, cut_page}
use rize_backend.Sync.Changelog.{Entry, Db, position}

unfoldable pub of_user : String → Option String → Bool
of_user uid none = true
of_user uid (some u) = str_eq u uid

-- WHERE (user_id = $1 OR user_id IS NULL) AND xid8 < xmin
unfoldable pub visible : String → ℕ → Entry → Bool
unfolding of_user
visible uid xmin e = of_user uid e.user_id && ltb e.xid8 xmin

pub insert_entry : Entry → List Entry → List Entry
insert_entry e [] = e ∷ []
insert_entry e (f ∷ fs) =
    let later = f ∷ insert_entry e fs in
    if less (position f) (position e) then later else e ∷ f ∷ fs

-- ORDER BY xid8, server_seq
pub sort_entries : List Entry → List Entry
unfolding insert_entry
sort_entries [] = []
sort_entries (e ∷ es) = insert_entry e (sort_entries es)

pub list_changelog_page : String → ℕ → PullCursor → ℕ → List Entry → List Entry
unfolding visible sort_entries
list_changelog_page uid xmin cursor page_limit changelog =
    take page_limit
      (sort_entries (keep (λ e. visible uid xmin e && less cursor (position e)) changelog))

-- `none` is ErrCursorExpired.
unfoldable pub fetch_page : Db → ℕ → String → PullCursor → ℕ → Option (Page Entry PullCursor)
unfolding list_changelog_page
fetch_page db xmin uid cursor limit =
    if not (is_zero cursor) && less cursor db.horizon
    then none
    else some (
        cut_page position cursor limit
          (list_changelog_page uid xmin cursor (limit_param (limit + 1)) db.changelog))
