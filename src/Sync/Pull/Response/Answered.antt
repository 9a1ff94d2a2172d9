-- ===== src/Sync/Pull/Response/Answered.antt =====
-- When a pull is answered.
use rize_backend.Base.{
  ℕ, String, ◌≡◌, refl, inl, inr, Bool, true, false, Option, none, some, List, [], ◌∷◌, Bool-cases,
  In,
}
use rize_backend.Base.Result.{Result, ok, err}
use rize_backend.Store.Base64.{Bytes}
use rize_backend.Store.Cursor.{PullCursor, is_zero, decode_pull_cursor}
use rize_backend.Store.Paging.{Page}
use rize_backend.Sync.Changelog.{Entry}
use rize_backend.Sync.Feed.{fetch_page}
use rize_backend.Sync.Pull.{
  begin, get_horizon, list_page, Env, Call, ChangelogEntry, PullResponse, pull_entity_types,
}
use rize_backend.Sync.Pull.Tables.{Snapshot}
use rize_backend.Sync.Pull.Resolve.{resolve_changelog_entry}
use rize_backend.Sync.Pull.Collect.{change_key, Collected, nothing_collected, collect_one, collect}
use rize_backend.Sync.Pull.Response.{pull_limit, respond, read_page, pull}

is_ok : {E A : Type 0} → Result E A → Bool
is_ok (ok a) = true
is_ok (err e) = false

answered : {E A : Type 0} (r : Result E A) → is_ok r ≡ true → (a : A) × (r ≡ ok a)
unfolding is_ok
answered (ok a) h = (a, refl)
answered (err e) h = cc

module _ (env : Env) (s : Snapshot) (quiet : (c : Call) → env.faults c ≡ none) where
  resolve_changelog_entry-ok :
      (uid : String) (row : Entry)
      → In row.entity_type pull_entity_types
      → (r : Option ChangelogEntry) × (resolve_changelog_entry env s uid row ≡ ok r)
  unfolding resolve_changelog_entry is_ok
  resolve_changelog_entry-ok uid row (inl e) = answered _ (rw (e, quiet _) refl)
  resolve_changelog_entry-ok uid row (inr (inl e)) = answered _ (rw (e, quiet _) refl)
  resolve_changelog_entry-ok uid row (inr (inr (inl e))) = answered _ (rw (e, quiet _) refl)
  resolve_changelog_entry-ok uid row (inr (inr (inr (inl e)))) = answered _ (rw (e, quiet _) refl)
  resolve_changelog_entry-ok uid row (inr (inr (inr (inr (inl e))))) =
      answered _ (rw (e, quiet _) refl)
  resolve_changelog_entry-ok uid row (inr (inr (inr (inr (inr (inl e)))))) =
      answered _ (rw (e, quiet _) refl)
  resolve_changelog_entry-ok uid row (inr (inr (inr (inr (inr (inr m)))))) = absurd m

  collect-ok :
      (uid : String) (rows : List Entry) (c : Collected)
      → ((row : Entry) → In row rows → In row.entity_type pull_entity_types)
      → (d : Collected) × (collect env s uid rows c ≡ ok d)
  unfolding collect
  collect-ok uid [] c known = (c, refl)
  collect-ok uid (row ∷ rows) c known =
      let (r, found) = resolve_changelog_entry-ok uid row (known row (inl refl)) in
      let (d, rest) =
        collect-ok uid rows (collect_one c (change_key row) r) (λ x m. known x (inr m)) in
      (d, rw (found, rest) refl)

  read_page-ok :
      (uid : String) (cursor : PullCursor) (limit : ℕ) (page : Page Entry PullCursor)
      → fetch_page s.db s.xmin uid cursor limit ≡ some page
      → read_page env s uid cursor limit ≡ ok page
  unfolding read_page
  read_page-ok uid cursor limit page fetched = elim (Bool-cases (is_zero cursor)) [
    | inl z ↦ rw (z, fetched, quiet _) refl
    | inr z ↦ rw (z, quiet get_horizon, fetched, quiet list_page) refl
  ]

  -- While no statement fails: a pull with a valid user id, a valid cursor that is not expired,
  -- and a page whose rows have the six known entity types is answered.
  pub pull-ok :
      (user_id uid : String) (raw_cursor : Bytes) (cursor : PullCursor) (raw_limit : ℕ)
      (page : Page Entry PullCursor)
      → env.parse_uuid user_id ≡ some uid
      → decode_pull_cursor raw_cursor ≡ some cursor
      → fetch_page s.db s.xmin uid cursor (pull_limit raw_limit) ≡ some page
      → ((row : Entry) → In row page.rows → In row.entity_type pull_entity_types)
      → (resp : PullResponse) × (pull env s user_id raw_cursor raw_limit ≡ ok resp)
  unfolding pull
  pull-ok user_id uid raw_cursor cursor raw_limit page parsed decoded fetched known =
      let (c, collected) = collect-ok uid page.rows nothing_collected known in
      (
        respond page c,
        rw
            (
              parsed,
              decoded,
              quiet begin,
              read_page-ok uid cursor (pull_limit raw_limit) page fetched,
              collected,
            )
            refl,
      )
