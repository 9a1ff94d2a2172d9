-- ===== src/Sync/Pull/Response/Delivered.antt =====
-- What an answered pull has sent.
use rize_backend.Base.{
  ℕ, String, ◌≡◌, refl, sym, ap, ◌∙◌, inl, inr, Option, none, some, List, [], ◌∷◌, map, arith,
  if◌then◌else◌, In,
}
use mathlib.Core.Path.{subst}
use rize_backend.Base.Result.{Result, ok, err, or_fail, >>=-eq-ok, ◌>>◌}
use rize_backend.Store.Base64.{Bytes}
use rize_backend.Store.Cursor.{PullCursor, is_zero, encode_pull_cursor, decode_pull_cursor}
use rize_backend.Store.Paging.{Page}
use rize_backend.Sync.Changelog.{Entry}
use rize_backend.Sync.Feed.{fetch_page}
use rize_backend.Sync.Pull.{
  begin, get_horizon, list_page, invalid_user_id, invalid_cursor, cursor_expired, Env,
  ChangelogEntry, Change, upsert, tombstone, PullResponse, pull_entity_types,
}
use rize_backend.Sync.Pull.Tables.{Snapshot}
use rize_backend.Sync.Pull.Resolve.{resolve_changelog_entry}
use rize_backend.Sync.Pull.Resolve.Owned.{IsOwned, resolve_changelog_entry-IsOwned}
use rize_backend.Sync.Pull.Keyed.{get}
use rize_backend.Sync.Pull.Collect.{change_key, Collected, nothing_collected, collect}
use rize_backend.Sync.Pull.Collect.Latest.{latest, IsCollected, get-collect, collect-IsCollected}
use rize_backend.Sync.Pull.Response.{
  respond, succeeds, group_entries, change_set, no_groups, changes_of, pull_limit, read_page, pull,
}
use rize_backend.Sync.Pull.Response.Grouped.{
  HasChange, IsSentIn, group_entries-HasChange, change_of_group_entries,
}

ok_injective : {E A : Type 0} {a b : A} → ◌≡◌ {A = Result E A} (ok a) (ok b) → a ≡ b
ok_injective {E} {A} {a} {b} h = cc

>>-eq-ok :
    {E B : Type 0} (first : Result E (Unit {0})) (rest : Result E B) {b : B}
    → (first >> rest) ≡ ok b
    → rest ≡ ok b
>>-eq-ok (err e) rest h = cc
>>-eq-ok (ok u) rest h = h

or_fail-eq-ok : {E A : Type 0} (o : Option A) (e : E) (a : A) → or_fail o e ≡ ok a → o ≡ some a
or_fail-eq-ok none e a h = cc
or_fail-eq-ok (some b) e a h = ground arith

-- A type and its value in a table by type.
module _ {A B : Type 0} (f : A → B) where
  In-tabulated : (t : A) (ts : List A) → In t ts → In {A = A × B} (t, f t) (map (λ t. (t, f t)) ts)
  In-tabulated t [] m = absurd m
  In-tabulated t (u ∷ ts) (inl e) = inl (ap (λ v. (v, f v)) e)
  In-tabulated t (u ∷ ts) (inr m) = inr (In-tabulated t ts m)

  In_of_tabulated :
      (t : A) (b : B) (ts : List A) → In {A = A × B} (t, b) (map (λ t. (t, f t)) ts) → b ≡ f t
  In_of_tabulated t b [] m = absurd m
  In_of_tabulated t b (u ∷ ts) (inl e) = ap (λ p. p.1) e ∙ ap f (sym (ap (λ p. p.0) e))
  In_of_tabulated t b (u ∷ ts) (inr m) = In_of_tabulated t b ts m

module _ (env : Env) (s : Snapshot) (uid : String) where
  -- An entry is what a row of a page resolves to.
  abbrev pub IsResolved : List Entry → ChangelogEntry → Type 0
  IsResolved rows x =
      (row : Entry) × In row rows × (resolve_changelog_entry env s uid row ≡ ok (some x))

  IsOwned-type : (x : ChangelogEntry) → IsOwned env s uid x → In x.entity_type pull_entity_types
  IsOwned-type x (inl r) = inl r.named
  IsOwned-type x (inr (inl r)) = inr (inl r.named)
  IsOwned-type x (inr (inr (inl r))) = inr (inr (inl r.named))
  IsOwned-type x (inr (inr (inr (inl r)))) = inr (inr (inr (inl r.named)))
  IsOwned-type x (inr (inr (inr (inr (inl r))))) = inr (inr (inr (inr (inl r.named))))
  IsOwned-type x (inr (inr (inr (inr (inr r))))) = inr (inr (inr (inr (inr (inl r.named)))))

  module _ (rows : List Entry) (c : Collected)
      (collected : collect env s uid rows nothing_collected ≡ ok c) where
    is_collected : IsCollected (IsResolved rows) c
    unfolding get
    is_collected =
        collect-IsCollected env s uid (IsResolved rows) rows nothing_collected c
          (record { listed = λ k x e. cc; sound = λ k x e. cc }) (λ row x m e. (row, m, e))
          collected

    latest_sent :
        (k : String) (x : ChangelogEntry)
        → latest env s uid k rows none ≡ some x
        → IsSentIn (changes_of c) x
    unfolding changes_of get
    latest_sent k x e =
        let found : get k c.by_key ≡ some x =
          get-collect env s uid k rows nothing_collected c collected ∙ e in
        let (row, m, r) = is_collected.sound k x found in
        let owned = resolve_changelog_entry-IsOwned env s uid row x r in
        record {
          set = change_set (group_entries c.by_key c.ordered no_groups) x.entity_type;
          listed =
              In-tabulated (change_set (group_entries c.by_key c.ordered no_groups)) x.entity_type
                pull_entity_types (IsOwned-type x owned);
          has =
              group_entries-HasChange c.by_key c.ordered k x no_groups
                (is_collected.listed k x found) found;
        }

    none_held : (t : String) (b : Change) → HasChange (change_set no_groups t) b → ⊥
    unfolding get
    none_held t (upsert u) h = h
    none_held t (tombstone d) h = h

    record_eq : {x y : ChangelogEntry} → y.entity_type ≡ x.entity_type → y.change ≡ x.change → y ≡ x
    record_eq {x} {y} t b = cc

    sent-IsResolved : (x : ChangelogEntry) → IsSentIn (changes_of c) x → IsResolved rows x
    unfolding changes_of
    sent-IsResolved x h =
        let g = group_entries c.by_key c.ordered no_groups in
        let same : h.set ≡ change_set g x.entity_type =
          In_of_tabulated (change_set g) x.entity_type h.set pull_entity_types h.listed in
        let here : HasChange (change_set g x.entity_type) x.change =
          subst (λ v. HasChange v x.change) same h.has in
        elim (change_of_group_entries c.by_key c.ordered x.entity_type x.change no_groups here) [
          | inl a ↦ absurd (none_held x.entity_type x.change a)
          | inr (k, y, e, t, b) ↦
              let whole : y ≡ x = record_eq t b in
              subst (IsResolved rows) whole (is_collected.sound k y e)
        ]

-- What an answered pull read and sent.
pub record IsPulled (env : Env) (s : Snapshot) (user_id : String) (raw_cursor : Bytes)
    (raw_limit : ℕ) (resp : PullResponse) : Type 0 where
  pub uid : String
  pub parsed : env.parse_uuid user_id ≡ some uid
  pub cursor : PullCursor
  pub decoded : decode_pull_cursor raw_cursor ≡ some cursor
  pub page : Page Entry PullCursor
  pub fetched : fetch_page s.db s.xmin uid cursor (pull_limit raw_limit) ≡ some page
  pub next_cursor : resp.next_cursor ≡ encode_pull_cursor page.next_cursor
  pub has_more : resp.has_more ≡ page.has_more
  pub sent :
      (row : Entry) (x : ChangelogEntry)
      → In row page.rows
      → latest env s uid (change_key row) page.rows none ≡ some x
      → IsSentIn resp.changes x
  pub resolved : (x : ChangelogEntry) → IsSentIn resp.changes x → IsResolved env s uid page.rows x

module _ (env : Env) (s : Snapshot) (user_id : String) (raw_cursor : Bytes) (raw_limit : ℕ) where
  read_page-eq-ok :
      (uid : String) (cursor : PullCursor) (limit : ℕ) (page : Page Entry PullCursor)
      → read_page env s uid cursor limit ≡ ok page
      → fetch_page s.db s.xmin uid cursor limit ≡ some page
  unfolding read_page
  read_page-eq-ok uid cursor limit page h =
      let h1 =
        >>-eq-ok
          (succeeds (if is_zero cursor then none else env.faults get_horizon)
            "sync: get changelog horizon")
          _ h in
      let (p, found, h2) =
        >>=-eq-ok (or_fail (fetch_page s.db s.xmin uid cursor limit) cursor_expired) _ h1 in
      let same =
        ok_injective
          (>>-eq-ok (succeeds (env.faults list_page) "sync: list changelog page") (ok p) h2) in
      or_fail-eq-ok _ cursor_expired p found ∙ ap some same

  -- An answered pull read the page of the change log after the decoded cursor, at the clamped
  -- limit, and answers the page's next cursor and `has_more`. For each row of the page: if the
  -- last row of the page with its key finds its entity, the entity's state in the snapshot is
  -- sent under its type, as an upsert or as a tombstone. Whatever is sent is what a row of the
  -- page resolves to.
  pub pull-IsPulled :
      (resp : PullResponse)
      → pull env s user_id raw_cursor raw_limit ≡ ok resp
      → IsPulled env s user_id raw_cursor raw_limit resp
  unfolding pull
  pull-IsPulled resp h =
      let (uid, parsed, h1) = >>=-eq-ok (or_fail (env.parse_uuid user_id) invalid_user_id) _ h in
      let (cursor, decoded, h2) =
        >>=-eq-ok (or_fail (decode_pull_cursor raw_cursor) invalid_cursor) _ h1 in
      let h3 =
        >>-eq-ok (succeeds (env.faults begin) "sync: begin pull snapshot transaction") _ h2 in
      let (page, read, h4) = >>=-eq-ok (read_page env s uid cursor (pull_limit raw_limit)) _ h3 in
      let (c, collected, h5) = >>=-eq-ok (collect env s uid page.rows nothing_collected) _ h4 in
      let same : respond page c ≡ resp = ok_injective h5 in
      subst (IsPulled env s user_id raw_cursor raw_limit) same (record {
        uid = uid;
        parsed = or_fail-eq-ok (env.parse_uuid user_id) invalid_user_id uid parsed;
        cursor = cursor;
        decoded = or_fail-eq-ok (decode_pull_cursor raw_cursor) invalid_cursor cursor decoded;
        page = page;
        fetched = read_page-eq-ok uid cursor (pull_limit raw_limit) page read;
        next_cursor = refl;
        has_more = refl;
        sent = λ row x m e. latest_sent env s uid page.rows c collected (change_key row) x e;
        resolved = λ x m. sent-IsResolved env s uid page.rows c collected x m;
      })

  -- Whatever an answered pull sends, upsert or tombstone, is the state of a stored row of its
  -- type that is the caller's, or of a category without a user.
  pub pull-IsOwned :
      (resp : PullResponse) (x : ChangelogEntry) (uid : String)
      → pull env s user_id raw_cursor raw_limit ≡ ok resp
      → env.parse_uuid user_id ≡ some uid
      → IsSentIn resp.changes x
      → IsOwned env s uid x
  pull-IsOwned resp x uid h p m =
      let k = pull-IsPulled resp h in
      let same : some k.uid ≡ some uid = sym k.parsed ∙ p in
      let same_uid : k.uid ≡ uid = ground arith in
      let (row, _, r) = k.resolved x m in
      subst (λ u. IsOwned env s u x) same_uid (resolve_changelog_entry-IsOwned env s k.uid row x r)
