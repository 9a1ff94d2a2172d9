-- ===== src/Sync/Feed/Complete.antt =====
-- A page holds every visible entry between the cursor and the next cursor.
use rize_backend.Base.{
  ℕ, ◌+◌, ◌≤◌, ◌<◌, String, ◌≡◌, refl, sym, ap, ◌∙◌, ◌⊎◌, inl, inr, true, false, not, ◌&&◌, Option,
  none, some, List, arith, ltb-false→le, Bool-cases, take, keep, last?, In, In-keep, In_of_keep,
  In_of_take,
}
use mathlib.Core.Path.{subst}
use rize_backend.Store.Cursor.{PullCursor, is_zero, less, limit_param}
use rize_backend.Store.Cursor.Order.{Reached}
use rize_backend.Store.Paging.{Page, next_position, cut_page}
use rize_backend.Store.Paging.Walk.{
  take_of_le, last?-eq-none, rows-cut_page, has_more-cut_page, next-cut_page,
}
use rize_backend.Sync.Changelog.{Entry, Db, position}
use rize_backend.Sync.Feed.{visible, sort_entries, list_changelog_page, fetch_page}
use rize_backend.Sync.Feed.Sorting.{
  In-sort_entries, In_of_sort_entries, sort_entries-Ordered, HasUniquePositions, In-last, taken,
}

page_eq : (y x : Page Entry PullCursor) → some y ≡ some x → y ≡ x
page_eq y x h = cc

-- What a page from the cursor `c` holds, and what its next cursor means.
pub record IsCompletePage (changelog : List Entry) (uid : String) (xmin : ℕ) (c : PullCursor)
    (page : Page Entry PullCursor) : Type 0 where
  pub sound :
      (e : Entry)
      → In e page.rows
      → In e changelog × (visible uid xmin e ≡ true) × (less c (position e) ≡ true)
  pub complete :
      (e : Entry)
      → In e changelog
      → visible uid xmin e ≡ true
      → less c (position e) ≡ true
      → Reached page.next_cursor (position e)
      → In e page.rows
  pub exhausted :
      page.has_more ≡ false
      → (e : Entry) → In e changelog
      → visible uid xmin e ≡ true
      → less c (position e) ≡ true
      → In e page.rows
  pub next :
      (page.next_cursor ≡ c) ⊎ ((e : Entry) × In e page.rows × (page.next_cursor ≡ position e))

module _ (changelog : List Entry) (uid : String) (xmin : ℕ) (c : PullCursor) (limit : ℕ)
    (positive : 0 < limit) (unique : HasUniquePositions changelog) where
  abbrev found : List Entry
  found = sort_entries (keep (λ e. visible uid xmin e && less c (position e)) changelog)

  found_sound :
      (e : Entry)
      → In e found
      → In e changelog × (visible uid xmin e ≡ true) × (less c (position e) ≡ true)
  found_sound e m =
      let (i, p) =
        In_of_keep (λ e. visible uid xmin e && less c (position e)) e changelog
          (In_of_sort_entries e _ m) in
      (i, ground arith, ground arith)

  found_complete :
      (e : Entry)
      → In e changelog
      → visible uid xmin e ≡ true
      → less c (position e) ≡ true
      → In e found
  found_complete e i v l =
      In-sort_entries e _
        (In-keep (λ e. visible uid xmin e && less c (position e)) e changelog i (rw (v, l)))

  found_unique : HasUniquePositions found
  found_unique e f m n same = unique e f (found_sound e m).0 (found_sound f n).0 same

  complete_from :
      (o : Option Entry)
      → last? (take limit found) ≡ o
      → (e : Entry) → In e found
      → Reached (next_position position c o) (position e)
      → In e (take limit found)
  unfolding next_position
  complete_from none h e m r = absurd (subst (In e) (last?-eq-none limit found positive h) m)
  complete_from (some x) h e m r = taken limit found x e (sort_entries-Ordered _) found_unique h m r

  next_from :
      (o : Option Entry)
      → last? (take limit found) ≡ o
      → (next_position position c o ≡ c)
        ⊎ ((e : Entry) × In e (take limit found) × (next_position position c o ≡ position e))
  unfolding next_position
  next_from none h = inl refl
  next_from (some x) h = inr (x, In-last limit found x h, refl)

  cut-IsCompletePage :
      IsCompletePage changelog uid xmin c (cut_page position c limit (take (limit + 1) found))
  cut-IsCompletePage = record {
    sound = λ e m. found_sound e (In_of_take limit e found (subst (In e) rows m));
    complete = λ e i v l r. subst (In e) (sym rows) (
        complete_from _ refl e (found_complete e i v l)
          (subst (λ n. Reached n (position e)) (next-cut_page position c limit found) r));
    exhausted = λ h e i v l. subst (In e) (sym rows) (
        subst (In e)
          (sym (
            take_of_le limit found
              (ltb-false→le _ _ (sym (has_more-cut_page position c limit found) ∙ h))))
          (found_complete e i v l));
    next = next_on (next_from _ refl);
  }
    where
      rows : (cut_page position c limit (take (limit + 1) found)).rows ≡ take limit found
      rows = rows-cut_page position c limit found

      next_on :
          (next_position position c (last? (take limit found)) ≡ c)
            ⊎ ((e : Entry) × In e (take limit found)
                × (next_position position c (last? (take limit found)) ≡ position e))
          → ((cut_page position c limit (take (limit + 1) found)).next_cursor ≡ c)
            ⊎ ((e : Entry) × In e (cut_page position c limit (take (limit + 1) found)).rows
                × ((cut_page position c limit (take (limit + 1) found)).next_cursor ≡ position e))
      next_on (inl h) = inl (next-cut_page position c limit found ∙ h)
      next_on (inr (e, m, h)) =
          inr (e, subst (In e) (sym rows) m, next-cut_page position c limit found ∙ h)

-- A page served at a limit from 1 to 500 from a table in which no two entries share a position
-- holds only entries of the table that are visible and lie after the cursor. It holds each of
-- those up to the next cursor, and all of those if `has_more` is false. The next cursor is the
-- request's, or the position of an entry of the page.
pub fetch_page-IsCompletePage :
    (db : Db) (xmin : ℕ) (uid : String) (c : PullCursor) (limit : ℕ) (page : Page Entry PullCursor)
    → 0 < limit
    → limit ≤ 500
    → HasUniquePositions db.changelog
    → fetch_page db xmin uid c limit ≡ some page
    → IsCompletePage db.changelog uid xmin c page
unfolding fetch_page list_changelog_page
fetch_page-IsCompletePage db xmin uid c limit page positive small unique h =
    elim (Bool-cases (not (is_zero c) && less c db.horizon)) [
      | inl y ↦ absurd (expired (sym (rw y at h)))
      | inr n ↦
          subst (IsCompletePage db.changelog uid xmin c) (served (rw n at h))
            (cut-IsCompletePage db.changelog uid xmin c limit positive unique)
    ]
  where
    expired : some page ≡ none → ⊥
    expired e = cc

    whole : limit_param (limit + 1) ≡ limit + 1
    whole = unfold limit_param in ground arith

    served :
        some (
            cut_page position c limit (
              take (limit_param (limit + 1)) (found db.changelog uid xmin c limit positive unique)))
          ≡ some page
        → cut_page position c limit
            (take (limit + 1) (found db.changelog uid xmin c limit positive unique))
          ≡ page
    served e =
        ap
          (λ n.
            cut_page position c limit
              (take n (found db.changelog uid xmin c limit positive unique)))
          (sym whole)
        ∙ page_eq _ page e

-- A page is served only from the empty cursor, or from one at or after the horizon.
pub fetch_page_served :
    (db : Db) (xmin : ℕ) (uid : String) (c : PullCursor) (limit : ℕ) (page : Page Entry PullCursor)
    → fetch_page db xmin uid c limit ≡ some page
    → (is_zero c ≡ true) ⊎ Reached c db.horizon
unfolding fetch_page
fetch_page_served db xmin uid c limit page h = ground arith
