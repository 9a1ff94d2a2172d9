-- ===== src/Sync/History/Pulls.antt =====
-- A pull keeps what a run maintains.
use rize_backend.Base.{
  ◌<◌, String, ◌≡◌, ◌⊎◌, inl, inr, true, false, ◌++◌, arith, if◌then◌else◌, Bool-cases, In,
  In-append_left, In-append_right,
}
use mathlib.Core.Path.{subst}
use rize_backend.Store.Cursor.{PullCursor, is_zero, less}
use rize_backend.Store.Cursor.Order.{Reached, Reached-trans, Reached-xid8}
use rize_backend.Store.Paging.{Page}
use rize_backend.Sync.Changelog.{Entry, position}
use rize_backend.Sync.Feed.{of_user, visible}
use rize_backend.Sync.Feed.Complete.{IsCompletePage}
use rize_backend.Sync.History.{World}
use rize_backend.Sync.History.Consistent.{IsConsistent, zero_unreached, visible_below, visible_of}

module _ (uid : String) (w : World) (page : Page Entry PullCursor) (c : IsConsistent uid w)
    (complete : IsCompletePage w.db.changelog uid w.xmin w.cursor page)
    (served : (is_zero w.cursor ≡ true) ⊎ Reached w.cursor w.db.horizon) where
  abbrev pub new_base : PullCursor
  new_base = if is_zero w.cursor then w.db.horizon else w.base

  -- The next cursor lies below `xmin`, so an entry that it has passed is visible.
  next_behind : (is_zero page.next_cursor ≡ true) ⊎ (page.next_cursor.xid8 < w.xmin)
  next_behind = by_side complete.next
    where
      by_side :
          (page.next_cursor ≡ w.cursor)
            ⊎ ((e : Entry) × In e page.rows × (page.next_cursor ≡ position e))
          → (is_zero page.next_cursor ≡ true) ⊎ (page.next_cursor.xid8 < w.xmin)
      by_side (inl h) = rw h c.behind
      by_side (inr (e, m, h)) = inr (rw h (visible_below uid w.xmin e (complete.sound e m).1))

  old_delivered :
      (e : Entry)
      → In e w.log
      → of_user uid e.user_id ≡ true
      → Reached w.cursor (position e)
      → In e (page.rows ++ w.received) ⊎ Reached new_base (position e)
  old_delivered e m u r = elim (Bool-cases (is_zero w.cursor)) [
    | inl z ↦ absurd (zero_unreached w.cursor e z (c.real e m) r)
    | inr n ↦ rw n (side (c.delivered e m u r))
  ]
    where
      side :
          In e w.received ⊎ Reached w.base (position e)
          → In e (page.rows ++ w.received) ⊎ Reached w.base (position e)
      side (inl i) = inl (In-append_right e page.rows w.received i)
      side (inr b) = inr b

  pruned_delivered :
      (e : Entry)
      → less w.cursor (position e) ≡ true
      → Reached w.db.horizon (position e)
      → Reached new_base (position e)
  pruned_delivered e l r = elim (Bool-cases (is_zero w.cursor)) [
    | inl z ↦ rw z r
    | inr n ↦ absurd (by_side served n)
  ]
    where
      by_side :
          (is_zero w.cursor ≡ true) ⊎ Reached w.cursor w.db.horizon → is_zero w.cursor ≡ false → ⊥
      by_side (inl z) n = cc
      by_side (inr h) n = cc (Reached-trans w.cursor w.db.horizon (position e) h r)

  new_visible :
      (e : Entry)
      → of_user uid e.user_id ≡ true
      → less w.cursor (position e) ≡ true
      → Reached page.next_cursor (position e)
      → visible uid w.xmin e ≡ true
  new_visible e u l r = by_side complete.next
    where
      by_side :
          (page.next_cursor ≡ w.cursor)
            ⊎ ((x : Entry) × In x page.rows × (page.next_cursor ≡ position x))
          → visible uid w.xmin e ≡ true
      by_side (inl h) = absurd (differ (subst (λ (n : PullCursor). Reached n (position e)) h r))
        where
          differ : Reached w.cursor (position e) → ⊥
          differ q = cc
      by_side (inr (x, m, h)) = visible_of uid w.xmin e u (
          omega (
            arith,
            Reached-xid8 (position x) (position e)
                (subst (λ (n : PullCursor). Reached n (position e)) h r),
            visible_below uid w.xmin x (complete.sound x m).1,
          ))

  new_delivered :
      (e : Entry)
      → In e w.log
      → of_user uid e.user_id ≡ true
      → less w.cursor (position e) ≡ true
      → Reached page.next_cursor (position e)
      → In e (page.rows ++ w.received) ⊎ Reached new_base (position e)
  new_delivered e m u l r = side (c.kept e m)
    where
      side :
          In e w.db.changelog ⊎ Reached w.db.horizon (position e)
          → In e (page.rows ++ w.received) ⊎ Reached new_base (position e)
      side (inl i) =
          inl (
            In-append_left e page.rows w.received (complete.complete e i (new_visible e u l r) l r))
      side (inr h) = inr (pruned_delivered e l h)

  pub pulls-IsConsistent :
      IsConsistent uid (record w {
        cursor = page.next_cursor;
        received = page.rows ++ w.received;
        base = new_base;
      })
  pulls-IsConsistent = record {
    real = c.real;
    unique_ids = c.unique_ids;
    unique_positions = c.unique_positions;
    logged = c.logged;
    kept = c.kept;
    behind = next_behind;
    delivered = λ e m u r. elim (Bool-cases (less w.cursor (position e))) [
      | inl l ↦ new_delivered e m u l r
      | inr o ↦ old_delivered e m u o
    ];
  }
