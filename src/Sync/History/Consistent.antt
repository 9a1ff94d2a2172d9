-- ===== src/Sync/History/Consistent.antt =====
-- What a run maintains between the table, the horizon and the client; commits and pruning keep it.
use rize_backend.Base.{
  ℕ, ◌≤◌, ◌<◌, String, ◌≡◌, sym, ap, ◌∙◌, ◌⊎◌, inl, inr, true, List, [], ◌∷◌, ◌++◌, arith, In,
  In_of_append, In-append_left, In-append_right,
}
use mathlib.Core.Path.{subst}
use rize_backend.Store.Cursor.{PullCursor, is_zero, less}
use rize_backend.Store.Cursor.Order.{Reached, Reached-xid8}
use rize_backend.Sync.Changelog.{Entry, Db, position}
use rize_backend.Sync.Prune.Horizon.{HasUniqueIds, IsPruned}
use rize_backend.Sync.Feed.{of_user, visible}
use rize_backend.Sync.Feed.Sorting.{HasUniquePositions}
use rize_backend.Sync.History.{World, IsFresh}

-- What the client knows, for each of its entries that its cursor has passed.
abbrev pub HasDelivered : String → World → Type 0
HasDelivered uid w =
    (e : Entry)
    → In e w.log
    → of_user uid e.user_id ≡ true
    → Reached w.cursor (position e)
    → In e w.received ⊎ Reached w.base (position e)

pub record IsConsistent (uid : String) (w : World) : Type 0 where
  pub real : (e : Entry) → In e w.log → 0 < e.xid8
  pub unique_ids : HasUniqueIds w.log
  pub unique_positions : HasUniquePositions w.log
  pub logged : (e : Entry) → In e w.db.changelog → In e w.log
  pub kept : (e : Entry) → In e w.log → In e w.db.changelog ⊎ Reached w.db.horizon (position e)
  pub behind : (is_zero w.cursor ≡ true) ⊎ (w.cursor.xid8 < w.xmin)
  pub delivered : HasDelivered uid w

-- No entry lies at or before the empty cursor.
pub zero_unreached :
    (c : PullCursor) (e : Entry) → is_zero c ≡ true → 0 < e.xid8 → Reached c (position e) → ⊥
unfolding is_zero less
zero_unreached c e z r h = ground arith

pub visible_below :
    (uid : String) (xmin : ℕ) (e : Entry) → visible uid xmin e ≡ true → e.xid8 < xmin
unfolding visible
visible_below uid xmin e h = ground arith

pub visible_of :
    (uid : String) (xmin : ℕ) (e : Entry)
    → of_user uid e.user_id ≡ true
    → e.xid8 < xmin
    → visible uid xmin e ≡ true
unfolding visible
visible_of uid xmin e u h = ground arith

pub fresh_unique_ids :
    (log : List Entry) (e : Entry) → IsFresh log e → HasUniqueIds log → HasUniqueIds (e ∷ log)
fresh_unique_ids log e f u a b (inl p) (inl q) h = p ∙ sym q
fresh_unique_ids log e f u a b (inl p) (inr q) h =
    absurd (f.id b q (ap (λ (x : Entry). x.changelog_id) (sym p) ∙ h))
fresh_unique_ids log e f u a b (inr p) (inl q) h =
    absurd (f.id a p (ap (λ (x : Entry). x.changelog_id) (sym q) ∙ sym h))
fresh_unique_ids log e f u a b (inr p) (inr q) h = u a b p q h

pub fresh_unique_positions :
    (log : List Entry) (e : Entry)
    → IsFresh log e
    → HasUniquePositions log
    → HasUniquePositions (e ∷ log)
fresh_unique_positions log e f u a b (inl p) (inl q) h = p ∙ sym q
fresh_unique_positions log e f u a b (inl p) (inr q) h =
    absurd (f.seq b q (ap (λ (x : Entry). x.server_seq) (sym p) ∙ h))
fresh_unique_positions log e f u a b (inr p) (inl q) h =
    absurd (f.seq a p (ap (λ (x : Entry). x.server_seq) (sym q) ∙ sym h))
fresh_unique_positions log e f u a b (inr p) (inr q) h = u a b p q h

commit_unreached :
    (uid : String) (w : World) (e : Entry)
    → IsConsistent uid w
    → w.xmin ≤ e.xid8
    → 0 < e.xid8
    → Reached w.cursor (position e)
    → ⊥
commit_unreached uid w e c x r h = by_side c.behind
  where
    by_side : (is_zero w.cursor ≡ true) ⊎ (w.cursor.xid8 < w.xmin) → ⊥
    by_side (inl z) = zero_unreached w.cursor e z r h
    by_side (inr b) = absurd (omega (arith, Reached-xid8 w.cursor (position e) h))

pub commits-IsConsistent :
    (uid : String) (w : World) (e : Entry)
    → w.xmin ≤ e.xid8
    → IsFresh w.log e
    → IsConsistent uid w
    → IsConsistent uid
        (record w { log = e ∷ w.log; db = record w.db { changelog = w.db.changelog ++ e ∷ [] } })
commits-IsConsistent uid w e x f c = record {
  real = λ a m. real_on a m;
  unique_ids = fresh_unique_ids w.log e f c.unique_ids;
  unique_positions = fresh_unique_positions w.log e f c.unique_positions;
  logged = λ a m. logged_on a (In_of_append a w.db.changelog (e ∷ []) m);
  kept = λ a m. kept_on a m;
  behind = c.behind;
  delivered = λ a m u r. delivered_on a m u r;
}
  where
    real_on : (a : Entry) → In a (e ∷ w.log) → 0 < a.xid8
    real_on a (inl p) = subst (λ (z : Entry). 0 < z.xid8) (sym p) f.real
    real_on a (inr m) = c.real a m

    logged_on : (a : Entry) → In a w.db.changelog ⊎ In a (e ∷ []) → In a (e ∷ w.log)
    logged_on a (inl m) = inr (c.logged a m)
    logged_on a (inr (inl p)) = inl p
    logged_on a (inr (inr m)) = absurd m

    side :
        (a : Entry)
        → In a w.db.changelog ⊎ Reached w.db.horizon (position a)
        → In a (w.db.changelog ++ e ∷ []) ⊎ Reached w.db.horizon (position a)
    side a (inl m) = inl (In-append_left a w.db.changelog (e ∷ []) m)
    side a (inr r) = inr r

    kept_on :
        (a : Entry)
        → In a (e ∷ w.log)
        → In a (w.db.changelog ++ e ∷ []) ⊎ Reached w.db.horizon (position a)
    kept_on a (inl p) = inl (In-append_right a w.db.changelog (e ∷ []) (inl p))
    kept_on a (inr m) = side a (c.kept a m)

    delivered_on :
        (a : Entry)
        → In a (e ∷ w.log)
        → of_user uid a.user_id ≡ true
        → Reached w.cursor (position a)
        → In a w.received ⊎ Reached w.base (position a)
    delivered_on a (inl p) u r =
        absurd
          (commit_unreached uid w e c x f.real (subst (λ z. Reached w.cursor (position z)) p r))
    delivered_on a (inr m) u r = c.delivered a m u r

pub prunes-IsConsistent :
    (uid : String) (w : World) (db : Db)
    → IsPruned w.db db
    → IsConsistent uid w
    → IsConsistent uid (record w { db = db })
prunes-IsConsistent uid w db q c = record {
  real = c.real;
  unique_ids = c.unique_ids;
  unique_positions = c.unique_positions;
  logged = λ a m. c.logged a (q.kept a m);
  kept = λ a m. side a (c.kept a m);
  behind = c.behind;
  delivered = c.delivered;
}
  where
    side :
        (a : Entry)
        → In a w.db.changelog ⊎ Reached w.db.horizon (position a)
        → In a db.changelog ⊎ Reached db.horizon (position a)
    side a (inl m) = q.lost a m
    side a (inr r) = inr (q.grows (position a) r)
