-- ===== src/Sync/History/Delivered.antt =====
-- No change is skipped: what lies at or before a client's cursor was delivered, or pruned before
-- the client last started from the empty cursor.
use rize_backend.Base.{◌<◌, String, ◌≡◌, refl, ◌⊎◌, inl, inr, true, arith}
use rize_backend.Store.Cursor.{zero_cursor, is_zero}
use rize_backend.Sync.Prune.Horizon.{prune_once-IsPruned}
use rize_backend.Sync.Feed.Complete.{fetch_page-IsCompletePage, fetch_page_served}
use rize_backend.Sync.History.{
  World, Step, commits, advances, prunes, pulls, resets, Reach, here, next, start,
}
use rize_backend.Sync.History.Consistent.{
  HasDelivered, IsConsistent, zero_unreached, commits-IsConsistent, prunes-IsConsistent,
}
use rize_backend.Sync.History.Pulls.{pulls-IsConsistent}

Step-IsConsistent :
    (uid : String) {w v : World} → Step uid w v → IsConsistent uid w → IsConsistent uid v
Step-IsConsistent uid (commits w e x f) c = commits-IsConsistent uid w e x f c
Step-IsConsistent uid (advances w x h) c = record {
  real = c.real;
  unique_ids = c.unique_ids;
  unique_positions = c.unique_positions;
  logged = c.logged;
  kept = c.kept;
  behind = later c.behind;
  delivered = c.delivered;
}
  where
    later :
        (is_zero w.cursor ≡ true) ⊎ (w.cursor.xid8 < w.xmin)
        → (is_zero w.cursor ≡ true) ⊎ (w.cursor.xid8 < x)
    later (inl z) = inl z
    later (inr b) = inr (omega arith)
Step-IsConsistent uid (prunes w p fails now) c =
    prunes-IsConsistent uid w _
      (prune_once-IsPruned p fails now w.db
        (λ e f m n. c.unique_ids e f (c.logged e m) (c.logged f n)))
      c
Step-IsConsistent uid (pulls w limit page positive small h) c =
    pulls-IsConsistent uid w page c
      (fetch_page-IsCompletePage w.db w.xmin uid w.cursor limit page positive small
        (λ e f m n. c.unique_positions e f (c.logged e m) (c.logged f n)) h)
      (fetch_page_served w.db w.xmin uid w.cursor limit page h)
Step-IsConsistent uid (resets w limit h) c = record {
  real = c.real;
  unique_ids = c.unique_ids;
  unique_positions = c.unique_positions;
  logged = c.logged;
  kept = c.kept;
  behind = inl (unfold is_zero in refl);
  delivered =
      λ e m u r. absurd (zero_unreached zero_cursor e (unfold is_zero in refl) (c.real e m) r);
}

start-IsConsistent : (uid : String) → IsConsistent uid start
start-IsConsistent uid = record {
  real = λ e m. absurd m;
  unique_ids = λ e f m n. absurd m;
  unique_positions = λ e f m n. absurd m;
  logged = λ e m. m;
  kept = λ e m. absurd m;
  behind = inl (unfold is_zero in refl);
  delivered = λ e m u r. absurd m;
}

Reach-IsConsistent : (uid : String) {w : World} → Reach uid start w → IsConsistent uid w
Reach-IsConsistent uid here = start-IsConsistent uid
Reach-IsConsistent uid (next r s) = Step-IsConsistent uid s (Reach-IsConsistent uid r)

-- After any sequence, from the empty log, of commits, rises of the snapshot's `xmin`, ticks of
-- the pruner with any failures, pages pulled by the user's client at limits from 1 to 500, and
-- returns of the client to the empty cursor when a pull is refused: every entry that the user may
-- see and that lies at or before the client's cursor was delivered to the client, or lies at or
-- before the horizon at which the client last pulled from the empty cursor.
pub Reach-HasDelivered : (uid : String) (w : World) → Reach uid start w → HasDelivered uid w
Reach-HasDelivered uid w r = (Reach-IsConsistent uid r).delivered
