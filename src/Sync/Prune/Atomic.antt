-- ===== src/Sync/Prune/Atomic.antt =====
-- A tick of internal/sync/retention.go is atomic: the deletion and the advance of the horizon are
-- seen together or not at all.
use rize_backend.Base.{
  ℕ, ◌+◌, ◌-◌, ◌≤◌, ◌≡◌, ◌≢◌, ◌∙◌, sym, ap, inl, inr, Bool, true, not, none, List, [], ◌∷◌, arith,
  ◌==◌, ==_iff, Bool-cases, length, In, In-keep, In_of_keep, any-eq-true,
}
use mathlib.Core.Path.{subst}
use rize_backend.Base.Result.{Result, ok, err}
use rize_backend.Instant.{Time, before}
use rize_backend.Sync.Changelog.{Entry, Db}
use rize_backend.Sync.Prune.{
  Pruner, Call, PruneError, Session, idle, select_changelog_prune_batch, has_id, deleted_count,
  delete_changelog_rows, advance_changelog_horizon, move_horizon, delete_rows_of, prune_session,
}
use rize_backend.Sync.Prune.Transaction.{pruned, count_of, IsPrune, IsDone, prune_session-IsDone}
use rize_backend.Sync.Prune.Horizon.{batch_listed, xid8-le-max_xid8, server_seq-le-max_server_seq}
use rize_backend.Sync.Prune.Bounds.{batch_old, length-keep-not}

-- `after` is `before` less the victims, and its horizon is at none before any victim.
pub record IsWithout (victims : List Entry) (n : ℕ) (before after : Db) : Type 0 where
  pub counted : n + length after.changelog ≡ length before.changelog
  pub kept : (e : Entry) → In e after.changelog → In e before.changelog
  pub gone : (v e : Entry) → In v victims → In e after.changelog → e.changelog_id ≢ v.changelog_id
  pub others :
      (e : Entry)
      → In e before.changelog
      → ((v : Entry) → In v victims → v.changelog_id ≢ e.changelog_id)
      → In e after.changelog
  pub reached :
      (v : Entry)
      → In v victims
      → (v.xid8 ≤ after.horizon.xid8) × (v.server_seq ≤ after.horizon.server_seq)

victim_id :
    (victims : List Entry) (v e : Entry)
    → In v victims
    → e.changelog_id ≡ v.changelog_id
    → has_id e.changelog_id victims ≡ true
unfolding has_id
victim_id [] v e m same = absurd m
victim_id (x ∷ victims) v e (inl at) same =
    let here : x.changelog_id ≡ e.changelog_id =
      ap (λ (y : Entry). y.changelog_id) (sym at) ∙ sym same in
    ground (arith, ==_iff x.changelog_id e.changelog_id)
victim_id (x ∷ victims) v e (inr m) same = ground (arith, victim_id victims v e m same)

both-IsWithout :
    (victims : List Entry) (db : Db)
    → IsWithout victims
        (deleted_count victims db.changelog)
        db
        (move_horizon victims (delete_rows_of victims db))
unfolding move_horizon delete_rows_of delete_changelog_rows deleted_count
both-IsWithout victims db = record {
  counted = length-keep-not (λ e. has_id e.changelog_id victims) db.changelog;
  kept = λ e m. (In_of_keep _ e db.changelog m).0;
  gone = λ v e m l same.
      let left = (In_of_keep _ e db.changelog l).1 in
      let deleted = victim_id victims v e m same in cc (left, ap not deleted);
  others = λ e m differ. elim (Bool-cases (has_id e.changelog_id victims)) [
    | inl y ↦
        let (v, found, same) = any-eq-true (λ v. v.changelog_id == e.changelog_id) victims y in
        absurd (differ v found ((==_iff _ _).0 same))
    | inr n ↦ In-keep (λ f. not (has_id f.changelog_id victims)) e db.changelog m (rw n)
  ];
  reached = λ v m.
      unfold advance_changelog_horizon in
      (
        xid8-le-max_xid8 none db.horizon.xid8 v victims m,
        ground (arith, server_seq-le-max_server_seq 0 v victims m),
      );
}

pruned-IsWithout :
    (victims : List Entry) (db : Db)
    → IsWithout victims (count_of victims db) db (pruned victims db)
pruned-IsWithout [] db = record {
  counted = omega arith;
  kept = λ e m. m;
  gone = λ v e m. absurd m;
  others = λ e m differ. m;
  reached = λ v m. absurd m;
}
pruned-IsWithout (v ∷ victims) db = both-IsWithout (v ∷ victims) db

-- The deletion of due entries and the advance of the horizon, committed.
pub record IsCommitted (p : Pruner) (now : Time) (db : Db) (n : ℕ) (s : Session) : Type 0 where
  pub victims : List Entry
  pub listed : (v : Entry) → In v victims → In v db.changelog
  pub due : (v : Entry) → In v victims → before v.created_at (now - p.max_age) ≡ true
  pub without : IsWithout victims n db s.shown
  pub closed : s.pending ≡ none

-- All of the tick with a count, none of it with an error.
abbrev pub IsAtomic : Pruner → Time → Db → Result PruneError ℕ → Session → Type 0
IsAtomic p now db (ok n) s = IsCommitted p now db n s
IsAtomic p now db (err e) s = s ≡ idle db

module _ (p : Pruner) (now : Time) (db : Db) where
  abbrev batch : ℕ → List Entry
  batch limit = select_changelog_prune_batch (now - p.max_age) limit db.changelog

  done-IsCommitted : (n : ℕ) (s : Session) → IsPrune p now db n s → IsCommitted p now db n s
  done-IsCommitted n s done = record {
    victims = batch done.limit;
    listed = λ v m. batch_listed (now - p.max_age) done.limit db.changelog v m;
    due = λ v m. batch_old (now - p.max_age) done.limit db.changelog v m;
    without =
        subst (λ u. IsWithout (batch done.limit) n db u)
          (sym (ap (λ u. u.shown) done.committed.left))
          (subst (λ j. IsWithout (batch done.limit) j db (pruned (batch done.limit) db))
            (sym done.committed.count) (pruned-IsWithout (batch done.limit) db));
    closed = ap (λ u. u.pending) done.committed.left;
  }

  -- Whatever database calls fail: what is visible after a tick that returns a count is the table
  -- less a batch of entries that were older than the retention window, as many as the count, and
  -- a horizon at none before any entry of the batch. What is visible after a tick that returns an
  -- error is as it was. No transaction is left open.
  pub prune_session-IsAtomic :
      (fails : Call → Bool)
      → IsAtomic p now db
          (prune_session p fails now (idle db)).0
          (prune_session p fails now (idle db)).1
  prune_session-IsAtomic fails = go _ _ (prune_session-IsDone p fails now db)
    where
      go : (r : Result PruneError ℕ) (s : Session) → IsDone p now db r s → IsAtomic p now db r s
      go (ok n) s h = done-IsCommitted n s h
      go (err e) s h = h
