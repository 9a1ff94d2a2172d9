-- ===== src/Sync/Prune/Transaction.antt =====
-- What the transaction of a tick leaves: all of its writes with a count, none with an error.
use rize_backend.Base.{ℕ, ◌-◌, ◌≡◌, ◌⊎◌, inl, inr, refl, ap, Bool, some, List, [], ◌∷◌}
use mathlib.Core.Path.{subst}
use rize_backend.Base.Action.{◌>>=◌}
use rize_backend.Base.Action.Ensures.{
  Outcome, Ensures, pure-Ensures, give-Ensures, pure_then, read_then, >>=-Ensures, write-Ensures,
  weaken,
}
use rize_backend.Base.Result.{Result, ok, err, or_fail-eq-ok}
use rize_backend.Instant.{Time}
use rize_backend.Sync.Changelog.{Entry, Db}
use rize_backend.Sync.Prune.{
  Pruner, Call, PruneError, Session, idle, Step, call, begin_tx, exec, commit_tx, delete_rows_of,
  move_horizon, deleted_count, select_changelog_prune_batch, int32_limit, prune_victims, prune_tx,
  deferred, prune_session, prune_once, delete_rows, advance_horizon, select_batch,
}

-- Both writes of a batch.
abbrev pub pruned : List Entry → Db → Db
pruned [] db = db
pruned (v ∷ victims) db = move_horizon (v ∷ victims) (delete_rows_of (v ∷ victims) db)

abbrev pub count_of : List Entry → Db → ℕ
count_of [] db = 0
count_of (v ∷ victims) db = deleted_count (v ∷ victims) db.changelog

-- Nothing of a failed transaction is visible.
abbrev Unseen : Db → PruneError → Session → Type 0
Unseen db e s = s.shown ≡ db

-- A transaction that has made `db` of the visible one.
abbrev in_tx : Db → Db → Session
in_tx shown db = record { shown = shown; pending = some db }

module _ (fails : Call → Bool) {A : Type 0} {Q : A → Session → Type 0} (seen db : Db)
    (k : Unit {0} → Step A) where
  call_then :
      (c : Call) {s : Session}
      → s.shown ≡ seen
      → Ensures Q (Unseen seen) (k tt) s
      → Ensures Q (Unseen seen) (call fails c >>= k) s
  unfolding call
  call_then c same h = pure_then _ (λ _ _. h) (λ _ _. same)

  exec_then :
      (c : Call) (change : Db → Db)
      → Ensures Q (Unseen seen) (k tt) (in_tx seen (change db))
      → Ensures Q (Unseen seen) (exec fails c change >>= k) (in_tx seen db)
  unfolding exec call
  exec_then c change h =
      >>=-Ensures (>>=-Ensures (pure-Ensures _ (λ _ _. write-Ensures _ h) (λ _ _. refl)))

  commit_then :
      Ensures Q (Unseen seen) (k tt) (idle db)
      → Ensures Q (Unseen seen) (commit_tx fails >>= k) (in_tx seen db)
  unfolding commit_tx call
  commit_then h =
      >>=-Ensures (>>=-Ensures (pure-Ensures _ (λ _ _. write-Ensures _ h) (λ _ _. refl)))

  begin_then :
      Ensures Q (Unseen seen) (k tt) (in_tx seen seen)
      → Ensures Q (Unseen seen) (begin_tx fails >>= k) (idle seen)
  unfolding begin_tx call
  begin_then h = >>=-Ensures (>>=-Ensures (pure-Ensures _ (λ _ _. write-Ensures _ h) (λ _ _. refl)))

-- A committed batch.
pub record IsCommit (victims : List Entry) (db : Db) (n : ℕ) (s : Session) : Type 0 where
  pub count : n ≡ count_of victims db
  pub left : s ≡ idle (pruned victims db)

same_ok : {m n : ℕ} → ◌≡◌ {A = Result PruneError ℕ} (ok m) (ok n) → n ≡ m
same_ok h = cc

same_victims :
    {vs ws : List Entry} → ◌≡◌ {A = Result PruneError (List Entry)} (ok vs) (ok ws) → vs ≡ ws
same_victims h = cc

prune_victims-IsCommit :
    (fails : Call → Bool) (victims : List Entry) (db : Db)
    → Ensures (IsCommit victims db) (Unseen db) (prune_victims fails victims) (in_tx db db)
unfolding prune_victims
prune_victims-IsCommit fails [] db =
    commit_then fails db db _ (give-Ensures 0 (record { count = refl; left = refl }))
prune_victims-IsCommit fails (v ∷ victims) db =
    read_then _
      (λ n counted. exec_then fails db db _ delete_rows (delete_rows_of (v ∷ victims)) (
        exec_then fails db _ _ advance_horizon (move_horizon (v ∷ victims)) (
          commit_then fails db _ _
            (give-Ensures n (record { count = same_ok counted; left = refl })))))
      (λ _ _. refl)

-- What a tick that returns a count did: it pruned a batch of the table.
pub record IsPrune (p : Pruner) (now : Time) (db : Db) (n : ℕ) (s : Session) : Type 0 where
  pub limit : ℕ
  pub limited : int32_limit p.batch_size ≡ some limit
  pub committed :
      IsCommit (select_changelog_prune_batch (now - p.max_age) limit db.changelog) db n s

prune_tx-IsPrune :
    (p : Pruner) (fails : Call → Bool) (now : Time) (db : Db)
    → Ensures (IsPrune p now db) (Unseen db) (prune_tx p fails now) (idle db)
unfolding prune_tx
prune_tx-IsPrune p fails now db =
    pure_then _
      (λ _ _.
        pure_then _
          (λ _ _.
            pure_then _
              (λ _ _. begin_then fails db db _ (
                call_then fails db db _ select_batch refl (
                  pure_then _
                    (λ limit found_limit.
                      read_then _
                        (λ victims found.
                          subst
                            (λ vs.
                              Ensures (IsPrune p now db) (Unseen db) (prune_victims fails vs)
                                (in_tx db db))
                            (same_victims found)
                            (weaken
                              (λ n s done. record {
                                limit = limit;
                                limited = or_fail-eq-ok _ _ found_limit;
                                committed = done;
                              })
                              (λ _ _ h. h)
                              (prune_victims-IsCommit fails
                                (select_changelog_prune_batch (now - p.max_age) limit db.changelog)
                                db)))
                        (λ _ _. refl))
                    (λ _ _. refl))))
              (λ _ _. refl))
          (λ _ _. refl))
      (λ _ _. refl)

-- Both writes of a batch with a count, neither with an error.
abbrev pub IsDone : Pruner → Time → Db → Result PruneError ℕ → Session → Type 0
IsDone p now db (ok n) s = IsPrune p now db n s
IsDone p now db (err e) s = s ≡ idle db

pub prune_session-IsDone :
    (p : Pruner) (fails : Call → Bool) (now : Time) (db : Db)
    → IsDone p now db
        (prune_session p fails now (idle db)).0
        (prune_session p fails now (idle db)).1
unfolding prune_session deferred
prune_session-IsDone p fails now db =
    go (prune_tx p fails now (idle db)) (prune_tx-IsPrune p fails now db).outcome
  where
    go :
        (r : Result PruneError ℕ × Session)
        → Outcome (IsPrune p now db) (Unseen db) r.0 r.1
        → IsDone p now db (deferred r).0 (deferred r).1
    go (ok m, s) k = k
    go (err x, s) k = ap idle k

-- A tick with a count.
pub prune_session-IsPrune :
    (p : Pruner) (fails : Call → Bool) (now : Time) (db : Db) (n : ℕ)
    → (prune_session p fails now (idle db)).0 ≡ ok n
    → IsPrune p now db n (prune_session p fails now (idle db)).1
prune_session-IsPrune p fails now db n h =
    subst (λ r. IsDone p now db r (prune_session p fails now (idle db)).1) h
      (prune_session-IsDone p fails now db)

-- What a tick makes visible.
pub prune_once-shown :
    (p : Pruner) (fails : Call → Bool) (now : Time) (db : Db)
    → ((prune_once p fails now db).1 ≡ db)
      ⊎ (limit : ℕ) × ((prune_once p fails now db).1
          ≡ pruned (select_changelog_prune_batch (now - p.max_age) limit db.changelog) db)
unfolding prune_once
prune_once-shown p fails now db =
    go (prune_session p fails now (idle db)).0 (prune_session p fails now (idle db)).1
      (prune_session-IsDone p fails now db)
  where
    go :
        (r : Result PruneError ℕ) (s : Session)
        → IsDone p now db r s
        → (s.shown ≡ db)
          ⊎ (limit : ℕ) × (s.shown
              ≡ pruned (select_changelog_prune_batch (now - p.max_age) limit db.changelog) db)
    go (ok n) s done = inr (done.limit, ap (λ s. s.shown) done.committed.left)
    go (err e) s same = inl (ap (λ s. s.shown) same)
