-- ===== src/Sync/Prune/Bounds.antt =====
-- A tick that returns counts what it deleted, and spares what is recent.
use rize_backend.Base.{
  ℕ, ◌+◌, ◌-◌, ◌≤◌, ◌≡◌, refl, inl, inr, Bool, true, not, List, [], ◌∷◌, arith, Bool-cases, length,
  keep, In, In-keep, In_of_keep, In_of_take,
}
use mathlib.Core.Path.{subst}
use rize_backend.Base.Result.{ok}
use rize_backend.Instant.{Time, before}
use rize_backend.Sync.Changelog.{Entry, Db}
use rize_backend.Sync.Prune.{
  Pruner, Call, select_changelog_prune_batch, has_id, deleted_count, delete_changelog_rows,
  move_horizon, delete_rows_of, prune_once,
}
use rize_backend.Sync.Prune.Transaction.{pruned, count_of, prune_session-IsPrune}
use rize_backend.Store.Paging.Sorting.{In_of_sort_by}
use rize_backend.Base.{sym, ap, ltb}
use rize_backend.Sync.Prune.Horizon.{HasUniqueIds, victim_of_id, batch_listed}

pub batch_old :
    (cutoff : Time) (limit : ℕ) (changelog : List Entry) (v : Entry)
    → In v (select_changelog_prune_batch cutoff limit changelog)
    → before v.created_at cutoff ≡ true
unfolding select_changelog_prune_batch
batch_old cutoff limit changelog v m =
    (In_of_keep _ v changelog
      (In_of_sort_by (λ e. e.changelog_id) ltb v _ (In_of_take limit v _ m))).1

pub length-keep-not :
    {A : Type 0} (p : A → Bool) (xs : List A)
    → length (keep p xs) + length (keep (λ x. not (p x)) xs) ≡ length xs
length-keep-not p [] = omega arith
length-keep-not p (x ∷ xs) = ground (arith, length-keep-not p xs)

-- What a tick that returned `n` did.
pub record IsTick (p : Pruner) (now : Time) (before after : Db) (n : ℕ) : Type 0 where
  pub counted : n + length after.changelog ≡ length before.changelog
  pub recent :
      (e : Entry) → In e before.changelog → now - p.max_age ≤ e.created_at → In e after.changelog

IsTick-idle : (p : Pruner) (now : Time) (db : Db) → IsTick p now db db 0
IsTick-idle p now db = record { counted = omega arith; recent = λ e m r. m }

module _ (p : Pruner) (now : Time) (db : Db) (unique : HasUniqueIds db.changelog) where
  batch-IsTick :
      (limit : ℕ) (victims : List Entry)
      → victims ≡ select_changelog_prune_batch (now - p.max_age) limit db.changelog
      → IsTick p now db
          (move_horizon victims (delete_rows_of victims db))
          (deleted_count victims db.changelog)
  unfolding move_horizon delete_rows_of delete_changelog_rows deleted_count
  batch-IsTick limit victims same = record {
    counted = length-keep-not (λ e. has_id e.changelog_id victims) db.changelog;
    recent = λ e m r. elim (Bool-cases (has_id e.changelog_id victims)) [
      | inl y ↦ absurd (old e m r y)
      | inr n ↦ In-keep (λ f. not (has_id f.changelog_id victims)) e db.changelog m (rw n)
    ];
  }
    where
      listed : (v : Entry) → In v victims → In v db.changelog
      listed v m = batch_listed (now - p.max_age) limit db.changelog v (subst (In v) same m)

      is_old :
          (v : Entry)
          → In v (select_changelog_prune_batch (now - p.max_age) limit db.changelog)
          → before v.created_at (now - p.max_age) ≡ true
      is_old v m = batch_old (now - p.max_age) limit db.changelog v m

      old :
          (e : Entry)
          → In e db.changelog
          → now - p.max_age ≤ e.created_at
          → has_id e.changelog_id victims ≡ true
          → ⊥
      old e m r y =
          let o =
            is_old e (subst (In e) same (victim_of_id victims db.changelog e unique listed m y)) in
          ground arith

  pruned-IsTick :
      (limit : ℕ) (victims : List Entry)
      → victims ≡ select_changelog_prune_batch (now - p.max_age) limit db.changelog
      → IsTick p now db (pruned victims db) (count_of victims db)
  pruned-IsTick limit [] same = IsTick-idle p now db
  pruned-IsTick limit (v ∷ victims) same = batch-IsTick limit (v ∷ victims) same

  subst2 :
      {after next : Db} {m n : ℕ}
      → next ≡ after
      → n ≡ m
      → IsTick p now db after m
      → IsTick p now db next n
  subst2 {after} {next} {m} {n} same count h =
      subst (λ d. IsTick p now db d n) (sym same)
        (subst (λ j. IsTick p now db after j) (sym count) h)

  -- A tick that returns a count on a table with unique ids removed that many rows, and kept every
  -- entry that is not older than the retention window.
  pub prune_once-IsTick :
      (fails : Call → Bool) (n : ℕ)
      → (prune_once p fails now db).0 ≡ ok n
      → IsTick p now db (prune_once p fails now db).1 n
  unfolding prune_once
  prune_once-IsTick fails n h =
      let done = prune_session-IsPrune p fails now db n h in
      subst2 (ap (λ s. s.shown) done.committed.left) done.committed.count
        (pruned-IsTick done.limit _ refl)
