-- ===== src/Sync/Prune/Horizon.antt =====
-- Every entry that a tick deletes lies at or before the horizon that it leaves.
use rize_backend.Base.{
  ℕ, ◌-◌, ◌≤◌, ◌≡◌, ap, ◌⊎◌, inl, inr, Bool, true, not, Option, none, some, List, [], ◌∷◌, arith,
  ltb, ◌==◌, if◌then◌else◌, ==_iff, Bool-cases, In, In-keep, In_of_keep, In_of_take, any-eq-true,
}
use mathlib.Core.Path.{subst}
use rize_backend.Instant.{Time}
use rize_backend.Store.Cursor.{PullCursor}
use rize_backend.Store.Cursor.Order.{Reached, Reached-grow, Reached-of_le}
use rize_backend.Sync.Changelog.{Entry, Db, position}
use rize_backend.Sync.Prune.{
  Pruner, Call, select_changelog_prune_batch, max_xid8, max_server_seq, has_id,
  delete_changelog_rows, greatest_xid8, advance_changelog_horizon, move_horizon, delete_rows_of,
  prune_once,
}
use rize_backend.Sync.Prune.Transaction.{pruned, prune_once-shown}
use rize_backend.Store.Paging.Sorting.{In_of_sort_by}
use rize_backend.Base.{sym}

-- `changelog_id` is the primary key.
abbrev pub HasUniqueIds : List Entry → Type 0
HasUniqueIds entries =
    (e f : Entry) → In e entries → In f entries → e.changelog_id ≡ f.changelog_id → e ≡ f

max_server_seq_grows : (m : ℕ) (vs : List Entry) → m ≤ max_server_seq m vs
unfolding max_server_seq
max_server_seq_grows m [] = omega arith
max_server_seq_grows m (v ∷ vs) =
    ground (arith, max_server_seq_grows m vs, max_server_seq_grows v.server_seq vs)

pub server_seq-le-max_server_seq :
    (m : ℕ) (e : Entry) (vs : List Entry) → In e vs → e.server_seq ≤ max_server_seq m vs
unfolding max_server_seq
server_seq-le-max_server_seq m e [] h = absurd h
server_seq-le-max_server_seq m e (v ∷ vs) (inl h) =
    ground (arith, max_server_seq_grows m vs, max_server_seq_grows v.server_seq vs)
server_seq-le-max_server_seq m e (v ∷ vs) (inr h) =
    server_seq-le-max_server_seq (if ltb m v.server_seq then v.server_seq else m) e vs h

max_xid8_grows : (x h : ℕ) (vs : List Entry) → x ≤ greatest_xid8 h (max_xid8 (some x) vs)
unfolding max_xid8 greatest_xid8
max_xid8_grows x h [] = ground arith
max_xid8_grows x h (v ∷ vs) = ground (arith, max_xid8_grows x h vs, max_xid8_grows v.xid8 h vs)

pub xid8-le-max_xid8 :
    (o : Option ℕ) (h : ℕ) (e : Entry) (vs : List Entry)
    → In e vs
    → e.xid8 ≤ greatest_xid8 h (max_xid8 o vs)
unfolding max_xid8
xid8-le-max_xid8 o h e [] m = absurd m
xid8-le-max_xid8 none h e (v ∷ vs) (inl m) =
    omega (arith, ap (λ (x : Entry). x.xid8) m, max_xid8_grows v.xid8 h vs)
xid8-le-max_xid8 (some x) h e (v ∷ vs) (inl m) =
    ground (arith, max_xid8_grows x h vs, max_xid8_grows v.xid8 h vs)
xid8-le-max_xid8 none h e (v ∷ vs) (inr m) = xid8-le-max_xid8 (some v.xid8) h e vs m
xid8-le-max_xid8 (some x) h e (v ∷ vs) (inr m) =
    xid8-le-max_xid8 (some (if ltb x v.xid8 then v.xid8 else x)) h e vs m

greatest_xid8_grows : (h : ℕ) (o : Option ℕ) → h ≤ greatest_xid8 h o
unfolding greatest_xid8
greatest_xid8_grows h o = ground arith

-- What a committed deletion keeps true of the entries and the horizon.
pub record IsPruned (before after : Db) : Type 0 where
  pub kept : (e : Entry) → In e after.changelog → In e before.changelog
  pub lost :
      (e : Entry)
      → In e before.changelog
      → In e after.changelog ⊎ Reached after.horizon (position e)
  pub grows : (p : PullCursor) → Reached before.horizon p → Reached after.horizon p

victim_Reached :
    (victims : List Entry) (h : PullCursor) (e : Entry)
    → In e victims
    → Reached
        (advance_changelog_horizon (max_xid8 none victims) (max_server_seq 0 victims) h)
        (position e)
unfolding advance_changelog_horizon
victim_Reached victims h e m =
    Reached-of_le _ (position e) (xid8-le-max_xid8 none h.xid8 e victims m)
      (ground (arith, server_seq-le-max_server_seq 0 e victims m))

pub victim_of_id :
    (victims changelog : List Entry) (e : Entry)
    → HasUniqueIds changelog
    → ((v : Entry) → In v victims → In v changelog)
    → In e changelog
    → has_id e.changelog_id victims ≡ true
    → In e victims
unfolding has_id
victim_of_id victims changelog e unique listed m y =
    let (v, found, same) = any-eq-true (λ v. v.changelog_id == e.changelog_id) victims y in
    subst (λ x. In x victims) (unique v e (listed v found) m ((==_iff _ _).0 same)) found

both-IsPruned :
    (victims : List Entry) (db : Db)
    → HasUniqueIds db.changelog
    → ((v : Entry) → In v victims → In v db.changelog)
    → IsPruned db (move_horizon victims (delete_rows_of victims db))
unfolding move_horizon delete_rows_of delete_changelog_rows
both-IsPruned victims db unique listed = record {
  kept = λ e m. (In_of_keep _ e db.changelog m).0;
  lost = λ e m. elim (Bool-cases (has_id e.changelog_id victims)) [
    | inl y ↦ inr (
        victim_Reached victims db.horizon e (victim_of_id victims db.changelog e unique listed m y))
    | inr n ↦ inl (In-keep (λ f. not (has_id f.changelog_id victims)) e db.changelog m (rw n))
  ];
  grows = λ p r.
      Reached-grow db.horizon _ p
        (unfold advance_changelog_horizon in
          greatest_xid8_grows db.horizon.xid8 (max_xid8 none victims))
        (unfold advance_changelog_horizon in ground arith) r;
}

IsPruned-refl : (db : Db) → IsPruned db db
IsPruned-refl db = record { kept = λ e m. m; lost = λ e m. inl m; grows = λ p r. r }

pruned-IsPruned :
    (victims : List Entry) (db : Db)
    → HasUniqueIds db.changelog
    → ((v : Entry) → In v victims → In v db.changelog)
    → IsPruned db (pruned victims db)
pruned-IsPruned [] db unique listed = IsPruned-refl db
pruned-IsPruned (v ∷ victims) db unique listed = both-IsPruned (v ∷ victims) db unique listed

pub batch_listed :
    (cutoff : Time) (limit : ℕ) (changelog : List Entry) (v : Entry)
    → In v (select_changelog_prune_batch cutoff limit changelog)
    → In v changelog
unfolding select_changelog_prune_batch
batch_listed cutoff limit changelog v m =
    (In_of_keep _ v changelog
      (In_of_sort_by (λ e. e.changelog_id) ltb v _ (In_of_take limit v _ m))).0

-- Whatever database calls fail, a tick on a table with unique ids adds no entry, loses only
-- entries that lie at or before the horizon that it leaves, and leaves every position at or
-- before the old horizon at or before the new one.
pub prune_once-IsPruned :
    (p : Pruner) (fails : Call → Bool) (now : Time) (db : Db)
    → HasUniqueIds db.changelog
    → IsPruned db (prune_once p fails now db).1
prune_once-IsPruned p fails now db unique = elim (prune_once-shown p fails now db) [
  | inl same ↦ subst (IsPruned db) (sym same) (IsPruned-refl db)
  | inr (limit, same) ↦ subst (IsPruned db) (sym same) (
      pruned-IsPruned (select_changelog_prune_batch (now - p.max_age) limit db.changelog) db unique
        (batch_listed (now - p.max_age) limit db.changelog))
]
