-- ===== src/Sync/Pull/Collect/Latest.antt =====
-- What the loop has collected.
use rize_backend.Base.{
  String, ◌≡◌, refl, ap, ◌∙◌, inl, inr, Option, none, some, List, [], ◌∷◌, arith, if◌then◌else◌,
  Bool-cases, In, In-append_left, In-append_right,
}
use mathlib.Core.Path.{subst}
use rize_backend.Base.{str_eq, eq_iff}
use rize_backend.Base.Result.{Result, ok, err, >>=-eq-ok}
use rize_backend.Sync.Changelog.{Entry}
use rize_backend.Sync.Pull.{Env, PullError, ChangelogEntry}
use rize_backend.Sync.Pull.Tables.{Snapshot}
use rize_backend.Sync.Pull.Resolve.{resolve_changelog_entry}
use rize_backend.Sync.Pull.Keyed.{get, get-put, get-delete}
use rize_backend.Sync.Pull.Collect.{change_key, Collected, with_seen, set_key, collect_one, collect}

-- What a lookup found, if it did not fail.
abbrev pub found_of : Result PullError (Option ChangelogEntry) → Option ChangelogEntry
found_of (ok found) = found
found_of (err e) = none

-- What the last row with a key resolves to, or else an earlier value.
pub latest :
    Env → Snapshot → String → String → List Entry → Option ChangelogEntry → Option ChangelogEntry
latest env s uid k [] before = before
latest env s uid k (row ∷ rows) before =
    latest env s uid k rows (
      if str_eq (change_key row) k
      then found_of (resolve_changelog_entry env s uid row)
      else before)

get-set_key :
    (j k : String) (r : Option ChangelogEntry) (m : List (String × ChangelogEntry))
    → get j (set_key k r m) ≡ (if str_eq k j then r else get j m)
get-set_key j k none m = get-delete j k m
get-set_key j k (some entry) m = get-put j k entry m

pub get-collect_one :
    (j k : String) (r : Option ChangelogEntry) (c : Collected)
    → get j (collect_one c k r).by_key ≡ (if str_eq k j then r else get j c.by_key)
unfolding collect_one
get-collect_one j k r c = get-set_key j k r c.by_key

-- Every key with an entry is listed, and every entry is what a row resolves to.
pub record IsCollected (P : ChangelogEntry → Type 0) (c : Collected) : Type 0 where
  pub listed : (k : String) (x : ChangelogEntry) → get k c.by_key ≡ some x → In k c.ordered
  pub sound : (k : String) (x : ChangelogEntry) → get k c.by_key ≡ some x → P x

In-with_seen :
    (j k : String) (r : Option ChangelogEntry) (ordered : List String)
    → In j ordered
    → In j (with_seen k r ordered)
In-with_seen j k none ordered m = In-append_left j ordered (k ∷ []) m
In-with_seen j k (some x) ordered m = m

-- The key of the row is listed after it.
In-with_seen_key :
    (c : Collected) (k : String) (r : Option ChangelogEntry)
    → get k c.by_key ≡ r
    → ((x : ChangelogEntry) → get k c.by_key ≡ some x → In k c.ordered)
    → In k (with_seen k r c.ordered)
In-with_seen_key c k none e listed = In-append_right k c.ordered (k ∷ []) (inl refl)
In-with_seen_key c k (some x) e listed = listed x e

collect_one-IsCollected :
    (P : ChangelogEntry → Type 0) (c : Collected) (k : String) (r : Option ChangelogEntry)
    → IsCollected P c
    → ((x : ChangelogEntry) → r ≡ some x → P x)
    → IsCollected P (collect_one c k r)
unfolding collect_one
collect_one-IsCollected P c k r h p = record {
  listed = λ j x e. elim (Bool-cases (str_eq k j)) [
    | inl t ↦
        let same : k ≡ j = (eq_iff k j).0 t in
        subst (λ i. In i (with_seen k (get k c.by_key) c.ordered)) same
          (In-with_seen_key c k (get k c.by_key) refl (h.listed k))
    | inr t ↦
        let old : get j c.by_key ≡ some x = rw (get-set_key j k r c.by_key, t) at e in
        In-with_seen j k (get k c.by_key) c.ordered (h.listed j x old)
  ];
  sound = λ j x e. elim (Bool-cases (str_eq k j)) [
    | inl t ↦ let new : r ≡ some x = rw (get-set_key j k r c.by_key, t) at e in p x new
    | inr t ↦
        let old : get j c.by_key ≡ some x = rw (get-set_key j k r c.by_key, t) at e in
        h.sound j x old
  ];
}

module _ (env : Env) (s : Snapshot) (uid : String) where
  pub get-collect :
      (k : String) (rows : List Entry) (c d : Collected)
      → collect env s uid rows c ≡ ok d
      → get k d.by_key ≡ latest env s uid k rows (get k c.by_key)
  unfolding collect latest
  get-collect k [] c d e = let same : c ≡ d = ground arith in rw same refl
  get-collect k (row ∷ rows) c d e =
      let (r, found, rest) = >>=-eq-ok (resolve_changelog_entry env s uid row) _ e in
      let step : get k (collect_one c (change_key row) r).by_key
          ≡ (if str_eq (change_key row) k then r else get k c.by_key) =
        get-collect_one k (change_key row) r c in
      rw (found, get-collect k rows (collect_one c (change_key row) r) d rest, step) refl

  pub collect-IsCollected :
      (P : ChangelogEntry → Type 0) (rows : List Entry) (c d : Collected)
      → IsCollected P c
      → ((row : Entry) (x : ChangelogEntry)
          → In row rows
          → resolve_changelog_entry env s uid row ≡ ok (some x)
          → P x)
      → collect env s uid rows c ≡ ok d
      → IsCollected P d
  unfolding collect
  collect-IsCollected P [] c d h p e =
      let same : c ≡ d = ground arith in subst (IsCollected P) same h
  collect-IsCollected P (row ∷ rows) c d h p e =
      let (r, found, rest) = >>=-eq-ok (resolve_changelog_entry env s uid row) _ e in
      collect-IsCollected P rows (collect_one c (change_key row) r) d
        (collect_one-IsCollected P c (change_key row) r h
          (λ x q. p row x (inl refl) (found ∙ ap ok q)))
        (λ other x m q. p other x (inr m) q) rest
