-- ===== src/Sync/Pull/Collect/Once.antt =====
-- How often a key is listed.
use rize_backend.Base.{
  ℕ, ◌+◌, ◌≤◌, String, ◌≡◌, refl, sym, ◌≢◌, inl, inr, Option, none, some, List, [], ◌∷◌, ◌++◌,
  arith, if◌then◌else◌, Bool-cases, In,
}
use mathlib.Core.Path.{subst}
use rize_backend.Base.{str_eq, eq_iff}
use rize_backend.Base.Result.{ok, >>=-eq-ok}
use rize_backend.Sync.Changelog.{Entry}
use rize_backend.Sync.Pull.{Env, ChangelogEntry}
use rize_backend.Sync.Pull.Tables.{Snapshot}
use rize_backend.Sync.Pull.Resolve.{resolve_changelog_entry}
use rize_backend.Sync.Pull.Keyed.{get}
use rize_backend.Sync.Pull.Collect.{
  change_key, Collected, nothing_collected, with_seen, collect_one, collect,
}
use rize_backend.Sync.Pull.Collect.Latest.{get-collect_one}

abbrev pub occurrences : String → List String → ℕ
occurrences k [] = 0
occurrences k (j ∷ ks) = (if str_eq j k then 1 else 0) + occurrences k ks

occurrences-append :
    (k : String) (js ks : List String)
    → occurrences k (js ++ ks) ≡ occurrences k js + occurrences k ks
occurrences-append k [] ks = omega arith
occurrences-append k (j ∷ js) ks = omega (arith, occurrences-append k js ks)

abbrev holds : Option ChangelogEntry → ℕ
holds none = 0
holds (some x) = 1

holds-le : (o : Option ChangelogEntry) → holds o ≤ 1
holds-le none = omega arith
holds-le (some x) = omega arith

-- A key is listed once if it has an entry, and not at all otherwise.
abbrev IsListedOnce : Collected → Type 0
IsListedOnce c = (k : String) → occurrences k c.ordered ≡ holds (get k c.by_key)

collect_one-IsListedOnce :
    (c : Collected) (k : String) (x : ChangelogEntry)
    → IsListedOnce c
    → IsListedOnce (collect_one c k (some x))
unfolding collect_one
collect_one-IsListedOnce c k x h j = rw (get-collect_one j k (some x) c) (go (get k c.by_key) (h k))
  where
    go :
        (o : Option ChangelogEntry)
        → occurrences k c.ordered ≡ holds o
        → occurrences j (with_seen k o c.ordered)
          ≡ holds (if str_eq k j then some x else get j c.by_key)
    go none e = elim (Bool-cases (str_eq k j)) [
      | inl t ↦
          let same : k ≡ j = (eq_iff k j).0 t in
          let e' : occurrences j c.ordered ≡ 0 = rw (sym same) e in
          rw (occurrences-append j c.ordered (k ∷ []), t) (omega (arith, e'))
      | inr t ↦ rw (occurrences-append j c.ordered (k ∷ []), t) (omega (arith, h j))
    ]
    go (some y) e = elim (Bool-cases (str_eq k j)) [
      | inl t ↦
          let same : k ≡ j = (eq_iff k j).0 t in
          let e' : occurrences j c.ordered ≡ 1 = rw (sym same) e in rw t e'
      | inr t ↦ rw t (h j)
    ]

module _ (env : Env) (s : Snapshot) (uid : String) where
  collect-IsListedOnce :
      (rows : List Entry) (c d : Collected)
      → IsListedOnce c
      → ((row : Entry) → In row rows → resolve_changelog_entry env s uid row ≢ ok none)
      → collect env s uid rows c ≡ ok d
      → IsListedOnce d
  unfolding collect
  collect-IsListedOnce [] c d h p e = let same : c ≡ d = ground arith in subst IsListedOnce same h
  collect-IsListedOnce (row ∷ rows) c d h p e =
      let (r, found, rest) = >>=-eq-ok (resolve_changelog_entry env s uid row) _ e in
      go (λ c' h' k. collect-IsListedOnce rows c' d h' (λ other m. p other (inr m)) k) r found rest
    where
      go :
          ((c' : Collected) → IsListedOnce c' → collect env s uid rows c' ≡ ok d → IsListedOnce d)
          → (r : Option ChangelogEntry) → resolve_changelog_entry env s uid row ≡ ok r
          → collect env s uid rows (collect_one c (change_key row) r) ≡ ok d
          → IsListedOnce d
      go ih none found rest = absurd (p row (inl refl) found)
      go ih (some x) found rest = ih _ (collect_one-IsListedOnce c (change_key row) x h) rest

  -- If the loop over a page resolves every row and finds the entity of each, it lists each key at
  -- most once.
  pub collect_once :
      (rows : List Entry) (c : Collected) (k : String)
      → ((row : Entry) → In row rows → resolve_changelog_entry env s uid row ≢ ok none)
      → collect env s uid rows nothing_collected ≡ ok c
      → occurrences k c.ordered ≤ 1
  unfolding get
  collect_once rows c k p e =
      let h = collect-IsListedOnce rows nothing_collected c (λ j. refl) p e in
      rw (h k) (holds-le (get k c.by_key))
