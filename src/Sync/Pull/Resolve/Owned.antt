-- ===== src/Sync/Pull/Resolve/Owned.antt =====
-- Whose rows a lookup finds.
use rize_backend.Base.{
  String, ◌≡◌, refl, sym, ap, ◌∙◌, ◌⊎◌, inl, inr, Bool, true, ◌&&◌, Option, none, some, List, arith,
  Bool-cases, In,
}
use rize_backend.Base.{str_eq, eq_iff}
use rize_backend.Base.Result.{ok}
use rize_backend.Store.Query.{Fault, find, find-eq-some}
use rize_backend.Sync.Changelog.{Entry}
use rize_backend.Sync.Feed.{of_user}
use rize_backend.Sync.Pull.{Env, ChangelogEntry, Change, lookup}
use rize_backend.Sync.Pull.Tables.{Snapshot}
use rize_backend.Sync.Pull.Resolve.{
  event_change, session_change, project_change, tag_change, setting_change, category_change,
  entry_of, looked_up, resolve_changelog_entry,
}

-- An entry of a type that tells the state of a row of the user's.
pub record IsRowOf {A : Type 0} (uid : String) (rows : List A) (owner : A → Option String)
    (change : A → Change) (entity_type : String) (x : ChangelogEntry) : Type 0 where
  pub row : A
  pub stored : In row rows
  pub owned : of_user uid (owner row) ≡ true
  pub sent : x.change ≡ change row
  pub named : x.entity_type ≡ entity_type

and-left : (a b : Bool) → (a && b) ≡ true → a ≡ true
and-left a b h = ground arith

and-right : (a b : Bool) → (a && b) ≡ true → b ≡ true
and-right a b h = ground arith

module _ (env : Env) (s : Snapshot) (uid : String) where
  -- A row of the user's, or a category without a user.
  abbrev pub IsOwned : ChangelogEntry → Type 0
  IsOwned x =
      IsRowOf uid s.events (λ r. some r.user_id) (event_change env s) "activity_events" x
      ⊎ (IsRowOf uid s.sessions (λ r. some r.user_id) (session_change env) "focus_sessions" x
          ⊎ (IsRowOf uid s.projects (λ r. some r.user_id) (project_change env) "projects" x
              ⊎ (IsRowOf uid s.tags (λ r. some r.user_id) (tag_change env) "tags" x
                  ⊎ (IsRowOf uid s.settings (λ r. some r.user_id) (setting_change env)
                        "user_app_settings" x
                      ⊎ IsRowOf uid s.categories (λ r. r.user_id) (category_change env) "categories"
                          x))))

  looked_up-IsRowOf :
      {A : Type 0} (p : A → Bool) (rows : List A) (owner : A → Option String) (change : A → Change)
      (t name : String) (f : Option Fault) (x : ChangelogEntry)
      → str_eq t name ≡ true
      → ((r : A) → p r ≡ true → of_user uid (owner r) ≡ true)
      → looked_up f (entry_of t change (find p rows)) ≡ ok (some x)
      → IsRowOf uid rows owner change name x
  looked_up-IsRowOf p rows owner change t name f x same own h = go (find p rows) f refl h
    where
      go :
          (o : Option _) (f : Option Fault)
          → find p rows ≡ o
          → looked_up f (entry_of t change o) ≡ ok (some x)
          → IsRowOf uid rows owner change name x
      go o (some f) e k = cc
      go none none e k = cc
      go (some r) none e k =
          let found = find-eq-some p rows r e in
          let here : record { entity_type = t; change = change r } ≡ x = ground arith in
          record {
            row = r;
            stored = found.0;
            owned = own r found.1;
            sent = ap (λ (y : ChangelogEntry). y.change) (sym here);
            named = ap (λ (y : ChangelogEntry). y.entity_type) (sym here) ∙ (eq_iff t name).0 same;
          }

  pub resolve_changelog_entry-IsOwned :
      (row : Entry) (x : ChangelogEntry)
      → resolve_changelog_entry env s uid row ≡ ok (some x)
      → IsOwned x
  unfolding resolve_changelog_entry of_user
  resolve_changelog_entry-IsOwned row x h =
      let f = env.faults (lookup row) in
      let t = row.entity_type in
      elim (Bool-cases (str_eq t "activity_events")) [
        | inl a ↦ inl (
            looked_up-IsRowOf _ s.events _ _ t _ f x a (λ r q. and-left _ _ (and-left _ _ q))
              (rw a at h))
        | inr a ↦ elim (Bool-cases (str_eq t "focus_sessions")) [
          | inl b ↦ inr (
              inl (
                looked_up-IsRowOf _ s.sessions _ _ t _ f x b (λ r q. and-left _ _ q)
                  (rw (a, b) at h)))
          | inr b ↦ elim (Bool-cases (str_eq t "projects")) [
            | inl c ↦ inr (
                inr (
                  inl (
                    looked_up-IsRowOf _ s.projects _ _ t _ f x c (λ r q. and-left _ _ q)
                      (rw (a, b, c) at h))))
            | inr c ↦ elim (Bool-cases (str_eq t "tags")) [
              | inl d ↦ inr (
                  inr (
                    inr (
                      inl (
                        looked_up-IsRowOf _ s.tags _ _ t _ f x d (λ r q. and-left _ _ q)
                          (rw (a, b, c, d) at h)))))
              | inr d ↦ elim (Bool-cases (str_eq t "user_app_settings")) [
                | inl e ↦ inr (
                    inr (
                      inr (
                        inr (
                          inl (
                            looked_up-IsRowOf _ s.settings _ _ t _ f x e (λ r q. and-left _ _ q)
                              (rw (a, b, c, d, e) at h))))))
                | inr e ↦ elim (Bool-cases (str_eq t "categories")) [
                  | inl g ↦ inr (
                      inr (
                        inr (
                          inr (
                            inr (
                              looked_up-IsRowOf _ s.categories _ _ t _ f x g
                                (λ r q. and-right _ _ q) (rw (a, b, c, d, e, g) at h))))))
                  | inr g ↦ let k = rw (a, b, c, d, e, g) at h in cc
                ]
              ]
            ]
          ]
        ]
      ]
