-- ===== src/Entities/History/Isolation.antt =====
-- A user's requests change that user's rows only, in every history.
use rize_backend.Base.{
  String, ◌≡◌, ◌≢◌, refl, sym, ap, ◌∙◌, inl, inr, Bool, true, false, not, Option, none, some, List,
  [], ◌∷◌, arith, Bool-cases, keep, eq_iff,
}
use rize_backend.Entities.Rows.{Entity, Table, owned_by}
use rize_backend.Entities.Rows.Written.{IsWrite}
use rize_backend.Entities.Projects
use rize_backend.Entities.Tags
use rize_backend.Entities.Categories
use rize_backend.Entities.FocusSessions
use rize_backend.Entities.History.{World, Run, stay, go_on}
use rize_backend.Sync.Feed.{of_user}
use rize_backend.Entities.History.Written.{IsValidWorld, IsWritten, Step-IsWritten, written_valid}

keep-keep :
    {A : Type 0} (q p : A → Bool) (xs : List A)
    → ((a : A) → q a ≡ true → p a ≡ true)
    → keep q (keep p xs) ≡ keep q xs
keep-keep q p [] h = refl
keep-keep q p (x ∷ xs) h = elim (Bool-cases (q x)) [
  | inl y ↦ rw (h x y, y) (ap (◌∷◌ x) (keep-keep q p xs h))
  | inr n ↦ elim (Bool-cases (p x)) [
    | inl y ↦ rw (y, n) (keep-keep q p xs h)
    | inr m ↦ rw (m, n) (keep-keep q p xs h)
  ]
]

-- The rows whose owner satisfies a test.
abbrev pub part : {A : Type 0} → Entity A → (Option String → Bool) → Table A → List A
part e watched t = keep (λ a. watched (e.owner a)) t.rows

write-part :
    {A : Type 0} {e : Entity A} {P : A → Type 0} {uid : String} {t u : Table A}
    (watched : Option String → Bool)
    → ((o : Option String) → watched o ≡ true → owned_by uid o ≡ false)
    → IsWrite e P uid t u
    → part e watched u ≡ part e watched t
write-part {e} {t} {u} watched apart w =
    sym (keep-keep _ _ u.rows (λ a h. ap not (apart (e.owner a) h)))
    ∙ ap (keep (λ a. watched (e.owner a))) w.same_others
    ∙ keep-keep _ _ t.rows (λ a h. ap not (apart (e.owner a) h))

pub record SamePart (watched : Option String → Bool) (w u : World) : Type 0 where
  pub projects : part Projects.entity watched u.projects ≡ part Projects.entity watched w.projects
  pub tags : part Tags.entity watched u.tags ≡ part Tags.entity watched w.tags
  pub categories :
      part Categories.entity watched u.categories ≡ part Categories.entity watched w.categories
  pub sessions :
      part FocusSessions.entity watched u.sessions ≡ part FocusSessions.entity watched w.sessions

trans-SamePart :
    {watched : Option String → Bool} {w x u : World}
    → SamePart watched w x
    → SamePart watched x u
    → SamePart watched w u
trans-SamePart h k = record {
  projects = k.projects ∙ h.projects;
  tags = k.tags ∙ h.tags;
  categories = k.categories ∙ h.categories;
  sessions = k.sessions ∙ h.sessions;
}

step-SamePart :
    {uid : String} {w u : World} (watched : Option String → Bool)
    → ((o : Option String) → watched o ≡ true → owned_by uid o ≡ false)
    → IsWritten uid w u
    → SamePart watched w u
step-SamePart watched apart h = record {
  projects = write-part watched apart h.projects;
  tags = write-part watched apart h.tags;
  categories = write-part watched apart h.categories;
  sessions = write-part watched apart h.sessions;
}

-- Every sequence of requests of any users to create, update or delete projects, tags, categories
-- and focus sessions keeps the four tables well-formed: ids and server_seqs are unique, each
-- server_seq is positive and at most the last one taken, names and colors are not empty, a
-- productivity is between -2 and 2, and a session's kind and status are known words.
pub Run-IsValidWorld :
    {C : String → Type 0} {w u : World} → IsValidWorld w → Run C w u → IsValidWorld u
Run-IsValidWorld v (stay w) = v
Run-IsValidWorld v (go_on w x u uid c s rest) =
    Run-IsValidWorld (written_valid (Step-IsWritten s v)) rest

pub Run-SamePart :
    {C : String → Type 0} {w u : World} (watched : Option String → Bool)
    → ((uid : String) → C uid → (o : Option String) → watched o ≡ true → owned_by uid o ≡ false)
    → IsValidWorld w
    → Run C w u
    → SamePart watched w u
Run-SamePart watched apart v (stay w) = record {
  projects = refl;
  tags = refl;
  categories = refl;
  sessions = refl;
}
Run-SamePart watched apart v (go_on w x u uid c s rest) =
    let h = Step-IsWritten s v in
    trans-SamePart (step-SamePart watched (apart uid c) h)
      (Run-SamePart watched apart (written_valid h) rest)

apart_from_caller :
    (uid caller : String)
    → caller ≢ uid
    → (o : Option String) → of_user uid o ≡ true
    → owned_by caller o ≡ false
unfolding of_user
apart_from_caller uid caller n none h = refl
apart_from_caller uid caller n (some u) h = ground (arith, eq_iff u uid, eq_iff u caller)

-- From well-formed tables, whatever requests to create, update or delete projects, tags,
-- categories and focus sessions other users make, in any order and with any failing statements:
-- the rows of all four tables that a user owns, and the system's, stay as they were, in the same
-- order.
pub other_users-SamePart :
    (uid : String) (w u : World)
    → IsValidWorld w
    → Run (λ caller. caller ≢ uid) w u
    → SamePart (of_user uid) w u
other_users-SamePart uid w u v r = Run-SamePart (of_user uid) (apart_from_caller uid) v r
