-- ===== src/Entities/Requests/Ensured.antt =====
-- What the requests that write ensure: a refused one leaves the table as it was.
use rize_backend.Base.{
  ℕ, suc, String, ◌≡◌, refl, sym, ◌∙◌, ◌≢◌, inl, inr, Bool, true, false, not, Option, none, some,
  List, [], ◌∷◌, arith, ◌==◌, Bool-cases, keep, any, length,
}
use mathlib.Core.Path.{subst}
use rize_backend.Base.{str_eq, eq_iff}
use rize_backend.Base.Action.{Action, ◌>>=◌, pure, read}
use rize_backend.Base.Action.Ensures.{
  Ensures, pure_then, read_then, write_then, pure-Ensures, give-Ensures,
}
use rize_backend.Base.Result.{Result, ok, err, require, or_fail, >>=-eq-ok, require-eq-ok}
use rize_backend.Store.Query.{DbError}
use rize_backend.Entities.{
  Env, EntityError, required, required_or, not_found, authenticated, path_id, write_error,
  map_error, succeeds, delete_row,
}
use rize_backend.Entities.Rows.{Entity, Table, nextval}
use rize_backend.Entities.Rows.Written.{IsValid, set_own-IsWrite, set_own-none}
use rize_backend.Entities.Rows.Lookup.{IsGone, delete-missing}
use rize_backend.Entities.Rows.Found.{one-eq-ok}
use rize_backend.Entities.Reads.{get_entity}
use rize_backend.Entities.Requests.{write_row, delete_entity}

pub map_error-eq-ok :
    {A : Type 0} (f : DbError → EntityError) (r : Result DbError A) (a : A)
    → map_error f r ≡ ok a
    → r ≡ ok a
map_error-eq-ok f (ok b) a h = cc
map_error-eq-ok f (err x) a h = cc

or_fail-eq-ok :
    {A : Type 0} (o : Option A) (x : EntityError) (a b : A)
    → o ≡ some a
    → or_fail o x ≡ ok b
    → b ≡ a
or_fail-eq-ok none x a b h k = cc
or_fail-eq-ok (some c) x a b h k = cc

pub or_fail-some :
    {A : Type 0} (o : Option A) (x : EntityError) (a : A) → or_fail o x ≡ ok a → o ≡ some a
or_fail-some none x a h = cc
or_fail-some (some b) x a h = cc

pub required-eq-ok :
    (env : Env) (s message a : String) → required env s message ≡ ok a → (a ≡ env.trim s) × (a ≢ "")
required-eq-ok env s message a h =
    let (not_blank, rest) = require-eq-ok (not (str_eq (env.trim s) "")) _ _ h in
    ground (arith, eq_iff (env.trim s) "")

pub ok_same : {a b : String} → ◌≡◌ {A = Result EntityError String} (ok a) (ok b) → a ≡ b
ok_same h = cc

pub required_or-eq-ok :
    (env : Env) (current message a : String) (given : Option String)
    → required_or env current given message ≡ ok a
    → current ≢ ""
    → a ≢ ""
required_or-eq-ok env current message a none h k = λ e. k (ok_same h ∙ e)
required_or-eq-ok env current message a (some s) h k = (required-eq-ok env s message a h).1

pub get_entity-eq-ok :
    {A : Type 0} (env : Env) (what : String) (pick : String → String → Table A → Option A)
    (user_id id : String) (t : Table A) (a : A)
    → get_entity env what pick user_id id t ≡ ok a
    → (uid : String) × (rid : String) × (env.parse_uuid user_id ≡ some uid)
      × (env.parse_uuid id ≡ some rid)
      × (pick uid rid t ≡ some a)
unfolding get_entity
get_entity-eq-ok env what pick user_id id t a h =
    let (uid, who, h1) = >>=-eq-ok (authenticated env user_id) _ h in
    let (rid, which, h2) = >>=-eq-ok (path_id env id) _ h1 in
    (
      uid,
      rid,
      or_fail-some _ _ uid who,
      or_fail-some _ _ rid which,
      one-eq-ok _ _ a (map_error-eq-ok _ _ a h2),
    )

-- The row that a request starts from, under the ids that it writes by.
pub current_row :
    {A : Type 0} (env : Env) (what : String) (pick : String → String → Table A → Option A)
    (user_id id uid rid : String) (t : Table A) (a : A)
    → get_entity env what pick user_id id t ≡ ok a
    → env.parse_uuid user_id ≡ some uid
    → path_id env id ≡ ok rid
    → pick uid rid t ≡ some a
current_row env what pick user_id id uid rid t a h known path =
    let (uid', rid', who, which, found) = get_entity-eq-ok env what pick user_id id t a h in
    cc (or_fail-some (env.parse_uuid id) _ rid path)

or_fail-eq-err :
    {A : Type 0} (o : Option A) (x y : EntityError) (a : A) → o ≡ some a → or_fail o x ≡ err y → ⊥
or_fail-eq-err none x y a h k = cc
or_fail-eq-err (some c) x y a h k = cc

module _ {S B : Type 0} {Q : B → S → Type 0} {X : EntityError → S → Type 0} where
  -- The caller is known.
  pub authenticated_then :
      (env : Env) (user_id uid : String) (k : String → Action S EntityError B) (s : S)
      → env.parse_uuid user_id ≡ some uid
      → Ensures Q X (k uid) s
      → Ensures Q X (pure (authenticated env user_id) >>= k) s
  authenticated_then env user_id uid k s known next =
      pure_then (authenticated env user_id)
        (λ a h. subst (λ u. Ensures Q X (k u) s) (sym (or_fail-eq-ok _ _ uid a known h)) next)
        (λ x h. absurd (or_fail-eq-err _ _ _ uid known h))

no_keep :
    {A : Type 0} (p : A → Bool) (rows : List A) → length (keep p rows) ≡ 0 → any p rows ≡ false
no_keep p [] h = refl
no_keep p (a ∷ rows) h = elim (Bool-cases (p a)) [
  | inl y ↦ let h' : suc (length (keep p rows)) ≡ 0 = rw y at h in absurd (omega arith)
  | inr n ↦ rw n (no_keep p rows (rw n at h))
]

is_zero : (found : ℕ) {x : EntityError} → require (not (found == 0)) not_found ≡ err x → found ≡ 0
is_zero found h = ground arith

nothing_kept :
    {A : Type 0} (p : A → Bool) (rows : List A) (found : ℕ) {x : EntityError}
    → ◌≡◌ {A = Result EntityError ℕ} (ok (length (keep p rows))) (ok found)
    → require (not (found == 0)) not_found ≡ err x
    → any p rows ≡ false
nothing_kept p rows found n missing = no_keep p rows (cc (is_zero found missing))

-- What precedes the write leaves the table as it was.
module _ {S B : Type 0} {Q : B → S → Type 0} {s : S} where
  pub check_then :
      {A : Type 0} (r : Result EntityError A) {k : A → Action S EntityError B}
      → ((a : A) → r ≡ ok a → Ensures Q (λ x u. u ≡ s) (k a) s)
      → Ensures Q (λ x u. u ≡ s) (pure r >>= k) s
  check_then r h = pure_then r h (λ x _. refl)

  pub find_then :
      {A : Type 0} (f : S → Result EntityError A) {k : A → Action S EntityError B}
      → ((a : A) → f s ≡ ok a → Ensures Q (λ x u. u ≡ s) (k a) s)
      → Ensures Q (λ x u. u ≡ s) (read f >>= k) s
  find_then f h = read_then f h (λ x _. refl)

pub str_eq_refl : (s : String) → str_eq s s ≡ true
str_eq_refl s = ground (arith, eq_iff s s)

module _ {A : Type 0} (e : Entity A) where
  pub write_row-Ensures :
      (Q : A → Table A → Type 0) (env : Env) (mapped : String → String → EntityError)
      (what : String) (statement : Table A → Result DbError (A × Table A)) (t : Table A)
      → ((out : A × Table A) → statement t ≡ ok out → Q out.0 out.1)
      → Ensures Q (λ x u. u ≡ t) (write_row e env mapped what statement) t
  unfolding write_row
  write_row-Ensures Q env mapped what statement t h =
      read_then (λ t. map_error (write_error env mapped what) (statement t))
        (λ out same.
          write_then (λ t. out.1) _ (give-Ensures out.0 (h out (map_error-eq-ok _ _ out same))))
        (λ x same. refl)

  pub delete_entity-Ensures :
      (P : A → Type 0) (env : Env) (what user_id uid id : String) (t : Table A)
      → env.parse_uuid user_id ≡ some uid
      → IsValid e P t
      → ((a : A) → P a → P (e.stamp env.db_now (nextval env t) (e.mark_deleted env.db_now a)))
      → Ensures
          (λ done u. (rid : String) × (env.parse_uuid id ≡ some rid) × IsGone e P uid rid t u)
          (λ x u. u ≡ t)
          (delete_entity e env what user_id id)
          t
  unfolding delete_entity
  delete_entity-Ensures P env what user_id uid id t known v good =
      authenticated_then env user_id uid _ t known (
        check_then (path_id env id) (λ rid h.
          check_then (succeeds (env.faults delete_row) what) (λ _ _. find_then _ (λ found n.
            write_then _ _ (
              pure-Ensures (require (not (found == 0)) not_found)
                (λ done ok_h. (
                  rid,
                  or_fail-some _ _ rid h,
                  record {
                    write =
                        set_own-IsWrite e P env uid t v rid (e.mark_deleted env.db_now)
                          (e.id-mark_deleted env.db_now) (e.owner-mark_deleted env.db_now) good;
                    missing = delete-missing e P env uid t v rid;
                  },
                ))
                (λ x missing.
                  set_own-none e env uid rid (e.mark_deleted env.db_now) t
                    (nothing_kept _ t.rows found n missing)))))))
