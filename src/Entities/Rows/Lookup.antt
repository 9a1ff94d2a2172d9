-- ===== src/Entities/Rows/Lookup.antt =====
-- What the caller finds under an id after a statement that writes.
use rize_backend.Base.{
  ℕ, String, ◌≡◌, sym, ap, ◌∙◌, inl, inr, Bool, true, false, ◌||◌, Option, none, some, arith,
  Bool-cases, any, In-All,
}
use mathlib.Core.Path.{subst}
use rize_backend.Base.{str_eq, eq_iff}
use rize_backend.Base.Result.{ok, >>=-eq-ok, require-eq-ok}
use rize_backend.Store.Query.{Fault, one, find-eq-some}
use rize_backend.Instant.{Time}
use rize_backend.Entities.{Env}
use rize_backend.Entities.Rows.{
  Entity, Table, nextval, owned_by, is_own, get_own, insert_into, set_own, update_own,
}
use rize_backend.Entities.Rows.Distinct.{any-false-All}
use rize_backend.Store.Paging.Sorting.{map-All}
use rize_backend.Entities.Rows.Written.{IsValid, IsWrite, insert_into-IsWrite, set_own-IsWrite}
use rize_backend.Entities.Rows.Found.{
  find-append_one, find-set_where, find-set_where-none, same_some, ok_out, one-eq-ok, find-none,
}

module _ {A : Type 0} (e : Entity A) (P : A → Type 0) where
  pub found-each :
      (uid id : String) (t : Table A) (a : A) → IsValid e P t → get_own e uid id t ≡ some a → P a
  found-each uid id t a v h = In-All P a t.rows (find-eq-some _ t.rows a h).0 v.each

  -- A row of the caller's that a request stored and returned.
  pub record IsSaved (uid : String) (t : Table A) (a : A) (u : Table A) : Type 0 where
    pub write : IsWrite e P uid t u
    pub found : get_own e uid (e.id a) u ≡ some a

  -- A row that a request deleted.
  pub record IsGone (uid id : String) (t u : Table A) : Type 0 where
    pub write : IsWrite e P uid t u
    pub missing : get_own e uid id u ≡ none

  is_own-other :
      (uid id : String) (b : A) (taken : Bool)
      → str_eq (e.id b) id || taken ≡ false
      → is_own e uid id b ≡ false
  is_own-other uid id b taken h = ground arith

  -- What is_own reads.
  is_own-same :
      (uid id : String) (a b : A)
      → e.id b ≡ e.id a
      → e.owner b ≡ e.owner a
      → e.deleted_at b ≡ e.deleted_at a
      → is_own e uid id a ≡ true
      → is_own e uid id b ≡ true
  is_own-same uid id a b same_id same_owner same_deleted h =
      rw (same_id, same_owner, same_deleted) h

  is_own-id : (uid id : String) (a : A) → is_own e uid id a ≡ true → e.id a ≡ id
  is_own-id uid id a h = ground (arith, eq_iff (e.id a) id)

  is_own-deleted :
      (uid id : String) (now : Time) (b : A) → e.deleted_at b ≡ some now → is_own e uid id b ≡ false
  is_own-deleted uid id now b h = rw h (ground arith)

  some_own :
      (uid id : String) (t : Table A) (a : A)
      → get_own e uid id t ≡ some a
      → any (is_own e uid id) t.rows ≡ true
  some_own uid id t a h = elim (Bool-cases (any (is_own e uid id) t.rows)) [
    | inl y ↦ y
    | inr n ↦
        let (m, own) = find-eq-some (is_own e uid id) t.rows a h in
        cc (own, In-All _ a t.rows m (any-false-All _ t.rows n))
  ]

  is_own-stamp :
      (env : Env) (uid : String) (n : ℕ) (a : A)
      → owned_by uid (e.owner a) ≡ true
      → e.deleted_at a ≡ none
      → is_own e uid (e.id (e.stamp env.db_now n a)) (e.stamp env.db_now n a) ≡ true
  is_own-stamp env uid n a mine live =
      rw
        (
          e.id-stamp env.db_now n a,
          e.owner-stamp env.db_now n a,
          e.deleted_at-stamp env.db_now n a,
          mine,
          live,
        )
        (ground (arith, eq_iff (e.id a) (e.id a)))

  module _ (env : Env) (uid : String) (t : Table A) (v : IsValid e P t) where
    insert_into-found :
        (f : Option Fault) (taken : A → Bool) (constraint : String) (a : A) (out : A × Table A)
        → owned_by uid (e.owner a) ≡ true
        → e.deleted_at a ≡ none
        → insert_into e env f taken constraint a t ≡ ok out
        → get_own e uid (e.id out.0) out.1 ≡ some out.0
    unfolding insert_into
    insert_into-found (some f) taken constraint a out mine live same = cc
    insert_into-found none taken constraint a out mine live same =
        elim (Bool-cases (any (λ b. str_eq (e.id b) (e.id a) || taken b) t.rows)) [
          | inl y ↦ cc (rw y at same)
          | inr n ↦
              subst (λ (o : A × Table A). get_own e uid (e.id o.0) o.1 ≡ some o.0)
                (ok_out (rw n at same))
                (find-append_one _ t.rows (e.stamp env.db_now (nextval env t) a)
                  (map-All t.rows
                    (λ b h.
                      rw (e.id-stamp env.db_now (nextval env t) a)
                        (is_own-other uid (e.id a) b (taken b) h))
                    (any-false-All _ t.rows n))
                  (is_own-stamp env uid (nextval env t) a mine live))
        ]

    -- What an INSERT returns.
    pub insert_into-row :
        (f : Option Fault) (taken : A → Bool) (constraint : String) (a : A) (out : A × Table A)
        → insert_into e env f taken constraint a t ≡ ok out
        → e.stamp env.db_now (nextval env t) a ≡ out.0
    unfolding insert_into
    insert_into-row (some f) taken constraint a out same = cc
    insert_into-row none taken constraint a out same =
        elim (Bool-cases (any (λ b. str_eq (e.id b) (e.id a) || taken b) t.rows)) [
          | inl y ↦ cc (rw y at same)
          | inr n ↦ ap (λ (o : A × Table A). o.0) (ok_out (rw n at same))
        ]

    pub insert_into-IsSaved :
        (f : Option Fault) (taken : A → Bool) (constraint : String) (a : A) (out : A × Table A)
        → owned_by uid (e.owner a) ≡ true
        → e.deleted_at a ≡ none
        → P (e.stamp env.db_now (nextval env t) a)
        → insert_into e env f taken constraint a t ≡ ok out
        → IsSaved uid t out.0 out.1
    insert_into-IsSaved f taken constraint a out mine live good same = record {
      write = insert_into-IsWrite e P env uid t v f taken constraint a out mine good same;
      found = insert_into-found f taken constraint a out mine live same;
    }

    set_own-found :
        (id : String) (change : A → A) (a : A)
        → ((a : A) → e.id (change a) ≡ e.id a)
        → ((a : A) → e.owner (change a) ≡ e.owner a)
        → ((a : A) → e.deleted_at (change a) ≡ e.deleted_at a)
        → get_own e uid id t ≡ some a
        → get_own e uid id (set_own e env uid id change t)
          ≡ some (e.stamp env.db_now (nextval env t) (change a))
    unfolding set_own
    set_own-found id change a same_id same_owner same_deleted h = rw (some_own uid id t a h) (
        find-set_where (is_own e uid id) _ t.rows a
          (λ b own.
            is_own-same uid id b _ (e.id-stamp _ _ (change b) ∙ same_id b)
              (e.owner-stamp _ _ (change b) ∙ same_owner b)
              (e.deleted_at-stamp _ _ (change b) ∙ same_deleted b) own)
          h)

    set_own-IsSaved :
        (id : String) (change : A → A) (a : A)
        → ((a : A) → e.id (change a) ≡ e.id a)
        → ((a : A) → e.owner (change a) ≡ e.owner a)
        → ((a : A) → e.deleted_at (change a) ≡ e.deleted_at a)
        → ((a : A) → P a → P (e.stamp env.db_now (nextval env t) (change a)))
        → get_own e uid id t ≡ some a
        → IsSaved uid t
            (e.stamp env.db_now (nextval env t) (change a))
            (set_own e env uid id change t)
    set_own-IsSaved id change a same_id same_owner same_deleted good h =
        let same : e.id (e.stamp env.db_now (nextval env t) (change a)) ≡ id =
          e.id-stamp _ _ (change a)
          ∙ same_id a
          ∙ is_own-id uid id a (find-eq-some _ t.rows a h).1 in
        record {
          write = set_own-IsWrite e P env uid t v id change same_id same_owner good;
          found = rw same (set_own-found id change a same_id same_owner same_deleted h);
        }

    pub update_own-IsSaved :
        (f : Option Fault) (id : String) (taken : A → Bool) (constraint : String) (change : A → A)
        (out : A × Table A)
        → ((a : A) → e.id (change a) ≡ e.id a)
        → ((a : A) → e.owner (change a) ≡ e.owner a)
        → ((a : A) → e.deleted_at (change a) ≡ e.deleted_at a)
        → ((a : A) → P a → P (e.stamp env.db_now (nextval env t) (change a)))
        → update_own e env f uid id taken constraint change t ≡ ok out
        → IsSaved uid t out.0 out.1
    unfolding update_own
    update_own-IsSaved f id taken constraint change out same_id same_owner same_deleted good same =
        let (a, found, rest) = >>=-eq-ok (one f (get_own e uid id t)) _ same in
        let last = (require-eq-ok _ _ _ rest).1 in
        subst (λ (o : A × Table A). IsSaved uid t o.0 o.1) (ok_out last)
          (set_own-IsSaved id change a same_id same_owner same_deleted good (one-eq-ok _ _ a found))

    -- What an UPDATE returns.
    pub update_own-changed :
        (f : Option Fault) (id : String) (taken : A → Bool) (constraint : String) (change : A → A)
        (out : A × Table A)
        → update_own e env f uid id taken constraint change t ≡ ok out
        → (a : A) → get_own e uid id t ≡ some a
        → e.stamp env.db_now (nextval env t) (change a) ≡ out.0
    unfolding update_own
    update_own-changed f id taken constraint change out same b from =
        let (a, found, rest) = >>=-eq-ok (one f (get_own e uid id t)) _ same in
        let last = ap (λ (o : A × Table A). o.0) (ok_out (require-eq-ok _ _ _ rest).1) in
        ap (λ x. e.stamp env.db_now (nextval env t) (change x))
          (same_some (sym from ∙ one-eq-ok _ _ a found))
        ∙ last

    pub delete-missing :
        (id : String) → get_own e uid id (set_own e env uid id (e.mark_deleted env.db_now) t) ≡ none
    unfolding set_own
    delete-missing id = elim (Bool-cases (any (is_own e uid id) t.rows)) [
      | inl y ↦ rw y (
          find-set_where-none (is_own e uid id) _ t.rows (λ b own.
            is_own-deleted uid id env.db_now _
              (e.deleted_at-stamp _ _ _ ∙ e.deleted_at-mark_deleted env.db_now b)))
      | inr n ↦ rw n (find-none _ t.rows (any-false-All _ t.rows n))
    ]
