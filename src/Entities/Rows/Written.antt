-- ===== src/Entities/Rows/Written.antt =====
-- What the statements that write do to a table: it stays well-formed, and only rows of the caller
-- change.
use rize_backend.Base.{
  ◌≤◌, ◌<◌, String, ◌≡◌, refl, ap, ◌∙◌, ◌≢◌, inl, inr, Bool, true, false, not, ◌||◌, Option, none,
  some, List, [], ◌∷◌, ◌++◌, arith, Bool-cases, keep, any, All,
}
use mathlib.Core.Path.{subst}
use rize_backend.Base.{str_eq, eq_iff}
use rize_backend.Base.Result.{Result, ok, >>=-eq-ok, require-eq-ok}
use rize_backend.Store.Query.{Fault, DbError, one, set_where}
use rize_backend.Entities.{Env}
use rize_backend.Entities.Rows.{
  Entity, Table, nextval, owned_by, is_own, get_own, insert_into, set_own, update_own,
}
use rize_backend.Entities.Rows.Distinct.{
  append-All, set_where-All, any-false-All, keep-append_one, keep-set_where, append-IsDistinct,
  set_where-IsDistinct, fresh-IsDistinct, one-AtMostOne,
}
use rize_backend.Store.Paging.Sorting.{map-All, IsDistinct}

module _ {A : Type 0} (e : Entity A) (P : A → Type 0) where
  -- Ids and server_seqs are unique, server_seqs come from the sequence, and `P` holds of each row.
  pub record IsValid (t : Table A) : Type 0 where
    pub ids : IsDistinct e.id t.rows
    pub seqs : IsDistinct e.server_seq t.rows
    pub bounded : All (λ a. (0 < e.server_seq a) × (e.server_seq a ≤ t.last_seq)) t.rows
    pub each : All P t.rows

  -- The rows of everybody else, the system's among them.
  abbrev pub others : String → List A → List A
  others uid rows = keep (λ a. not (owned_by uid (e.owner a))) rows

  pub record IsWrite (uid : String) (t u : Table A) : Type 0 where
    pub same_others : others uid u.rows ≡ others uid t.rows
    pub valid : IsValid u
    pub forward : t.last_seq ≤ u.last_seq

  pub refl-IsWrite : (uid : String) (t : Table A) → IsValid t → IsWrite uid t t
  refl-IsWrite uid t v = record { same_others = refl; valid = v; forward = omega arith }

  module _ (env : Env) (uid : String) (t : Table A) (v : IsValid t) where
    fresh : All (λ a. e.server_seq a ≢ nextval env t) t.rows
    fresh = map-All t.rows (λ a le same. absurd (omega (arith, le))) v.bounded

    grown : All (λ a. (0 < e.server_seq a) × (e.server_seq a ≤ nextval env t)) t.rows
    grown = map-All t.rows (λ a le. (le.0, omega (arith, le))) v.bounded

    append-IsWrite :
        (a : A)
        → owned_by uid (e.owner a) ≡ true
        → P a
        → e.server_seq a ≡ nextval env t
        → All (λ b. str_eq (e.id b) (e.id a) ≡ false) t.rows
        → IsWrite uid t (record { rows = t.rows ++ a ∷ []; last_seq = nextval env t })
    append-IsWrite a mine good seq clash = record {
      same_others = keep-append_one _ t.rows a (ap not mine);
      valid = record {
        ids =
            append-IsDistinct e.id t.rows a v.ids
              (map-All t.rows (λ b n same. ground (arith, eq_iff (e.id b) (e.id a))) clash);
        seqs =
            append-IsDistinct e.server_seq t.rows a v.seqs
              (map-All t.rows (λ b n same. n (same ∙ seq)) fresh);
        bounded = append-All _ t.rows a grown (omega (arith, seq), omega (arith, seq));
        each = append-All P t.rows a v.each good;
      };
      forward = omega arith;
    }

    ok_next :
        {a : A} {u : Table A} {out : A × Table A}
        → ◌≡◌ {A = Result DbError (A × Table A)} (ok (a, u)) (ok out)
        → u ≡ out.1
    ok_next same = cc

    pub insert_into-IsWrite :
        (f : Option Fault) (taken : A → Bool) (constraint : String) (a : A) (out : A × Table A)
        → owned_by uid (e.owner a) ≡ true
        → P (e.stamp env.db_now (nextval env t) a)
        → insert_into e env f taken constraint a t ≡ ok out
        → IsWrite uid t out.1
    unfolding insert_into
    insert_into-IsWrite (some f) taken constraint a out mine good same = cc
    insert_into-IsWrite none taken constraint a out mine good same =
        elim (Bool-cases (any (λ b. str_eq (e.id b) (e.id a) || taken b) t.rows)) [
          | inl y ↦ cc (rw y at same)
          | inr n ↦ subst (IsWrite uid t) (ok_next (rw n at same)) (
              append-IsWrite (e.stamp env.db_now (nextval env t) a)
                (rw (e.owner-stamp env.db_now (nextval env t) a) mine) good
                (e.server_seq-stamp env.db_now (nextval env t) a)
                (rw (e.id-stamp env.db_now (nextval env t) a)
                  (map-All t.rows (λ b h. ground arith) (any-false-All _ t.rows n))))
        ]

    is_own-id : (id : String) (a : A) → is_own e uid id a ≡ true → e.id a ≡ id
    is_own-id id a h = ground (arith, eq_iff (e.id a) id)

    is_own-owner :
        (id : String) (a : A) → is_own e uid id a ≡ true → owned_by uid (e.owner a) ≡ true
    is_own-owner id a h = ground arith

    changed-IsWrite :
        (id : String) (f : A → A)
        → ((a : A) → e.id (f a) ≡ e.id a)
        → ((a : A) → e.owner (f a) ≡ e.owner a)
        → ((a : A) → e.server_seq (f a) ≡ nextval env t)
        → ((a : A) → P a → P (f a))
        → IsWrite uid t
            (record { rows = set_where (is_own e uid id) f t.rows; last_seq = nextval env t })
    changed-IsWrite id f same_id same_owner seq good = record {
      same_others = keep-set_where _ (is_own e uid id) f t.rows (λ a own. (
        ap not (is_own-owner id a own),
        ap (λ o. not (owned_by uid o)) (same_owner a) ∙ ap not (is_own-owner id a own),
      ));
      valid = record {
        ids = set_where-IsDistinct e.id _ f t.rows same_id v.ids;
        seqs =
            fresh-IsDistinct e.server_seq _ f (nextval env t) t.rows seq fresh
              (one-AtMostOne e.id _ id t.rows (is_own-id id) v.ids) v.seqs;
        bounded =
            set_where-All _ _ f t.rows grown
              (λ a own le. (omega (arith, seq a), omega (arith, seq a)));
        each = set_where-All P _ f t.rows v.each (λ a own h. good a h);
      };
      forward = omega arith;
    }

    pub set_own-IsWrite :
        (id : String) (change : A → A)
        → ((a : A) → e.id (change a) ≡ e.id a)
        → ((a : A) → e.owner (change a) ≡ e.owner a)
        → ((a : A) → P a → P (e.stamp env.db_now (nextval env t) (change a)))
        → IsWrite uid t (set_own e env uid id change t)
    unfolding set_own
    set_own-IsWrite id change same_id same_owner good =
        elim (Bool-cases (any (is_own e uid id) t.rows)) [
          | inl y ↦ rw y (
              changed-IsWrite id (λ a. e.stamp env.db_now (nextval env t) (change a))
                (λ a. e.id-stamp _ _ (change a) ∙ same_id a)
                (λ a. e.owner-stamp _ _ (change a) ∙ same_owner a)
                (λ a. e.server_seq-stamp _ _ (change a)) good)
          | inr n ↦ rw n (refl-IsWrite uid t v)
        ]

    -- An UPDATE that returns a row: what is changed may depend on a row that the table has.
    pub update_own-IsWrite :
        (f : Option Fault) (id : String) (taken : A → Bool) (constraint : String) (change : A → A)
        (out : A × Table A)
        → ((a : A) → e.id (change a) ≡ e.id a)
        → ((a : A) → e.owner (change a) ≡ e.owner a)
        → ((a : A) → P a → P (e.stamp env.db_now (nextval env t) (change a)))
        → update_own e env f uid id taken constraint change t ≡ ok out
        → IsWrite uid t out.1
    unfolding update_own
    update_own-IsWrite f id taken constraint change out same_id same_owner good same =
        let (a, found, rest) = >>=-eq-ok (one f (get_own e uid id t)) _ same in
        subst (IsWrite uid t) (ok_next (require-eq-ok _ _ _ rest).1)
          (set_own-IsWrite id change same_id same_owner good)

module _ {A : Type 0} (e : Entity A) where
  pub set_own-none :
      (env : Env) (uid id : String) (change : A → A) (t : Table A)
      → any (is_own e uid id) t.rows ≡ false
      → set_own e env uid id change t ≡ t
  unfolding set_own
  set_own-none env uid id change t h = rw h refl
