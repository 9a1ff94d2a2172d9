-- ===== src/Entities/Categories/Ensured.antt =====
-- What the requests of internal/categories/service.go ensure.
use rize_backend.Base.{String, ◌≡◌, refl, ◌≢◌, true, Option, none, some, arith}
use mathlib.Core.Path.{subst}
use rize_backend.Base.Action.Ensures.{Ensures}
use rize_backend.Base.Result.{Result, ok, err}
use rize_backend.Entities.{Env, EntityError, path_id, required, required_or, as_validation}
use rize_backend.Entities.Rows.{Table}
use rize_backend.Entities.Rows.Written.{IsValid}
use rize_backend.Entities.Rows.Lookup.{
  found-each, IsSaved, IsGone, insert_into-IsSaved, update_own-IsSaved,
}
use rize_backend.Entities.Rows.Found.{one-eq-ok}
use rize_backend.Entities.Requests.Ensured.{
  str_eq_refl, check_then, find_then, required-eq-ok, required_or-eq-ok, map_error-eq-ok,
  authenticated_then, write_row-Ensures, delete_entity-Ensures,
}
use rize_backend.Entities.Categories.{
  Category, entity, CreateRequest, UpdateRequest, in_range, validate_productivity, productivity_of,
  new_category, create, update, delete,
}
use rize_backend.Base.Int.{ℤ}

-- What the service keeps of each category.
abbrev pub IsCategory : Category → Type 0
IsCategory c = (c.name ≢ "") × (c.color ≢ "") × (in_range c.productivity ≡ true)

validated : (p : ℤ) {done : Unit {0}} → validate_productivity p ≡ ok done → in_range p ≡ true
validated p h = ground arith

same_ok : {p q : ℤ} → ◌≡◌ {A = Result EntityError ℤ} (ok p) (ok q) → p ≡ q
same_ok h = cc

given_in_range :
    (q p : ℤ) (r : Result EntityError (Unit {0}))
    → validate_productivity q ≡ r
    → elim r [ err e ↦ err e | ok done ↦ ok q ] ≡ ok p
    → in_range p ≡ true
given_in_range q p (err e) r h = cc
given_in_range q p (ok done) r h = subst (λ n. in_range n ≡ true) (same_ok h) (validated q r)

productivity_of-in_range :
    (current p : ℤ) (given : Option ℤ)
    → productivity_of current given ≡ ok p
    → in_range current ≡ true
    → in_range p ≡ true
productivity_of-in_range current p none h k = subst (λ q. in_range q ≡ true) (same_ok h) k
productivity_of-in_range current p (some q) h k =
    given_in_range q p (validate_productivity q) refl h

module _ (env : Env) (user_id uid : String) (t : Table Category)
    (known : env.parse_uuid user_id ≡ some uid) (v : IsValid entity IsCategory t) where
  pub create-Ensures :
      (req : CreateRequest)
      → Ensures (IsSaved entity IsCategory uid t) (λ x u. u ≡ t) (create env user_id req) t
  unfolding create
  create-Ensures req = authenticated_then env user_id uid _ t known (
      check_then (required env req.name "name is required") (λ name named.
        check_then (required env req.color "color is required") (λ color colored.
          check_then (validate_productivity req.productivity) (λ done in_bounds.
            write_row-Ensures entity _ env as_validation "categories: create" _ t (λ out h.
              insert_into-IsSaved entity IsCategory env uid t v _ _ _
                (new_category env uid name color req.productivity) out (str_eq_refl uid) refl
                (
                  (required-eq-ok env _ _ name named).1,
                  (required-eq-ok env _ _ color colored).1,
                  validated req.productivity in_bounds,
                )
                h)))))

  pub update-Ensures :
      (id : String) (req : UpdateRequest)
      → Ensures (IsSaved entity IsCategory uid t) (λ x u. u ≡ t) (update env user_id id req) t
  unfolding update
  update-Ensures id req = authenticated_then env user_id uid _ t known (
      check_then (path_id env id) (λ rid path. find_then _ (λ current h.
        check_then (required_or env current.name req.name _) (λ name named.
          check_then (required_or env current.color req.color _) (λ color colored.
            check_then (productivity_of current.productivity req.productivity) (λ p in_bounds.
              write_row-Ensures entity _ env as_validation "categories: update" _ t (λ out same.
                let from = one-eq-ok _ _ current (map_error-eq-ok _ _ current h) in
                let kept = found-each entity IsCategory uid rid t current v from in
                update_own-IsSaved entity IsCategory env uid t v _ rid _ _ _ out (λ _. refl)
                  (λ _. refl) (λ _. refl)
                  (λ _ _. (
                    required_or-eq-ok env _ _ name req.name named kept.0,
                    required_or-eq-ok env _ _ color req.color colored kept.1,
                    productivity_of-in_range _ p req.productivity in_bounds kept.2,
                  ))
                  same)))))))

  pub delete-Ensures :
      (id : String)
      → Ensures
          (λ done u.
            (rid : String) × (env.parse_uuid id ≡ some rid) × IsGone entity IsCategory uid rid t u)
          (λ x u. u ≡ t)
          (delete env user_id id)
          t
  unfolding delete
  delete-Ensures id =
      delete_entity-Ensures entity IsCategory env "categories: delete" user_id uid id t known v
        (λ _ kept. kept)
