-- ===== src/Entities/Tags/Ensured.antt =====
-- What the requests of internal/tags/service.go ensure.
use rize_backend.Base.{String, ◌≡◌, refl, ◌≢◌, some}
use rize_backend.Base.Action.Ensures.{Ensures}
use rize_backend.Entities.{Env, path_id, id_or_new, required, required_or, map_constraint_violation}
use rize_backend.Entities.Rows.{Table}
use rize_backend.Entities.Rows.Written.{IsValid}
use rize_backend.Entities.Rows.Lookup.{
  found-each, IsSaved, IsGone, insert_into-IsSaved, update_own-IsSaved,
}
use rize_backend.Entities.Requests.Ensured.{
  str_eq_refl, check_then, find_then, required-eq-ok, required_or-eq-ok, current_row,
  authenticated_then, write_row-Ensures, delete_entity-Ensures,
}
use rize_backend.Entities.Tags.{
  Tag, entity, CreateRequest, UpdateRequest, new_tag, create, get, update, delete,
}

-- What the service keeps of each tag.
abbrev pub IsTag : Tag → Type 0
IsTag a = a.name ≢ ""

module _ (env : Env) (user_id uid : String) (t : Table Tag)
    (known : env.parse_uuid user_id ≡ some uid) (v : IsValid entity IsTag t) where
  pub create-Ensures :
      (req : CreateRequest)
      → Ensures (IsSaved entity IsTag uid t) (λ x u. u ≡ t) (create env user_id req) t
  unfolding create
  create-Ensures req = authenticated_then env user_id uid _ t known (
      check_then (required env req.name "name is required") (λ name named.
        check_then (id_or_new env req.id) (λ id _.
          write_row-Ensures entity _ env map_constraint_violation "tags: create" _ t (λ out h.
            insert_into-IsSaved entity IsTag env uid t v _ _ _ (new_tag env id uid name) out
              (str_eq_refl uid) refl (required-eq-ok env _ _ name named).1 h))))

  pub update-Ensures :
      (id : String) (req : UpdateRequest)
      → Ensures (IsSaved entity IsTag uid t) (λ x u. u ≡ t) (update env user_id id req) t
  unfolding update get
  update-Ensures id req = find_then (get env user_id id) (λ current h.
      check_then (required_or env current.name req.name _) (λ name named.
        authenticated_then env user_id uid _ t known (
          check_then (path_id env id) (λ rid path.
            write_row-Ensures entity _ env map_constraint_violation "tags: update" _ t (λ out same.
              let from = current_row env _ _ user_id id uid rid t current h known path in
              let kept = found-each entity IsTag uid rid t current v from in
              update_own-IsSaved entity IsTag env uid t v _ rid _ _ _ out (λ _. refl) (λ _. refl)
                (λ _. refl) (λ _ _. required_or-eq-ok env _ _ name req.name named kept) same)))))

  pub delete-Ensures :
      (id : String)
      → Ensures
          (λ done u.
            (rid : String) × (env.parse_uuid id ≡ some rid) × IsGone entity IsTag uid rid t u)
          (λ x u. u ≡ t)
          (delete env user_id id)
          t
  unfolding delete
  delete-Ensures id =
      delete_entity-Ensures entity IsTag env "tags: delete" user_id uid id t known v
        (λ _ kept. kept)
