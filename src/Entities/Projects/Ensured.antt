-- ===== src/Entities/Projects/Ensured.antt =====
-- What the requests of internal/projects/service.go ensure.
use rize_backend.Base.{◌<◌, sym, arith, true, false, none, In-All, Option, Bool}
use rize_backend.Instant.{Time}
use rize_backend.Entities.Rows.{nextval, get_own}
use rize_backend.Store.Query.{find-eq-some}
use rize_backend.Entities.Requests.Ensured.{ok_same}
use rize_backend.Base.{String, ◌≡◌, refl, ◌≢◌, some}
use mathlib.Core.Path.{subst}
use rize_backend.Base.Action.Ensures.{Ensures}
use rize_backend.Base.Result.{ok}
use rize_backend.Entities.{Env, path_id, id_or_new, required, required_or, map_constraint_violation}
use rize_backend.Entities.Rows.{Table}
use rize_backend.Entities.Rows.Written.{IsValid}
use rize_backend.Entities.Rows.Lookup.{
  found-each, IsSaved, IsGone, insert_into-IsSaved, update_own-IsSaved, update_own-changed,
}
use rize_backend.Entities.Requests.Ensured.{
  str_eq_refl, check_then, find_then, required-eq-ok, required_or-eq-ok, current_row,
  authenticated_then, write_row-Ensures, delete_entity-Ensures,
}
use rize_backend.Entities.Projects.{
  Project, entity, CreateRequest, UpdateRequest, new_project, archived_at_of, create, get, update,
  delete,
}

-- What the service keeps of each project.
abbrev pub IsProject : Project → Type 0
IsProject p = (p.name ≢ "") × (p.color ≢ "")

module _ (env : Env) where
  -- A text of a PATCH request, trimmed and not blank, or the current one.
  abbrev pub Patched : Option String → String → String → Type 0
  Patched none current new = new ≡ current
  Patched (some s) current new = (new ≡ env.trim s) × (new ≢ "")

  -- Archived now, restored, or as it was.
  abbrev pub Archived : Option Bool → Option Time → Option Time → Type 0
  Archived none current new = new ≡ current
  Archived (some true) current new = new ≡ some env.now
  Archived (some false) current new = new ≡ none

  -- What a PATCH request makes of the row that it found.
  pub record IsPatch (req : UpdateRequest) (current p : Project) : Type 0 where
    pub name : Patched req.name current.name p.name
    pub color : Patched req.color current.color p.color
    pub archived_at : Archived req.archived current.archived_at p.archived_at
    pub updated_at : p.updated_at ≡ env.db_now
    pub later : current.server_seq < p.server_seq
    pub same_id : p.id ≡ current.id
    pub same_user_id : p.user_id ≡ current.user_id
    pub same_created_at : p.created_at ≡ current.created_at
    pub same_deleted_at : p.deleted_at ≡ current.deleted_at

  required_or-Patched :
      (current message new : String) (given : Option String)
      → required_or env current given message ≡ ok new
      → Patched given current new
  required_or-Patched current message new none h = sym (ok_same h)
  required_or-Patched current message new (some s) h = required-eq-ok env s message new h

  archived_at_of-Archived :
      (current : Option Time) (given : Option Bool)
      → Archived given current (archived_at_of env current given)
  archived_at_of-Archived current none = refl
  archived_at_of-Archived current (some true) = refl
  archived_at_of-Archived current (some false) = refl

module _ (env : Env) (user_id uid : String) (t : Table Project)
    (known : env.parse_uuid user_id ≡ some uid) (v : IsValid entity IsProject t) where
  pub create-Ensures :
      (req : CreateRequest)
      → Ensures (IsSaved entity IsProject uid t) (λ x u. u ≡ t) (create env user_id req) t
  unfolding create
  create-Ensures req = authenticated_then env user_id uid _ t known (
      check_then (required env req.name "name is required") (λ name named.
        check_then (required env req.color "color is required") (λ color colored.
          check_then (id_or_new env req.id) (λ id _.
            write_row-Ensures entity _ env map_constraint_violation "projects: create" _ t (λ out h.
              insert_into-IsSaved entity IsProject env uid t v _ _ _
                (new_project env id uid name color) out (str_eq_refl uid) refl
                ((required-eq-ok env _ _ name named).1, (required-eq-ok env _ _ color colored).1)
                h)))))

  below_next :
      (uid id : String) (p : Project)
      → get_own entity uid id t ≡ some p
      → p.server_seq < nextval env t
  below_next uid id p h =
      let bound = In-All _ p t.rows (find-eq-some _ t.rows p h).0 v.bounded in omega (arith, bound)

  -- From a well-formed table and a caller with a valid id: a project update that is answered
  -- found the caller's project, has stored what it answers, with the name and the color that the
  -- request gives, trimmed and not blank, and archived now or restored if the request says so,
  -- the other fields as they were but for the time of the update and a greater server_seq; it
  -- keeps every other user's rows, and leaves the table well-formed. One that is refused leaves
  -- the table as it was.
  pub update-Ensures :
      (id : String) (req : UpdateRequest)
      → Ensures
          (λ p u.
            IsSaved entity IsProject uid t p u
            × (current : Project) × (get env user_id id t ≡ ok current)
            × IsPatch env req current p)
          (λ x u. u ≡ t)
          (update env user_id id req)
          t
  unfolding update get
  update-Ensures id req = find_then (get env user_id id) (λ current h.
      check_then (required_or env current.name req.name _) (λ name named.
        check_then (required_or env current.color req.color _) (λ color colored.
          authenticated_then env user_id uid _ t known (
            check_then (path_id env id) (λ rid path.
              write_row-Ensures entity _ env map_constraint_violation "projects: update" _ t
                (λ out same.
                  let from = current_row env _ _ user_id id uid rid t current h known path in
                  let kept = found-each entity IsProject uid rid t current v from in
                  (
                    update_own-IsSaved entity IsProject env uid t v _ rid _ _ _ out (λ _. refl)
                        (λ _. refl) (λ _. refl)
                        (λ _ _. (
                          required_or-eq-ok env _ _ name req.name named kept.0,
                          required_or-eq-ok env _ _ color req.color colored kept.1,
                        ))
                        same,
                    current,
                    h,
                    subst (IsPatch env req current)
                        (update_own-changed entity IsProject env uid t v _ rid _ _ _ out same
                          current from)
                        (record {
                          name = required_or-Patched env current.name _ name req.name named;
                          color = required_or-Patched env current.color _ color req.color colored;
                          archived_at =
                              archived_at_of-Archived env current.archived_at req.archived;
                          updated_at = refl;
                          later = below_next uid rid current from;
                          same_id = refl;
                          same_user_id = refl;
                          same_created_at = refl;
                          same_deleted_at = refl;
                        }),
                  )))))))

  pub delete-Ensures :
      (id : String)
      → Ensures
          (λ done u.
            (rid : String) × (env.parse_uuid id ≡ some rid) × IsGone entity IsProject uid rid t u)
          (λ x u. u ≡ t)
          (delete env user_id id)
          t
  unfolding delete
  delete-Ensures id =
      delete_entity-Ensures entity IsProject env "projects: delete" user_id uid id t known v
        (λ _ kept. kept)
