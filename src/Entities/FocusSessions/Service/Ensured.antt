-- ===== src/Entities/FocusSessions/Service/Ensured.antt =====
-- What the requests of internal/focussessions/service.go ensure.
use rize_backend.Auth.Tables.Found.{IsDeviceOf}
use rize_backend.Base.{String, ◌≡◌, refl, ◌⊎◌, some}
use mathlib.Core.Path.{subst}
use rize_backend.Base.Action.Ensures.{Ensures}
use rize_backend.Base.Result.{ok}
use rize_backend.Entities.{Env, path_id, id_or_new, as_validation}
use rize_backend.Entities.Rows.{Table}
use rize_backend.Entities.Rows.Written.{IsValid}
use rize_backend.Entities.Rows.Lookup.{
  found-each, IsSaved, IsGone, insert_into-IsSaved, insert_into-row, update_own-IsSaved,
  update_own-changed,
}
use rize_backend.Entities.Requests.Ensured.{
  str_eq_refl, check_then, find_then, current_row, authenticated_then, write_row-Ensures,
  delete_entity-Ensures,
}
use rize_backend.Entities.FocusSessions.{
  FocusSession, entity, CreateRequest, UpdateRequest, References,
}
use rize_backend.Entities.FocusSessions.Fields.{created_fields, updated_fields}
use rize_backend.Entities.FocusSessions.Service.{new_session, create, get, update, delete}
use rize_backend.Entities.FocusSessions.Checked.{
  IsKnown, HasProject, created_fields-IsKnown, updated_fields-IsKnown,
}

-- What the service keeps of each session.
abbrev pub IsSession : FocusSession → Type 0
IsSession s = IsKnown s.kind s.status

module _ (env : Env) (refs : References) (user_id uid : String) (t : Table FocusSession)
    (known : env.parse_uuid user_id ≡ some uid) (v : IsValid entity IsSession t) where
  -- From a well-formed table and a caller with a valid id: a focus session that is created is
  -- found under its id, and refers to a stored device of the caller that is not revoked and to no
  -- project or a stored one of the caller's; every other user's rows stay. A request that is
  -- refused leaves the table as it was.
  pub create-Ensures :
      (req : CreateRequest)
      → Ensures
          (λ s u.
            IsSaved entity IsSession uid t s u
            × IsDeviceOf refs.devices uid s.device_id
            × HasProject refs uid s.project_id)
          (λ x u. u ≡ t)
          (create env refs user_id req)
          t
  unfolding create
  create-Ensures req = authenticated_then env user_id uid _ t known (
      check_then (created_fields env refs uid req) (λ fields checked.
        check_then (id_or_new env req.id) (λ id _.
          write_row-Ensures entity _ env as_validation "focussessions: create" _ t (λ out h.
            let (kinds, own_device, own_project) =
              created_fields-IsKnown env refs uid req fields checked in
            let refers =
              subst
                (λ s. IsDeviceOf refs.devices uid s.device_id × HasProject refs uid s.project_id)
                (insert_into-row entity IsSession env uid t v _ _ _ (new_session env id uid fields)
                  out h)
                (own_device, own_project) in
            (
              insert_into-IsSaved entity IsSession env uid t v _ _ _ (new_session env id uid fields)
                  out (str_eq_refl uid) refl kinds h,
              refers.0,
              refers.1,
            )))))

  -- An update keeps what a session refers to, or makes it the caller's.
  pub record IsPatch (current s : FocusSession) : Type 0 where
    pub device : (s.device_id ≡ current.device_id) ⊎ IsDeviceOf refs.devices uid s.device_id
    pub project : (s.project_id ≡ current.project_id) ⊎ HasProject refs uid s.project_id
    pub same_id : s.id ≡ current.id

  pub update-Ensures :
      (id : String) (req : UpdateRequest)
      → Ensures
          (λ s u.
            IsSaved entity IsSession uid t s u
            × (current : FocusSession) × (get env user_id id t ≡ ok current)
            × IsPatch current s)
          (λ x u. u ≡ t)
          (update env refs user_id id req)
          t
  unfolding update get
  update-Ensures id req = authenticated_then env user_id uid _ t known (
      find_then (get env user_id id) (λ current h.
        check_then (updated_fields env refs uid req current) (λ fields checked.
          check_then (path_id env id) (λ rid path.
            write_row-Ensures entity _ env as_validation "focussessions: update" _ t (λ out same.
              let from = current_row env _ _ user_id id uid rid t current h known path in
              let kept = found-each entity IsSession uid rid t current v from in
              let (kinds, device, project) =
                updated_fields-IsKnown env refs uid req current fields checked kept in
              (
                update_own-IsSaved entity IsSession env uid t v _ rid _ _ _ out (λ _. refl)
                    (λ _. refl) (λ _. refl) (λ _ _. kinds) same,
                current,
                h,
                subst (IsPatch current)
                    (update_own-changed entity IsSession env uid t v _ rid _ _ _ out same current
                      from)
                    (record { device = device; project = project; same_id = refl }),
              ))))))

  pub delete-Ensures :
      (id : String)
      → Ensures
          (λ done u.
            (rid : String) × (env.parse_uuid id ≡ some rid) × IsGone entity IsSession uid rid t u)
          (λ x u. u ≡ t)
          (delete env user_id id)
          t
  unfolding delete
  delete-Ensures id =
      delete_entity-Ensures entity IsSession env "focussessions: delete" user_id uid id t known v
        (λ _ kept. kept)
