-- ===== src/Entities/FocusSessions/Checked.antt =====
-- What a focus session's checked fields satisfy.
use rize_backend.Base.{String, Bool, true, false, Option, none, some}
use rize_backend.Base.{str_eq, eq_iff, In, arith}
use rize_backend.Base.Result.{Result, ok, or_fail}
use rize_backend.Store.Query.{one, find-eq-some}
use rize_backend.Entities.{Env, EntityError, map_error, get_device, get_project}
use rize_backend.Entities.Projects.{Project}
use rize_backend.Entities.FocusSessions.{FocusSession, CreateRequest, UpdateRequest, References}
use rize_backend.Auth.Tables.Found.{IsDeviceOf, found_device}
use mathlib.Core.Path.{subst}
use rize_backend.Base.{◌⊎◌, inl, inr, Bool-cases}
use rize_backend.Entities.Rows.Found.{one-eq-ok}
use rize_backend.Entities.Requests.Ensured.{map_error-eq-ok}
use rize_backend.Base.{◌≡◌, refl, Bool, true, false}
use rize_backend.Base.Result.{>>=-eq-ok, require-eq-ok}
use rize_backend.Entities.FocusSessions.Fields.{
  Fields, valid_kind, valid_status, resolve_device, existing_project, resolve_project,
  get_project_by_id, check_kind, check_status, parse_timestamp, some_timestamp, ended_at_of,
  checked_or, cleared_or, created_fields, updated_fields,
}

abbrev pub IsKnown : String → String → Type 0
IsKnown kind status = (valid_kind kind ≡ true) × (valid_status status ≡ true)

same_ok : {a b : String} → ◌≡◌ {A = Result EntityError String} (ok a) (ok b) → a ≡ b
same_ok h = cc

same_fields : {f g : Fields} → ◌≡◌ {A = Result EntityError Fields} (ok f) (ok g) → f ≡ g
same_fields h = cc

same_option :
    {a b : Option String} → ◌≡◌ {A = Result EntityError (Option String)} (ok a) (ok b) → a ≡ b
same_option h = cc

check_kind-valid : (s k : String) → check_kind s ≡ ok k → valid_kind k ≡ true
check_kind-valid s k h =
    subst (λ x. valid_kind x ≡ true) (same_ok (require-eq-ok _ _ _ h).1) (require-eq-ok _ _ _ h).0

check_status-valid : (s k : String) → check_status s ≡ ok k → valid_status k ≡ true
check_status-valid s k h =
    subst (λ x. valid_status x ≡ true) (same_ok (require-eq-ok _ _ _ h).1) (require-eq-ok _ _ _ h).0

checked_or-valid :
    {B : Type 0} (P : String → Type 0) (check : B → Result EntityError String) (current a : String)
    (given : Option B)
    → ((b : B) (a : String) → check b ≡ ok a → P a)
    → checked_or check current given ≡ ok a
    → P current
    → P a
checked_or-valid P check current a none h same k = subst P (same_ok same) k
checked_or-valid P check current a (some b) h same k = h b a same

-- What a session refers to: a row of the devices, the caller's and not revoked, and a row of the
-- projects, the caller's, if any. `found` is the row that the lookup gives.
pub record IsProjectOf (refs : References) (uid id : String) : Type 0 where
  pub project : Project
  pub found : get_project_by_id id uid refs.projects ≡ some project
  pub stored : In project refs.projects
  pub same_id : project.id ≡ id
  pub owner : project.user_id ≡ uid

abbrev pub HasProject : References → String → Option String → Type 0
HasProject refs uid none = Unit
HasProject refs uid (some id) = IsProjectOf refs uid id

found_project :
    (refs : References) (uid id : String) (p : Project)
    → get_project_by_id id uid refs.projects ≡ some p
    → IsProjectOf refs uid id
found_project refs uid id p h =
    let (stored, own) = find-eq-some _ refs.projects p h in
    record {
      project = p;
      found = h;
      stored = stored;
      same_id = ground (arith, eq_iff p.id id);
      owner = ground (arith, eq_iff p.user_id uid);
    }

resolve_device-IsDeviceOf :
    (env : Env) (refs : References) (uid raw did : String)
    → resolve_device env refs uid raw ≡ ok did
    → IsDeviceOf refs.devices uid did
resolve_device-IsDeviceOf env refs uid raw did h =
    let (id, parsed, h1) = >>=-eq-ok (or_fail (env.parse_uuid raw) _) _ h in
    let (d, found, last) = >>=-eq-ok (map_error _ (one (env.faults get_device) _)) _ h1 in
    subst (IsDeviceOf refs.devices uid) (same_ok last)
      (found_device refs.devices uid id d (one-eq-ok _ _ d (map_error-eq-ok _ _ d found)))

resolved_project :
    (env : Env) (refs : References) (uid raw : String) (pid : Option String)
    → existing_project env refs uid raw ≡ ok pid
    → HasProject refs uid pid
resolved_project env refs uid raw pid h =
    let (id, parsed, h1) = >>=-eq-ok (or_fail (env.parse_uuid raw) _) _ h in
    let (p, found, last) = >>=-eq-ok (map_error _ (one (env.faults get_project) _)) _ h1 in
    subst (HasProject refs uid) (same_option last)
      (found_project refs uid id p (one-eq-ok _ _ p (map_error-eq-ok _ _ p found)))

resolve_project-HasProject :
    (env : Env) (refs : References) (uid raw : String) (pid : Option String)
    → resolve_project env refs uid raw ≡ ok pid
    → HasProject refs uid pid
resolve_project-HasProject env refs uid raw pid h = elim (Bool-cases (str_eq raw "")) [
  | inl y ↦ subst (HasProject refs uid) (same_option (rw y at h)) tt
  | inr n ↦ resolved_project env refs uid raw pid (rw n at h)
]

cleared_or-valid :
    {B : Type 0} (P : Option String → Type 0) (clear : Bool)
    (check : B → Result EntityError (Option String)) (current a : Option String) (given : Option B)
    → P none
    → ((b : B) (a : Option String) → check b ≡ ok a → P a)
    → cleared_or clear check current given ≡ ok a
    → P current
    → P a
cleared_or-valid P true check current a given n h same k = subst P (same_option same) n
cleared_or-valid P false check current a none n h same k = subst P (same_option same) k
cleared_or-valid P false check current a (some b) n h same k = h b a same

pub created_fields-IsKnown :
    (env : Env) (refs : References) (uid : String) (req : CreateRequest) (f : Fields)
    → created_fields env refs uid req ≡ ok f
    → IsKnown f.kind f.status
      × IsDeviceOf refs.devices uid f.device_id
      × HasProject refs uid f.project_id
created_fields-IsKnown env refs uid req f h =
    let (device, own_device, h2) = >>=-eq-ok (resolve_device env refs uid req.device_id) _ h in
    let (project, own_project, h4) = >>=-eq-ok (resolve_project env refs uid req.project_id) _ h2 in
    let (kind, known_kind, h5) = >>=-eq-ok (check_kind req.kind) _ h4 in
    let (status, known_status, h6) = >>=-eq-ok (check_status req.status) _ h5 in
    let (started, h7, h8) = >>=-eq-ok (parse_timestamp env req.started_at) _ h6 in
    let (ended, h9, last) = >>=-eq-ok (ended_at_of env req.ended_at) _ h8 in
    subst
      (λ f.
        IsKnown f.kind f.status
        × IsDeviceOf refs.devices uid f.device_id
        × HasProject refs uid f.project_id)
      (same_fields last)
      (
        (
          check_kind-valid req.kind kind known_kind,
          check_status-valid req.status status known_status,
        ),
        resolve_device-IsDeviceOf env refs uid req.device_id device own_device,
        resolve_project-HasProject env refs uid req.project_id project own_project,
      )

pub updated_fields-IsKnown :
    (env : Env) (refs : References) (uid : String) (req : UpdateRequest) (s : FocusSession)
    (f : Fields)
    → updated_fields env refs uid req s ≡ ok f
    → IsKnown s.kind s.status
    → IsKnown f.kind f.status
      × ((f.device_id ≡ s.device_id) ⊎ IsDeviceOf refs.devices uid f.device_id)
      × ((f.project_id ≡ s.project_id) ⊎ HasProject refs uid f.project_id)
updated_fields-IsKnown env refs uid req s f h k =
    let (device, own_device, h2) =
      >>=-eq-ok (checked_or (resolve_device env refs uid) s.device_id req.device_id) _ h in
    let (project, own_project, h4) =
      >>=-eq-ok
        (cleared_or req.clear_project_id (resolve_project env refs uid) s.project_id req.project_id)
        _ h2 in
    let (kind, known_kind, h5) = >>=-eq-ok (checked_or check_kind s.kind req.kind) _ h4 in
    let (status, known_status, h6) = >>=-eq-ok (checked_or check_status s.status req.status) _ h5 in
    let (started, h7, h8) =
      >>=-eq-ok (checked_or (parse_timestamp env) s.started_at req.started_at) _ h6 in
    let (ended, h9, last) =
      >>=-eq-ok (cleared_or req.clear_ended_at (some_timestamp env) s.ended_at req.ended_at) _ h8 in
    subst
      (λ f.
        IsKnown f.kind f.status
        × ((f.device_id ≡ s.device_id) ⊎ IsDeviceOf refs.devices uid f.device_id)
        × ((f.project_id ≡ s.project_id) ⊎ HasProject refs uid f.project_id))
      (same_fields last)
      (
        (
          checked_or-valid _ check_kind s.kind kind req.kind check_kind-valid known_kind k.0,
          checked_or-valid _ check_status s.status status req.status check_status-valid known_status
              k.1,
        ),
        checked_or-valid (λ d. (d ≡ s.device_id) ⊎ IsDeviceOf refs.devices uid d)
            (resolve_device env refs uid) s.device_id device req.device_id
            (λ raw d found. inr (resolve_device-IsDeviceOf env refs uid raw d found)) own_device
            (inl refl),
        cleared_or-valid (λ p. (p ≡ s.project_id) ⊎ HasProject refs uid p) req.clear_project_id
            (resolve_project env refs uid) s.project_id project req.project_id (inr tt)
            (λ raw p found. inr (resolve_project-HasProject env refs uid raw p found)) own_project
            (inl refl),
      )
