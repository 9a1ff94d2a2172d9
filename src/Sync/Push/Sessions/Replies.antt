-- ===== src/Sync/Push/Sessions/Replies.antt =====
-- What a focus session is answered.
use rize_backend.Store.Query.{DbError, Fault, fault, no_rows, one}
use rize_backend.Base.{
  ℕ, String, ◌≡◌, refl, sym, inl, inr, Option, none, some, arith, Bool-cases, Option-cases,
}
use rize_backend.Base.{str_eq}
use rize_backend.Base.Result.{Result, ok, err}
use rize_backend.Sync.Push.{
  PushResult, invalid_focus_session, upsert_session, get_session, PushError, Env,
}
use rize_backend.Sync.Push.Tables.{
  Project, FocusSession, Tables, get_focus_session_by_id, upsert_focus_session,
}
use rize_backend.Sync.Push.Events.{failed_write, constraint_violation_result}
use rize_backend.Sync.Push.Sessions.{
  CheckedSession, parse_ended_at, parse_project_id, parse_focus_session, project_refusal,
  check_project, check_session, new_session, lost_to, upsert, store_session, apply_focus_session,
}
use rize_backend.Sync.Push.Replied.{IsReply, Replied}

abbrev this : String
this = "focus_session"

failed_write-Replied :
    (index : ℕ) (e : DbError) (id : String) (v : Option (String × String))
    → Replied index this (failed_write index e (invalid_focus_session index id) v)
failed_write-Replied index e id none = tt
failed_write-Replied index e id (some (code, message)) = (refl, refl)

ended_at-IsReply :
    (env : Env) (index : ℕ) (id : String) (s : Option String) (r : PushResult)
    → parse_ended_at env index id s ≡ err r
    → IsReply index this r
unfolding parse_ended_at
ended_at-IsReply env index id none r h = cc
ended_at-IsReply env index id (some s) r h = (ground arith, ground arith)

project_id-IsReply :
    (env : Env) (index : ℕ) (id s : String) (r : PushResult)
    → parse_project_id env index id s ≡ err r
    → IsReply index this r
unfolding parse_project_id
project_id-IsReply env index id s r h = (ground arith, ground arith)

parse-IsReply :
    (env : Env) (index : ℕ) (payload : String) (r : PushResult)
    → parse_focus_session env index payload ≡ err r
    → IsReply index this r
unfolding parse_focus_session
parse-IsReply env index payload r h = elim (Option-cases (env.unmarshal_focus_session payload)) [
  | inl e ↦ (ground arith, ground arith)
  | inr (d, e) ↦
      let ended = ended_at-IsReply env index d.id d.ended_at r in
      let project = project_id-IsReply env index d.id d.project_id r in
      (ground (arith, ended, project), ground (arith, ended, project))
]

lost_to-Replied :
    (index : ℕ) (uid id : String) (x : Result DbError FocusSession)
    → Replied index this (lost_to index uid id x)
unfolding lost_to
lost_to-Replied index uid id (err e) = tt
lost_to-Replied index uid id (ok existing) = elim (Bool-cases (str_eq existing.user_id uid)) [
  | inl e ↦ rw (lost_to, e) (refl, refl)
  | inr e ↦ rw (lost_to, e) (refl, refl)
]

project_refusal-Replied :
    (index : ℕ) (id : String) (x : Result DbError Project) (refusal : Result PushError PushResult)
    → project_refusal index id x ≡ some refusal
    → Replied index this refusal
unfolding project_refusal
project_refusal-Replied index id (ok p) refusal h = cc
project_refusal-Replied index id (err no_rows) (ok r) h = (ground arith, ground arith)
project_refusal-Replied index id (err no_rows) (err e) h = tt
project_refusal-Replied index id (err (fault f)) (ok r) h = (ground arith, ground arith)
project_refusal-Replied index id (err (fault f)) (err e) h = tt

check_project-Replied :
    (env : Env) (index : ℕ) (uid : String) (c : CheckedSession) (t : Tables) (p : Option String)
    (refusal : Result PushError PushResult)
    → check_project env index uid c t p ≡ some refusal
    → Replied index this refusal
unfolding check_project
check_project-Replied env index uid c t none refusal h = cc
check_project-Replied env index uid c t (some p) refusal h =
    project_refusal-Replied index c.raw.id _ refusal h

check_session-Replied :
    (env : Env) (index : ℕ) (uid : String) (c : CheckedSession) (t : Tables)
    (refusal : Result PushError PushResult)
    → check_session env index uid c t ≡ some refusal
    → Replied index this refusal
unfolding check_session
check_session-Replied env index uid c t (err e) h = tt
check_session-Replied env index uid c t (ok r) h =
    elim (Option-cases (check_project env index uid c t c.project_id)) [
      | inl n ↦ (ground arith, ground arith)
      | inr (refusal, e) ↦
          let same : refusal ≡ ok r = ground arith in
          check_project-Replied env index uid c t c.project_id (ok r) (rw (sym same) e)
    ]

module _ (env : Env) (index : ℕ) (uid : String) where
  upsert-Replied :
      (c : CheckedSession) (new : FocusSession) (t : Tables) (f : Option Fault)
      → Replied index this (upsert env index uid c new t f).0
  unfolding upsert
  upsert-Replied c new t (some f) =
      failed_write-Replied index (fault f) c.raw.id (constraint_violation_result env (fault f))
  upsert-Replied c new t none = elim (Option-cases (upsert_focus_session new t.sessions)) [
    | inl e ↦
        rw (upsert, e)
          (lost_to-Replied index uid c.raw.id
            (one (env.faults index get_session) (get_focus_session_by_id c.id t.sessions)))
    | inr (sessions, e) ↦ rw (upsert, e) (refl, refl)
  ]

  store_session-Replied :
      (device_id : String) (t : Tables) (r : Result PushResult CheckedSession)
      → ((refused : PushResult) → r ≡ err refused → IsReply index this refused)
      → Replied index this (store_session env index uid device_id t r).0
  unfolding store_session
  store_session-Replied device_id t (err invalid) h = h invalid refl
  store_session-Replied device_id t (ok c) h =
      elim (Option-cases (check_session env index uid c t)) [
        | inl e ↦
            rw (store_session, e)
              (upsert-Replied c (new_session env index uid device_id c) t
                (env.faults index upsert_session))
        | inr (refusal, e) ↦
            rw (store_session, e) (check_session-Replied env index uid c t refusal e)
      ]

pub apply_focus_session-Replied :
    (env : Env) (uid device_id : String) (index : ℕ) (payload : String) (t : Tables)
    → Replied index "focus_session" (apply_focus_session env uid device_id index payload t).0
unfolding apply_focus_session
apply_focus_session-Replied env uid device_id index payload t =
    store_session-Replied env index uid device_id t (parse_focus_session env index payload)
      (λ r h. parse-IsReply env index payload r h)
