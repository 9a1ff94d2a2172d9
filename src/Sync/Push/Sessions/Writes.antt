-- ===== src/Sync/Push/Sessions/Writes.antt =====
-- What a focus session writes.
use rize_backend.Store.Query.{Fault}
use rize_backend.Base.{ℕ, String, ◌≡◌, refl, inl, inr, Option, none, some, Option-cases}
use rize_backend.Base.Result.{Result, ok, err}
use rize_backend.Sync.Push.{PushResult, upsert_session, Env}
use rize_backend.Sync.Push.Tables.{FocusSession, Tables, upsert_focus_session}
use rize_backend.Sync.Push.Sessions.{
  CheckedSession, parse_focus_session, check_session, new_session, upsert, store_session,
  apply_focus_session,
}
use rize_backend.Sync.Push.Writes.{AllowsWrites}

module _ (uid : String) (R : Tables → Tables → Type 0) (w : AllowsWrites uid R) (env : Env)
    (index : ℕ) where
  upsert_writes :
      (c : CheckedSession) (new : FocusSession) (t : Tables) (f : Option Fault)
      → new.user_id ≡ uid
      → R t (upsert env index uid c new t f).1
  unfolding upsert
  upsert_writes c new t (some f) h = w.nothing t
  upsert_writes c new t none h = elim (Option-cases (upsert_focus_session new t.sessions)) [
    | inl e ↦ rw (upsert, e) (w.nothing t)
    | inr (sessions, e) ↦ rw (upsert, e) (w.upserted t new sessions h e)
  ]

  store_session_writes :
      (device_id : String) (t : Tables) (r : Result PushResult CheckedSession)
      → R t (store_session env index uid device_id t r).1
  unfolding store_session new_session
  store_session_writes device_id t (err invalid) = w.nothing t
  store_session_writes device_id t (ok c) = elim (Option-cases (check_session env index uid c t)) [
    | inl e ↦
        rw (store_session, e)
          (upsert_writes c (new_session env index uid device_id c) t
            (env.faults index upsert_session) refl)
    | inr (refusal, e) ↦ rw (store_session, e) (w.nothing t)
  ]

  pub apply_focus_session_writes :
      (device_id payload : String) (t : Tables)
      → R t (apply_focus_session env uid device_id index payload t).1
  unfolding apply_focus_session
  apply_focus_session_writes device_id payload t =
      store_session_writes device_id t (parse_focus_session env index payload)
