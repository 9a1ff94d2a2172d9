-- ===== src/Sync/Push/Events/Writes.antt =====
-- What an activity event writes.
use rize_backend.Store.Query.{DbError, Fault}
use rize_backend.Base.{ℕ, String, ◌≡◌, refl, inl, inr, Option, none, some, Bool-cases, Option-cases}
use rize_backend.Base.Result.{Result, ok, err}
use rize_backend.Sync.Push.{PushResult, tombstone_event, insert_event, Env}
use rize_backend.Sync.Push.Tables.{
  App, ActivityEvent, Tables, insert_activity_event, tombstone_activity_event,
}
use rize_backend.Sync.Push.Apps.{resolve_app, resolve_category}
use rize_backend.Sync.Push.Events.{
  CheckedEvent, check_activity_event, new_event, tombstone, insert, insert_categorized,
  insert_for_app, store_event, apply_activity_event,
}
use rize_backend.Sync.Push.Writes.{AllowsWrites}

module _ (uid : String) (R : Tables → Tables → Type 0) (w : AllowsWrites uid R) (env : Env)
    (index : ℕ) where
  tombstone_writes :
      (c : CheckedEvent) (t : Tables) (f : Option Fault) → R t (tombstone env index uid c t f).1
  unfolding tombstone
  tombstone_writes c t (some f) = w.nothing t
  tombstone_writes c t none =
      elim (Option-cases
        (tombstone_activity_event (env.server_seq index) uid c.event_id c.started_at t.events)) [
          | inl e ↦ rw (tombstone, e) (w.nothing t)
          | inr (events, e) ↦
              rw (tombstone, e)
                (w.tombstoned t (env.server_seq index) c.event_id c.started_at events e)
        ]

  insert_writes :
      (c : CheckedEvent) (new : ActivityEvent) (t : Tables) (f : Option Fault)
      → new.user_id ≡ uid
      → R t (insert env index uid c new t f).1
  unfolding insert
  insert_writes c new t (some f) h = w.nothing t
  insert_writes c new t none h = elim (Option-cases (insert_activity_event new t.events)) [
    | inl e ↦ elim (Bool-cases c.raw.deleted) [
      | inl d ↦ rw (insert, e, d) (tombstone_writes c t (env.faults index tombstone_event))
      | inr d ↦ rw (insert, e, d) (w.nothing t)
    ]
    | inr (events, e) ↦ rw (insert, e) (w.inserted t new events h e)
  ]

  categorized_writes :
      (device_id source : String) (c : CheckedEvent) (app : App) (t : Tables)
      (r : Result DbError (Option String))
      → R t (insert_categorized env index uid device_id source c app t r).1
  unfolding insert_categorized new_event
  categorized_writes device_id source c app t (err e) = w.nothing t
  categorized_writes device_id source c app t (ok category_id) =
      insert_writes c (new_event env index uid device_id source c app category_id) t
        (env.faults index insert_event) refl

  for_app_writes :
      (device_id source : String) (c : CheckedEvent) (t : Tables) (r : Result DbError App)
      → R t (insert_for_app env index uid device_id source c t r).1
  unfolding insert_for_app
  for_app_writes device_id source c t (err e) = w.nothing t
  for_app_writes device_id source c t (ok app) =
      categorized_writes device_id source c app t (resolve_category env index uid app t.settings)

  store_event_writes :
      (device_id platform source : String) (t : Tables) (r : Result PushResult CheckedEvent)
      → R t (store_event env index uid device_id platform source t r).1
  unfolding store_event
  store_event_writes device_id platform source t (err invalid) = w.nothing t
  store_event_writes device_id platform source t (ok c) =
      let found = resolve_app env index c.raw.app_bundle_id platform t.apps in
      w.both t (record t { apps = found.1 }) _ (w.app t found.1)
        (for_app_writes device_id source c (record t { apps = found.1 }) found.0)

  pub apply_activity_event_writes :
      (device_id platform source payload : String) (t : Tables)
      → R t (apply_activity_event env uid device_id platform source index payload t).1
  unfolding apply_activity_event
  apply_activity_event_writes device_id platform source payload t =
      store_event_writes device_id platform source t (check_activity_event env index payload)
