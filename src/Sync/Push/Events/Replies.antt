-- ===== src/Sync/Push/Events/Replies.antt =====
-- What an activity event is answered.
use rize_backend.Store.Query.{DbError, Fault, fault}
use rize_backend.Base.{
  ℕ, String, ◌≡◌, refl, inl, inr, Option, none, some, arith, Bool-cases, Option-cases,
}
use rize_backend.Base.Result.{Result, ok, err}
use rize_backend.Sync.Push.{ActivityEventData}
use rize_backend.Sync.Push.{PushResult, invalid_activity_event, tombstone_event, insert_event, Env}
use rize_backend.Sync.Push.Tables.{
  App, ActivityEvent, Tables, insert_activity_event, tombstone_activity_event,
}
use rize_backend.Sync.Push.Apps.{resolve_app, resolve_category}
use rize_backend.Sync.Push.Events.{
  CheckedEvent, event_type, check_span, check_kind, check_activity_event,
  constraint_violation_result, failed_write, new_event, tombstone, insert, insert_categorized,
  insert_for_app, store_event, apply_activity_event,
}
use rize_backend.Sync.Push.Replied.{IsReply, Replied}

abbrev this : String
this = "activity_event"

failed_write-Replied :
    (index : ℕ) (e : DbError) (id : String) (v : Option (String × String))
    → Replied index this (failed_write index e (invalid_activity_event index id) v)
failed_write-Replied index e id none = tt
failed_write-Replied index e id (some (code, message)) = (refl, refl)

event_type-IsReply :
    (index : ℕ) (id : String) (k : Option String) (r : PushResult)
    → event_type index id k ≡ err r
    → IsReply index this r
unfolding event_type
event_type-IsReply index id none r h = cc
event_type-IsReply index id (some k) r h = (ground arith, ground arith)

span-IsReply :
    (env : Env) (index : ℕ) (d : ActivityEventData) (r : PushResult)
    → check_span env index d ≡ err r
    → IsReply index this r
unfolding check_span
span-IsReply env index d r h = (ground arith, ground arith)

kind-IsReply :
    (index : ℕ) (d : ActivityEventData) (r : PushResult)
    → check_kind index d ≡ err r
    → IsReply index this r
unfolding check_kind
kind-IsReply index d r h =
    let kind = event_type-IsReply index d.event_id d.kind r in
    (ground (arith, kind), ground (arith, kind))

check-IsReply :
    (env : Env) (index : ℕ) (payload : String) (r : PushResult)
    → check_activity_event env index payload ≡ err r
    → IsReply index this r
unfolding check_activity_event
check-IsReply env index payload r h = elim (Option-cases (env.unmarshal_activity_event payload)) [
  | inl e ↦ (ground arith, ground arith)
  | inr (d, e) ↦
      let span = span-IsReply env index d r in
      let kind = kind-IsReply index d r in (ground (arith, span, kind), ground (arith, span, kind))
]

module _ (env : Env) (index : ℕ) (uid : String) where
  tombstone-Replied :
      (c : CheckedEvent) (t : Tables) (f : Option Fault)
      → Replied index this (tombstone env index uid c t f).0
  unfolding tombstone
  tombstone-Replied c t (some f) = tt
  tombstone-Replied c t none =
      elim (Option-cases
        (tombstone_activity_event (env.server_seq index) uid c.event_id c.started_at t.events)) [
          | inl e ↦ rw (tombstone, e) (refl, refl)
          | inr (events, e) ↦ rw (tombstone, e) (refl, refl)
        ]

  insert-Replied :
      (c : CheckedEvent) (new : ActivityEvent) (t : Tables) (f : Option Fault)
      → Replied index this (insert env index uid c new t f).0
  unfolding insert
  insert-Replied c new t (some f) =
      failed_write-Replied index (fault f) c.raw.event_id
        (constraint_violation_result env (fault f))
  insert-Replied c new t none = elim (Option-cases (insert_activity_event new t.events)) [
    | inl e ↦ elim (Bool-cases c.raw.deleted) [
      | inl d ↦ rw (insert, e, d) (tombstone-Replied c t (env.faults index tombstone_event))
      | inr d ↦ rw (insert, e, d) (refl, refl)
    ]
    | inr (events, e) ↦ rw (insert, e) (refl, refl)
  ]

  categorized-Replied :
      (device_id source : String) (c : CheckedEvent) (app : App) (t : Tables)
      (r : Result DbError (Option String))
      → Replied index this (insert_categorized env index uid device_id source c app t r).0
  unfolding insert_categorized new_event
  categorized-Replied device_id source c app t (err e) = tt
  categorized-Replied device_id source c app t (ok category_id) =
      insert-Replied c (new_event env index uid device_id source c app category_id) t
        (env.faults index insert_event)

  for_app-Replied :
      (device_id source : String) (c : CheckedEvent) (t : Tables) (r : Result DbError App)
      → Replied index this (insert_for_app env index uid device_id source c t r).0
  unfolding insert_for_app
  for_app-Replied device_id source c t (err e) = tt
  for_app-Replied device_id source c t (ok app) =
      categorized-Replied device_id source c app t (resolve_category env index uid app t.settings)

  store_event-Replied :
      (device_id platform source : String) (t : Tables) (r : Result PushResult CheckedEvent)
      → ((refused : PushResult) → r ≡ err refused → IsReply index this refused)
      → Replied index this (store_event env index uid device_id platform source t r).0
  unfolding store_event
  store_event-Replied device_id platform source t (err invalid) h = h invalid refl
  store_event-Replied device_id platform source t (ok c) h =
      let found = resolve_app env index c.raw.app_bundle_id platform t.apps in
      for_app-Replied device_id source c (record t { apps = found.1 }) found.0

pub apply_activity_event-Replied :
    (env : Env) (uid device_id platform source : String) (index : ℕ) (payload : String) (t : Tables)
    → Replied index "activity_event"
        (apply_activity_event env uid device_id platform source index payload t).0
unfolding apply_activity_event
apply_activity_event-Replied env uid device_id platform source index payload t =
    store_event-Replied env index uid device_id platform source t
      (check_activity_event env index payload) (λ r h. check-IsReply env index payload r h)
