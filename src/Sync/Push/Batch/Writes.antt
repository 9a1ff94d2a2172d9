-- ===== src/Sync/Push/Batch/Writes.antt =====
-- What a batch writes.
use rize_backend.Base.{ℕ, ◌+◌, String, ◌≡◌, refl, inl, inr, some, List, [], ◌∷◌, arith, Bool-cases}
use rize_backend.Base.{str_eq}
use rize_backend.Base.Result.{Result, ok, err}
use rize_backend.Sync.Push.{PushItem, PushRequest, PushResult, PushError, Env}
use rize_backend.Sync.Push.Tables.{Device, Tables}
use rize_backend.Sync.Push.Tables.Isolation.{IsIsolated, IsIsolated-AllowsWrites}
use rize_backend.Sync.Push.Tables.Newer.{IsNewer, IsNewer-AllowsWrites}
use rize_backend.Sync.Push.Events.Writes.{apply_activity_event_writes}
use rize_backend.Sync.Push.Sessions.Writes.{apply_focus_session_writes}
use rize_backend.Sync.Push.Writes.{AllowsWrites}
use rize_backend.Sync.Push.Batch.{
  source_of, apply_item_at, Answer, prepend, and_rest, apply_items, admit_push, apply_admitted,
  push,
}

prepend_tables : (r : PushResult) (a : Answer) → (prepend r a).1 ≡ a.1
prepend_tables r (ok results, t) = refl
prepend_tables r (err e, t) = refl

module _ (uid : String) (R : Tables → Tables → Type 0) (w : AllowsWrites uid R) (env : Env)
    (device : Device) where
  apply_item_at_writes :
      (index : ℕ) (item : PushItem) (t : Tables) → R t (apply_item_at env uid device index item t).1
  unfolding apply_item_at
  apply_item_at_writes index item t = elim (Bool-cases (str_eq item.entity_type "activity_event")) [
    | inl a ↦
        rw (apply_item_at, a)
          (apply_activity_event_writes uid R w env index device.id device.platform
            (source_of device.platform) item.payload t)
    | inr a ↦ elim (Bool-cases (str_eq item.entity_type "focus_session")) [
      | inl f ↦
          rw (apply_item_at, a, f)
            (apply_focus_session_writes uid R w env index device.id item.payload t)
      | inr f ↦ rw (apply_item_at, a, f) (w.nothing t)
    ]
  ]

  apply_items_writes :
      (index : ℕ) (items : List PushItem) (t : Tables)
      → R t (apply_items env uid device index items t).1
  unfolding apply_items
  apply_items_writes index [] t = w.nothing t
  apply_items_writes index (item ∷ items) t =
      go (apply_item_at env uid device index item t) (apply_item_at_writes index item t)
        (λ u. apply_items_writes (index + 1) items u)
    where
      go :
          (x : Result PushError PushResult × Tables)
          → R t x.1
          → ((u : Tables) → R u (apply_items env uid device (index + 1) items u).1)
          → R t (and_rest x.0 x.1 (apply_items env uid device (index + 1) items x.1)).1
      go (err e, u) h rest = h
      go (ok result, u) h rest =
          w.both t u _ h
            (rw (prepend_tables result (apply_items env uid device (index + 1) items u)) (rest u))

admitted_user :
    (env : Env) (user_id uid id : String) (req : PushRequest) (t : Tables) (device : Device)
    → env.parse_uuid user_id ≡ some uid
    → admit_push env user_id req t ≡ ok (id, device)
    → id ≡ uid
unfolding admit_push
admitted_user env user_id uid id req t device p h = ground arith

module _ (env : Env) (user_id uid : String) (p : env.parse_uuid user_id ≡ some uid)
    (R : Tables → Tables → Type 0) (w : AllowsWrites uid R) where
  push_writes : (req : PushRequest) (t : Tables) → R t (push env user_id req t).1
  unfolding push apply_admitted
  push_writes req t = go (admit_push env user_id req t) refl
    where
      go :
          (r : Result PushError (String × Device))
          → admit_push env user_id req t ≡ r
          → R t (apply_admitted env req t r).1
      go (err e) h = w.nothing t
      go (ok (id, device)) h =
          rw (admitted_user env user_id uid id req t device p h)
            (apply_items_writes uid R w env device 0 req.items t)

-- Whatever a batch holds and whatever statements fail, a push by a user with a valid id leaves
-- the activity events and focus sessions of every other user as they were, and every device, app
-- setting and project.
pub push-IsIsolated :
    (env : Env) (user_id uid : String) (req : PushRequest) (t : Tables)
    → env.parse_uuid user_id ≡ some uid
    → IsIsolated uid t (push env user_id req t).1
push-IsIsolated env user_id uid req t p =
    push_writes env user_id uid p (IsIsolated uid) (IsIsolated-AllowsWrites uid) req t

-- Whatever statements fail, after a push by a user with a valid id every focus session that was
-- stored has a row with its id and owner that is unchanged or has a later `updated_at`, and every
-- activity event has a row with its idempotency key, deleted if it was deleted.
pub push-IsNewer :
    (env : Env) (user_id uid : String) (req : PushRequest) (t : Tables)
    → env.parse_uuid user_id ≡ some uid
    → IsNewer t (push env user_id req t).1
push-IsNewer env user_id uid req t p =
    push_writes env user_id uid p IsNewer (IsNewer-AllowsWrites uid) req t
