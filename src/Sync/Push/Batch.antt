-- ===== src/Sync/Push/Batch.antt =====
-- `push` of internal/sync/service.go: a batch of items from one device.
pub mod Writes
pub mod Replies
use rize_backend.Store.Query.{fault, no_rows, one}
use rize_backend.Base.{ℕ, ◌+◌, String, not, List, [], ◌∷◌, ltb, if◌then◌else◌, length}
use rize_backend.Base.{str_eq}
use rize_backend.Base.Result.{Result, ok, err, ◌>>=◌, ◌>>◌, require, or_fail}
use rize_backend.Sync.Push.{
  PushItem, PushRequest, PushResult, invalid_unsupported_entity, get_device, PushError,
  batch_too_large, device_not_found, validation, resolve_device, Env,
}
use rize_backend.Sync.Push.Tables.{Device, Tables, get_device_by_id}
use rize_backend.Sync.Push.Events.{Applied, apply_activity_event}
use rize_backend.Sync.Push.Sessions.{apply_focus_session}

abbrev pub max_batch_items : ℕ
max_batch_items = 500

pub source_of : String → String
source_of platform =
    if str_eq platform "macos"
    then "desktop"
    else if str_eq platform "ios"
    then "mobile"
    else "manual"

pub apply_item_at : Env → String → Device → ℕ → PushItem → Tables → Applied
unfolding source_of
apply_item_at env uid device index item t =
    if str_eq item.entity_type "activity_event"
    then apply_activity_event env uid device.id device.platform (source_of device.platform) index
        item.payload t
    else if str_eq item.entity_type "focus_session"
    then apply_focus_session env uid device.id index item.payload t
    else (ok (invalid_unsupported_entity index item.entity_type), t)

abbrev pub Answer : Type 0
Answer = Result PushError (List PushResult) × Tables

-- One more result before those of the remaining items.
abbrev pub prepend : PushResult → Answer → Answer
prepend r (ok results, t) = (ok (r ∷ results), t)
prepend r (err e, t) = (err e, t)

-- What the loop returns after an item, given what it returns for the rest.
abbrev pub and_rest : Result PushError PushResult → Tables → Answer → Answer
and_rest (err e) t rest = (err e, t)
and_rest (ok result) t rest = prepend result rest

-- The loop over the items; an error ends it, and what was written stays.
pub apply_items : Env → String → Device → ℕ → List PushItem → Tables → Answer
unfolding apply_item_at
apply_items env uid device index [] t = (ok [], t)
apply_items env uid device index (item ∷ items) t =
    let (r, t') = apply_item_at env uid device index item t in
    and_rest r t' (apply_items env uid device (index + 1) items t')

-- The device of the request: its id and its row.
find_device : Env → String → String → Tables → Result PushError Device
find_device env uid device_id t = do
  id ← or_fail (env.parse_uuid device_id) device_not_found
  elim (one (env.faults 0 get_device) (get_device_by_id id uid t.devices)) [
    | ok d ↦ ok d
    | err no_rows ↦ err device_not_found
    | err (fault f) ↦ err (resolve_device (fault f))
  ]

admit_push : Env → String → PushRequest → Tables → Result PushError (String × Device)
unfolding find_device
admit_push env user_id req t = do
  require (not (ltb max_batch_items (length req.items))) batch_too_large
  uid ← or_fail (env.parse_uuid user_id) (validation "invalid authenticated user id")
  device ← find_device env uid req.device_id t
  ok (uid, device)

apply_admitted : Env → PushRequest → Tables → Result PushError (String × Device) → Answer
unfolding apply_items
apply_admitted env req t (err e) = (err e, t)
apply_admitted env req t (ok (uid, device)) = apply_items env uid device 0 req.items t

unfoldable pub push : Env → String → PushRequest → Tables → Answer
unfolding admit_push apply_admitted
push env user_id req t = apply_admitted env req t (admit_push env user_id req t)
