-- ===== src/Auth/Tables/Found.antt =====
-- What the query for a device finds (internal/store/storedb/devices.sql.go).
use rize_backend.Base.{
  String, ◌≡◌, refl, ◌≢◌, ◌⊎◌, inl, inr, true, false, Option, none, some, List, arith, In, eq_iff,
}
use rize_backend.Store.Query.{is_null, find-eq-some, find-eq-none}
use rize_backend.Auth.Tables.{Device, is_device, get_device_by_id}

-- A stored device of the user's, not revoked. `found` is the row that the query gives.
pub record IsDeviceOf (devices : List Device) (uid id : String) : Type 0 where
  pub device : Device
  pub found : get_device_by_id id uid devices ≡ some device
  pub stored : In device devices
  pub same_id : device.id ≡ id
  pub owner : device.user_id ≡ uid
  pub unrevoked : device.revoked_at ≡ none

is_null-eq : {A : Type 0} (x : Option A) → is_null x ≡ true → x ≡ none
is_null-eq none h = refl
is_null-eq (some a) h = cc

pub found_device :
    (devices : List Device) (uid id : String) (d : Device)
    → get_device_by_id id uid devices ≡ some d
    → IsDeviceOf devices uid id
found_device devices uid id d h =
    let (stored, own) = find-eq-some _ devices d h in
    record {
      device = d;
      found = h;
      stored = stored;
      same_id = ground (arith, eq_iff d.id id);
      owner = ground (arith, eq_iff d.user_id uid);
      unrevoked = is_null-eq d.revoked_at (ground arith);
    }

pub unfound_device-revoked :
    (devices : List Device) (uid id : String) (d : Device)
    → get_device_by_id id uid devices ≡ none
    → In d devices
    → d.id ≡ id
    → d.user_id ≡ uid
    → d.revoked_at ≢ none
unfound_device-revoked devices uid id d h m same_id same_owner unrevoked =
    let no : is_device id uid d ≡ false = find-eq-none _ devices d h m in
    let yes : is_device id uid d ≡ true =
      rw (same_id, same_owner, unrevoked) (ground (arith, eq_iff id id, eq_iff uid uid)) in
    cc

-- A row of another device, or of another user.
pub foreign_device :
    (uid id : String) (d : Device) → (d.id ≢ id) ⊎ (d.user_id ≢ uid) → is_device id uid d ≡ false
foreign_device uid id d (inl n) = ground (arith, eq_iff d.id id)
foreign_device uid id d (inr n) = ground (arith, eq_iff d.user_id uid)
