-- ===== src/Auth/Refresh/AfterRevocation.antt =====
-- No token of a revoked device can be refreshed.
use rize_backend.Base.{String, ◌≡◌, sym, ap, ◌∙◌, ◌≢◌, Option, none, some, arith}
use rize_backend.Base.Result.{Result, ok, err}
use rize_backend.Store.Query.{find}
use rize_backend.Auth.{AuthError, DeviceInput, Env}
use rize_backend.Auth.Tables
use rize_backend.Auth.Tables.{Device, RefreshToken, Tables, is_device}
use rize_backend.Auth.Tokens.{LoginResult}
use rize_backend.Auth.Refresh.{refresh_tx}
use rize_backend.Auth.Refresh.Rotation.{IsRefresh, refresh_tx-IsRefresh}
use rize_backend.Auth.Devices.{revoke_device_tx}
use rize_backend.Auth.Devices.Revocation.{IsRevocation, revoke_device_tx-IsRevocation}

-- A device that is not found.
unfound_device :
    (env : Env) (hash : String) (device : Option DeviceInput) (u : Tables) (c : RefreshToken)
    → Tables.get_refresh_token_by_hash hash u.tokens ≡ some c
    → Tables.get_device_by_id c.device_id c.user_id u.devices ≡ none
    → (r : LoginResult) → (refresh_tx env hash device u).0 ≢ ok r
unfound_device env hash device u c found unfound r = go _ _ (refresh_tx-IsRefresh env hash u device)
  where
    go : (p : Result AuthError LoginResult) (v : Tables) → IsRefresh env hash u p v → p ≢ ok r
    go (ok q) v k e =
        let same : some k.current ≡ some c = sym k.found ∙ found in
        let same_row : k.current ≡ c = ground arith in
        let there : Tables.get_device_by_id c.device_id c.user_id u.devices ≡ some k.device.device =
          ap (λ (x : RefreshToken). find (is_device x.device_id x.user_id) u.devices) (sym same_row)
          ∙ k.device.found in
        cc
    go (err e') v k e = cc

-- After a device's revocation has succeeded, no refresh with a token of that device and its user
-- is answered, whatever it sends and whatever statements fail.
pub refresh_tx-revoke_device_tx :
    (env later : Env) (uid did hash : String) (device : Option DeviceInput) (t : Tables)
    (c : RefreshToken) (r : LoginResult)
    → (revoke_device_tx env uid did t).0 ≡ ok tt
    → Tables.get_refresh_token_by_hash hash (revoke_device_tx env uid did t).1.tokens ≡ some c
    → c.device_id ≡ did
    → c.user_id ≡ uid
    → (refresh_tx later hash device (revoke_device_tx env uid did t).1).0 ≢ ok r
refresh_tx-revoke_device_tx env later uid did hash device t c r done found same_device same_user =
    unfound_device later hash device _ c found
      (rw (same_device, same_user) (go _ _ (revoke_device_tx-IsRevocation env uid did t) done)) r
  where
    go :
        (p : Result AuthError (Unit {0})) (u : Tables)
        → IsRevocation env uid did t p u
        → p ≡ ok tt
        → Tables.get_device_by_id did uid u.devices ≡ none
    go (ok q) u k e = k.unfound
    go (err e') u k e = cc
