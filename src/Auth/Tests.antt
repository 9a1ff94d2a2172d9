-- ===== src/Auth/Tests.antt =====
-- Runs of the accounts service at concrete inputs.
use rize_backend.Base.{◌+◌, ◌*◌, ◌≤◌, ◌≡◌, ◌≢◌, refl, none, some, List, [], ◌∷◌, arith}
use rize_backend.Base.{str_eq}
use rize_backend.Base.Result.{ok}
use rize_backend.Base.Action.{pure, read, write, ◌>>=◌}
use rize_backend.Base.Action.Ensures.{Ensures}
use rize_backend.Store.Query.{find}
use rize_backend.Auth.{DeviceInput, Env, valid_email, validate_device}
use rize_backend.Auth.Tables.{User, Device, RefreshToken, Tables, set_where}
use rize_backend.Auth.Tables.Live.{HasOneLive}
use rize_backend.Auth.Tokens.Issued.{KeepsOneLive}
use rize_backend.Auth.Tokens.{LoginResult}
use rize_backend.Auth.Lockout.{threshold}
use rize_backend.Auth.Lockout.Guesses.{checked_guesses, least_lock, checked_guesses-le}
use rize_backend.Auth.Login.{register, login}
use rize_backend.Auth.Login.Accounts.{IsLogin, login-IsLogin}
use rize_backend.Auth.Login.Guessed.{Guess, IsReplay, logins-IsReplay}
use rize_backend.Auth.Refresh.{refresh_tx}
use rize_backend.Auth.Refresh.Rotation.{IsRefresh, refresh_tx-IsRefresh}
use rize_backend.Auth.Refresh.Reuse.{IsTheftResponse, refresh_tx-IsTheftResponse}
use rize_backend.Auth.Refresh.AfterRevocation.{refresh_tx-revoke_device_tx}
use rize_backend.Auth.Logout.{logout}
use rize_backend.Auth.Logout.Ended.{IsEnded, logout-IsEnded}
use rize_backend.Auth.Devices.{revoke_steps, revoke_device_tx}
use rize_backend.Auth.Devices.Revocation.{IsRevocation, revoke_device_tx-IsRevocation}
use rize_backend.Auth.History.{registers, logs_in, here, next, empty, Reach-HasOneLive}

abbrev laptop : DeviceInput
laptop = record {
  id = "d1";
  platform = "macos";
  name = "Laptop";
  model = "M1";
  os_version = "14";
  app_version = "1.0";
}

abbrev env : Env
env = record {
  parse_uuid = λ s. some s;
  parse_email = λ s. some s;
  trim = λ s. s;
  byte_length = λ s. 8;
  quote = λ s. s;
  same_email = str_eq;
  hash_token = λ s. s;
  hash_password = λ s. some s;
  verify_password = λ hash password. some (str_eq hash password);
  issue_access_token = λ uid role did now. some "access";
  new_refresh_token = some "r2";
  new_family_id = some "f2";
  new_user_id = "u2";
  new_device_id = "d2";
  new_token_id = "t2";
  faults = λ c. none;
  now = 100;
  db_now = 100;
  lockout_threshold = 0;
  lockout_base_duration = 0;
  lockout_max_duration = 0;
}

abbrev account : User
account = record {
  id = "u1";
  email = some "a@example.com";
  password_hash = some "password";
  role = "user";
  display_name = none;
  timezone = none;
  deleted_at = none;
  failed_login_attempts = 0;
  lockout_count = 0;
  locked_until = none;
}

abbrev device : Device
device = record {
  id = "d1";
  user_id = "u1";
  platform = "macos";
  name = "Laptop";
  model = "M1";
  os_version = "14";
  app_version = "1.0";
  created_at = 1;
  revoked_at = none;
}

abbrev live_token : RefreshToken
live_token = record {
  id = "t1";
  user_id = "u1";
  device_id = "d1";
  token_hash = "r1";
  family_id = "f1";
  expires_at = 200;
  revoked_at = none;
  replaced_by = none;
}

abbrev used_token : RefreshToken
used_token = record live_token {
  id = "t0";
  token_hash = "r0";
  revoked_at = some 50;
  replaced_by = some "t1";
}

abbrev store : Tables
store = record {
  users = account ∷ [];
  devices = device ∷ [];
  tokens = used_token ∷ live_token ∷ [];
}

abbrev registered : Tables
registered = (register env "a@example.com" "password" laptop empty).1

abbrev logged_in : Tables
logged_in = (login env "a@example.com" "password" laptop registered).1

abbrev answer : LoginResult
answer = record {
  user = account;
  device = device;
  tokens = record { access_token = "access"; refresh_token = "r2"; access_expires_in = 900 };
}

Reach-HasOneLive_example : HasOneLive logged_in.tokens
Reach-HasOneLive_example = Reach-HasOneLive logged_in (
    next (next here (registers env "a@example.com" "password" laptop empty))
      (logs_in env "a@example.com" "password" laptop registered))

refresh_tx-IsRefresh_example :
    IsRefresh env "r1" store (refresh_tx env "r1" none store).0 (refresh_tx env "r1" none store).1
refresh_tx-IsRefresh_example = refresh_tx-IsRefresh env "r1" store none

refresh_tx-IsTheftResponse_example : IsTheftResponse used_token (refresh_tx env "r0" none store)
unfolding find
refresh_tx-IsTheftResponse_example =
    refresh_tx-IsTheftResponse env "r0" none store used_token 50 (λ c. refl) refl refl

refresh_tx-revoke_device_tx_example :
    (refresh_tx env "r0" none (revoke_device_tx env "u1" "d1" store).1).0 ≢ ok answer
unfolding find revoke_device_tx revoke_steps ◌>>=◌ pure read write set_where
refresh_tx-revoke_device_tx_example =
    refresh_tx-revoke_device_tx env env "u1" "d1" "r0" none store used_token answer refl refl refl
      refl

revoke_device_tx-IsRevocation_example :
    IsRevocation env "u1" "d1" store
      (revoke_device_tx env "u1" "d1" store).0
      (revoke_device_tx env "u1" "d1" store).1
revoke_device_tx-IsRevocation_example = revoke_device_tx-IsRevocation env "u1" "d1" store

logout-IsEnded_example :
    Ensures (λ _ u. IsEnded env "u1" "r1" store u) (λ _ u. u ≡ store) (logout env "u1" "r1") store
logout-IsEnded_example = logout-IsEnded env "u1" "r1" store

login-IsLogin_example :
    Ensures
      (λ r u. IsLogin env "a@example.com" "password" registered r u)
      KeepsOneLive
      (login env "a@example.com" "password" laptop)
      registered
login-IsLogin_example =
    login-IsLogin env registered
      (Reach-HasOneLive registered
        (next here (registers env "a@example.com" "password" laptop empty)))
      "a@example.com" "password" laptop

abbrev guesses : List Guess
guesses =
    record { time = 100; password = "guess" } ∷ record { time = 101; password = "secret" } ∷ []

logins-IsReplay_example : IsReplay env "a@example.com" laptop guesses store account "password"
unfolding find valid_email validate_device
logins-IsReplay_example =
    logins-IsReplay env "a@example.com" laptop guesses store account "password"
      (record {
        quiet = λ c. refl;
        address = "a@example.com";
        valid = refl;
        device_valid = refl;
        found = refl;
        by_id = refl;
        has_password = refl;
      })
      ((refl, refl), ((refl, refl), tt))

checked_guesses-le_example :
    100 + checked_guesses env (100 ∷ 101 ∷ 102 ∷ []) account * least_lock env
    ≤ 102 + threshold env * least_lock env
checked_guesses-le_example =
    checked_guesses-le env (omega arith) 100 102 (100 ∷ 101 ∷ 102 ∷ []) account
      (omega arith, (omega arith, (omega arith, omega arith))) refl refl
