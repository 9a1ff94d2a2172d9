-- ===== src/Auth/Login/Refusal.antt =====
-- What a wrong password does to its account, and that a locked account is refused.
use rize_backend.Base.{String, ◌≡◌, refl, true, false, ◌||◌, none, some, ltb}
use rize_backend.Base.{str_eq}
use rize_backend.Base.Action.{◌>>=◌, pure, read, write, fail}
use rize_backend.Base.Result.{ok, err}
use rize_backend.Auth.{
  invalid_credentials, DeviceInput, Call, Env, valid_email, validate_device, max_password_bytes,
}
use rize_backend.Auth.Tables
use rize_backend.Auth.Tables.{User, Tables, set_where, is_user}
use rize_backend.Auth.Tokens.{with_users}
use rize_backend.Auth.Lockout.{record_failed_attempt}
use rize_backend.Auth.Login.{str_ptr, is_locked, refuse, checked, with_account, login}

-- A well-formed login for an account with a password, while no statement fails.
pub record IsAttempt (env : Env) (email password : String) (device : DeviceInput) (t : Tables)
    (account : User) (hash : String) : Type 0 where
  pub quiet : (c : Call) → env.faults c ≡ none
  pub address : String
  pub valid : valid_email env email ≡ ok address
  pub length : (str_eq password "" || ltb max_password_bytes (env.byte_length password)) ≡ false
  pub device_valid : validate_device env device ≡ ok tt
  pub found : Tables.get_user_by_email env (str_ptr address) t.users ≡ some account
  pub by_id : Tables.get_user_by_id account.id t.users ≡ some account
  pub has_password : account.password_hash ≡ some hash

module _ (env : Env) (email password : String) (device : DeviceInput) (t : Tables) (account : User)
    (hash : String) (a : IsAttempt env email password device t account hash) where
  -- While no statement fails: a well-formed login for a locked account is refused and leaves the
  -- tables as they were, whatever the password is.
  pub login_locked :
      is_locked env.now account.locked_until ≡ true
      → login env email password device t ≡ (err invalid_credentials, t)
  unfolding login with_account ◌>>=◌ pure read fail
  login_locked locked =
      rw (login, a.valid, a.length, a.device_valid, a.quiet _, a.found, a.has_password, locked) refl

  -- While no statement fails: a well-formed login with a wrong password, for an account that is
  -- not locked, is refused, and has changed only the account's counters as the lockout's
  -- statement says.
  pub login_wrong_password :
      is_locked env.now account.locked_until ≡ false
      → env.verify_password hash password ≡ some false
      → login env email password device t ≡ (
        err invalid_credentials,
        with_users (set_where (is_user account.id) (record_failed_attempt env)) t,
      )
  unfolding login with_account checked refuse ◌>>=◌ pure read write fail
  login_wrong_password unlocked wrong =
      rw
        (
          login,
          a.valid,
          a.length,
          a.device_valid,
          a.quiet _,
          a.found,
          a.has_password,
          unlocked,
          wrong,
          a.quiet _,
          a.by_id,
        )
        refl
