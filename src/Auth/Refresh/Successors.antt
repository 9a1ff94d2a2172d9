-- ===== src/Auth/Refresh/Successors.antt =====
-- What the new token of a rotation is made from.
use rize_backend.Base.{◌≤◌, ◌≡◌, refl, ap, Option, none, some, [], ◌∷◌, ◌++◌, arith}
use rize_backend.Base.Action.Ensures.{
  Ensures, give-Ensures, >>=-Ensures, pure_then, read_then, write_then, weaken,
}
use rize_backend.Auth.Rules.{or_missing-eq-ok, require-eq-ok, exec_then}
use rize_backend.Auth.{create_token, AuthError, DeviceInput, Env}
use rize_backend.Auth.Tables
use rize_backend.Auth.Tables.{
  User, Device, RefreshToken, Tables, rotate_refresh_token, revoke_refresh_token_family,
}
use rize_backend.Auth.Tokens.{new_token}
use rize_backend.Auth.Refresh.{Successor, refreshed_device, successor}

abbrev pub AnyError : AuthError → Tables → Type 0
AnyError e t = Unit

-- What a successor tells of the tables that it was made from, and of those that it leaves.
pub record IsSuccessor (env : Env) (current : RefreshToken) (t : Tables) (s : Successor)
    (u : Tables) : Type 0 where
  pub unexpired : env.now ≤ current.expires_at
  pub user : Tables.get_user_by_id current.user_id t.users ≡ some s.user
  pub device :
      (d : Device) × (Tables.get_device_by_id current.device_id current.user_id t.devices ≡ some d)
  pub users : u.users ≡ t.users
  pub tokens :
      u.tokens
      ≡ t.tokens
        ++ new_token env current.user_id current.device_id current.family_id s.refresh_token ∷ []

module _ (env : Env) (current : RefreshToken) (t : Tables) where
  refreshed_device_writes :
      (row : Device) (device : Option DeviceInput)
      → Ensures
          (λ d u. (u.users ≡ t.users) × (u.tokens ≡ t.tokens))
          AnyError
          (refreshed_device env current.user_id row device)
          t
  unfolding refreshed_device
  refreshed_device_writes row none = give-Ensures _ (refl, refl)
  refreshed_device_writes row (some input) =
      pure_then _
        (λ _ _. read_then _ (λ _ _. write_then _ _ (give-Ensures _ (refl, refl))) (λ _ _. tt))
        (λ _ _. tt)

  pub successor-IsSuccessor :
      (device : Option DeviceInput)
      → Ensures (λ s u. IsSuccessor env current t s u) AnyError (successor env current device) t
  unfolding successor
  successor-IsSuccessor device =
      pure_then _
        (λ _ unexpired.
          read_then _
            (λ user found_user.
              read_then _
                (λ row found_device. >>=-Ensures (
                  weaken
                    (λ d v same.
                      pure_then _
                        (λ refresh made.
                          exec_then env create_token _ _ _ (λ _. tt)
                            (give-Ensures _ (record {
                              unexpired = ground (arith, require-eq-ok _ _ _ unexpired);
                              user = or_missing-eq-ok _ _ _ _ _ found_user;
                              device = (row, or_missing-eq-ok _ _ _ _ _ found_device);
                              users = same.0;
                              tokens =
                                  ap
                                    (λ ts.
                                      ts
                                      ++ new_token env current.user_id current.device_id
                                          current.family_id refresh
                                        ∷ [])
                                    same.1;
                            })))
                        (λ _ _. tt))
                    (λ _ _ _. tt) (refreshed_device_writes row device)))
                (λ _ _. tt))
            (λ _ _. tt))
        (λ _ _. tt)
