-- ===== src/Auth/History.antt =====
-- Any sequence of the operations that write refresh tokens, with any faults. Refreshes and
-- revocations run in a transaction.
use rize_backend.Base.{String, Option, [], arith}
use rize_backend.Base.Action.Ensures.{Outcome}
use rize_backend.Base.Result.{Result, ok, err}
use rize_backend.Auth.{AuthError, DeviceInput, Env}
use rize_backend.Auth.Tables.{Tables}
use rize_backend.Auth.Tables.Live.{HasOneLive}
use rize_backend.Auth.Login.{register, login}
use rize_backend.Auth.Login.Accounts.{IsLogin, login-IsLogin, register-KeepsTokens}
use rize_backend.Auth.Tokens.{LoginResult}
use rize_backend.Auth.Refresh.{refresh_tx}
use rize_backend.Auth.Refresh.Reuse.{refresh_tx-HasOneLive}
use rize_backend.Auth.Logout.{logout}
use rize_backend.Auth.Logout.Ended.{logout-HasOneLive}
use rize_backend.Auth.Devices.{revoke_device_tx}
use rize_backend.Auth.Devices.Revocation.{revoke_device_tx-HasOneLive}

pub data Step : Tables → Tables → Type 0 where
  registers :
      (env : Env) (email password : String) (device : DeviceInput) (t : Tables)
      → Step t (register env email password device t).1
  logs_in :
      (env : Env) (email password : String) (device : DeviceInput) (t : Tables)
      → Step t (login env email password device t).1
  refreshes :
      (env : Env) (hash : String) (device : Option DeviceInput) (t : Tables)
      → Step t (refresh_tx env hash device t).1
  logs_out :
      (env : Env) (user_id refresh_token : String) (t : Tables)
      → Step t (logout env user_id refresh_token t).1
  revokes : (env : Env) (uid did : String) (t : Tables) → Step t (revoke_device_tx env uid did t).1

pub data Reach (s : Tables) : Tables → Type 0 where
  here : Reach s s
  next : {t u : Tables} → Reach s t → Step t u → Reach s u

abbrev pub empty : Tables
empty = record { users = []; devices = []; tokens = [] }

-- Whatever an action returns.
either :
    {A : Type 0} (r : Result AuthError A) (u : Tables)
    → Outcome (λ a v. HasOneLive v.tokens) (λ e v. HasOneLive v.tokens) r u
    → HasOneLive u.tokens
either (ok a) u h = h
either (err e) u h = h

Step-HasOneLive : {t u : Tables} → Step t u → HasOneLive t.tokens → HasOneLive u.tokens
Step-HasOneLive (registers env email password device t) h =
    either _ _ (register-KeepsTokens env t h email password device).outcome
Step-HasOneLive (logs_in env email password device t) h =
    go _ _ (login-IsLogin env t h email password device).outcome
  where
    go :
        (r : Result AuthError LoginResult) (u : Tables)
        → Outcome (λ a v. IsLogin env email password t a v) (λ e v. HasOneLive v.tokens) r u
        → HasOneLive u.tokens
    go (ok a) u k = k.one_live
    go (err e) u k = k
Step-HasOneLive (refreshes env hash device t) h = refresh_tx-HasOneLive env hash t h device
Step-HasOneLive (logs_out env user_id refresh_token t) h =
    either _ _ (logout-HasOneLive env user_id refresh_token t h).outcome
Step-HasOneLive (revokes env uid did t) h = revoke_device_tx-HasOneLive env uid did t h

-- After any sequence, from empty tables, of registrations, logins, refreshes and device
-- revocations in their transactions, and logouts, with any inputs and any failing statements,
-- each device of each user has at most one live refresh token.
pub Reach-HasOneLive : (t : Tables) → Reach empty t → HasOneLive t.tokens
Reach-HasOneLive t here = record { one_live = λ device uid. omega arith }
Reach-HasOneLive t (next r s) = Step-HasOneLive s (Reach-HasOneLive _ r)
