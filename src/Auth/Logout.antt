-- ===== src/Auth/Logout.antt =====
-- `Logout` of internal/auth/refresh_logout.go.
pub mod Ended
use rize_backend.Base.{String, not}
use rize_backend.Base.{str_eq}
use rize_backend.Base.Action.{Action, ◌>>=◌, ◌>>◌, pure, read}
use rize_backend.Base.Result.{require}
use rize_backend.Store.Query.{one}
use rize_backend.Auth.{
  AuthError, invalid_refresh_token, revoke_family, get_token, Env, or_missing, parse_id,
}
use rize_backend.Auth.Tables
use rize_backend.Auth.Tables.{Tables, revoke_refresh_token_family_for_user}
use rize_backend.Auth.Tokens.{exec, with_tokens}

pub logout : Env → String → String → Action Tables AuthError (Unit {0})
logout env user_id refresh_token = do
  pure (require (not (str_eq (env.trim refresh_token) "")) invalid_refresh_token)
  uid ← pure (parse_id env user_id)
  current ← read (λ t.
      or_missing
        (one (env.faults get_token)
          (Tables.get_refresh_token_by_hash (env.hash_token (env.trim refresh_token)) t.tokens))
        invalid_refresh_token "auth: get refresh token")
  pure (require (str_eq current.user_id uid) invalid_refresh_token)
  exec env revoke_family "auth: revoke refresh token family"
      (with_tokens (revoke_refresh_token_family_for_user env.db_now current.family_id uid))
