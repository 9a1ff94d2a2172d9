-- ===== src/Auth/Tokens/Issued.antt =====
-- What a new family of tokens does to those of its device.
use rize_backend.Base.{◌≡◌, refl, [], ◌∷◌, ◌++◌, arith}
use rize_backend.Base.{eq_iff}
use rize_backend.Base.Action.Ensures.{Ensures, give-Ensures, pure_then}
use rize_backend.Auth.{AuthError, revoke_by_device, create_token, Env}
use rize_backend.Auth.Tables.{User, Device, Tables, revoke_refresh_tokens_by_device}
use rize_backend.Auth.Tables.Live.{
  live_for, HasOneLive, live_for-append, live_for-revoke_by_device, revoked-HasOneLive,
  added-HasOneLive,
}
use rize_backend.Auth.Tokens.{LoginResult, new_token, issue_token_pair}
use rize_backend.Auth.Rules.{exec_then}

abbrev pub KeepsOneLive : AuthError → Tables → Type 0
KeepsOneLive e u = HasOneLive u.tokens

pub record IsIssued (user : User) (device : Device) (r : LoginResult) (u : Tables) : Type 0 where
  pub user_same : r.user ≡ user
  pub device_same : r.device ≡ device
  pub live : live_for r.device.id r.user.id u.tokens ≡ 1
  pub one_live : HasOneLive u.tokens

pub issue_token_pair-IsIssued :
    (env : Env) (user : User) (device : Device) (t : Tables)
    → HasOneLive t.tokens
    → Ensures (λ r u. IsIssued user device r u) KeepsOneLive (issue_token_pair env user device) t
unfolding issue_token_pair
issue_token_pair-IsIssued env user device t h =
    let left = revoke_refresh_tokens_by_device env.db_now device.id user.id t.tokens in
    let none_live = live_for-revoke_by_device env.db_now device.id user.id t.tokens in
    let kept : HasOneLive left = revoked-HasOneLive env.db_now t.tokens h _ in
    exec_then env revoke_by_device _ _ _ (λ _. h)
      (pure_then _
        (λ family _.
          pure_then _
            (λ refresh _.
              let new = new_token env user.id device.id family refresh in
              let added : HasOneLive (left ++ new ∷ []) =
                added-HasOneLive env.db_now left kept new none_live in
              exec_then env create_token _ _ _ (λ _. kept)
                (pure_then _
                  (λ access _. give-Ensures _ (record {
                    user_same = refl;
                    device_same = refl;
                    live = ground (
                      arith,
                      none_live,
                      live_for-append device.id user.id left (new ∷ []),
                      eq_iff device.id device.id,
                      eq_iff user.id user.id,
                    );
                    one_live = added;
                  }))
                  (λ _ _. added)))
            (λ _ _. kept))
        (λ _ _. kept))
