-- ===== src/Auth/Refresh/Reuse.antt =====
-- What a refresh leaves live, and what it does to a family whose token is used again.
use rize_backend.Store.Query.{find-eq-some}
use rize_backend.Base.{String, ◌≡◌, refl, ap, inl, inr, true, false, Option, none, some, In}
use rize_backend.Base.{str_eq}
use mathlib.Core.Path.{subst}
use rize_backend.Instant.{Time}
use rize_backend.Base.Result.{Result, ok, err}
use rize_backend.Base.Action.{◌>>=◌, pure, read, write, give, fail}
use rize_backend.Auth.{AuthError, refresh_token_reuse, DeviceInput, Call, Env}
use rize_backend.Auth.Tables
use rize_backend.Auth.Tables.{
  RefreshToken, Tables, Device, set_where, is_live, revoke, is_device, revoke_refresh_token_family,
}
use rize_backend.Auth.Tables.Live.{
  set_where-revoke, HasOneLive, revoked-HasOneLive, rotated-HasOneLive,
}
use rize_backend.Auth.Tokens.{LoginResult, with_tokens}
use rize_backend.Auth.Refresh.{lock_attempt, refresh_locked, reused, refresh_body, refresh_tx}
use rize_backend.Auth.Refresh.Rotation.{IsRefresh, refresh_tx-IsRefresh}

module _ (env : Env) (hash : String) (t : Tables) (h : HasOneLive t.tokens) where
  IsRefresh-HasOneLive :
      (r : Result AuthError LoginResult) (u : Tables)
      → IsRefresh env hash t r u
      → HasOneLive u.tokens
  IsRefresh-HasOneLive (ok r) u k =
      let present = (find-eq-some _ t.tokens k.current k.found).0 in
      rw k.tokens (
        rotated-HasOneLive env.db_now t.tokens h k.current _ env.new_token_id present
          (rw k.live refl) refl refl)
  IsRefresh-HasOneLive (err e) u (inl same) = rw same h
  IsRefresh-HasOneLive (err e) u (inr k) = rw k.tables (revoked-HasOneLive env.db_now t.tokens h _)

  pub refresh_tx-HasOneLive :
      (device : Option DeviceInput) → HasOneLive (refresh_tx env hash device t).1.tokens
  refresh_tx-HasOneLive device = IsRefresh-HasOneLive _ _ (refresh_tx-IsRefresh env hash t device)

abbrev NoFaults : Env → Type 0
NoFaults env = (c : Call) → env.faults c ≡ none

-- What the second use of a token does.
pub record IsTheftResponse (current : RefreshToken) (p : Result AuthError LoginResult × Tables)
    : Type 0 where
  pub refused : p.0 ≡ err refresh_token_reuse
  pub family_dead :
      (x : RefreshToken)
      → In x p.1.tokens
      → str_eq x.family_id current.family_id ≡ true
      → is_live x ≡ false

-- While no statement fails: a refresh with a token that was revoked before is refused as a reuse,
-- and leaves no token of that token's family live.
pub refresh_tx-IsTheftResponse :
    (env : Env) (hash : String) (device : Option DeviceInput) (t : Tables) (current : RefreshToken)
    (at : Time)
    → NoFaults env
    → Tables.get_refresh_token_by_hash hash t.tokens ≡ some current
    → current.revoked_at ≡ some at
    → IsTheftResponse current (refresh_tx env hash device t)
unfolding refresh_tx refresh_body lock_attempt refresh_locked reused ◌>>=◌ pure read write give fail
refresh_tx-IsTheftResponse env hash device t current at quiet found revoked =
    let result : refresh_tx env hash device t ≡ (
      err refresh_token_reuse,
      with_tokens (revoke_refresh_token_family env.db_now current.family_id) t,
    ) =
      rw (refresh_tx, quiet _, quiet _, quiet _, found, quiet _, revoked, quiet _, quiet _) refl in
    record {
      refused = ap (λ p. p.0) result;
      family_dead = λ x m f.
          set_where-revoke env.db_now (λ y. str_eq y.family_id current.family_id) (λ y. refl)
            t.tokens x
            (subst (λ (p : Result AuthError LoginResult × Tables). In x p.1.tokens) result m) f;
    }
