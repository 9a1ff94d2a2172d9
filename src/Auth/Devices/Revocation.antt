-- ===== src/Auth/Devices/Revocation.antt =====
-- What revoking a device leaves.
use rize_backend.Base.{
  ◌≢◌, ◌⊎◌, eq_iff, String, ◌≡◌, refl, inl, inr, false, Option, none, some, List, [], ◌∷◌, arith,
  In,
}
use rize_backend.Base.Action.Ensures.{Outcome, Ensures, pure_then, read_then}
use rize_backend.Base.Result.{Result, ok, err}
use rize_backend.Store.Query.{Fault, find, In-set_where}
use rize_backend.Auth.Tables.Found.{
  IsDeviceOf, found_device, unfound_device-revoked, foreign_device,
}
use rize_backend.Auth.{AuthError, revoke_device, revoke_by_device, commit, Env}
use rize_backend.Auth.Tables
use rize_backend.Auth.Tables.{
  Device, RefreshToken, Tables, set_where, is_device, revoke_refresh_tokens_by_device,
}
use rize_backend.Auth.Tables.Live.{
  is_live_for, live_for, HasOneLive, live_for-revoke_by_device, revoked-HasOneLive,
}
use rize_backend.Auth.Rules.{or_missing-eq-ok, exec_then, exec-Ensures}
use rize_backend.Auth.Devices.{
  revoked, revoke_steps, committed_revoke, finish_revoke, revoke_device_tx,
}

-- A device that no query finds, and that has no live token; nothing else has changed.
pub record IsRevoked (env : Env) (uid did : String) (t u : Tables) : Type 0 where
  pub owned : IsDeviceOf t.devices uid did
  pub unfound : Tables.get_device_by_id did uid u.devices ≡ none
  pub gone : (d : Device) → In d u.devices → d.id ≡ did → d.user_id ≡ uid → d.revoked_at ≢ none
  pub no_live : live_for did uid u.tokens ≡ 0
  pub users : u.users ≡ t.users
  pub others : (d : Device) → In d t.devices → is_device did uid d ≡ false → In d u.devices
  pub foreign : (d : Device) → In d t.devices → (d.id ≢ did) ⊎ (d.user_id ≢ uid) → In d u.devices
  pub foreign_tokens :
      (x : RefreshToken) → In x t.tokens → (x.device_id ≢ did) ⊎ (x.user_id ≢ uid) → In x u.tokens
  pub tokens : u.tokens ≡ revoke_refresh_tokens_by_device env.db_now did uid t.tokens

find_revoked :
    (env : Env) (did uid : String) (devices : List Device)
    → find (is_device did uid) (set_where (is_device did uid) (revoked env) devices) ≡ none
unfolding find set_where
find_revoked env did uid [] = refl
find_revoked env did uid (d ∷ devices) = ground (arith, find_revoked env did uid devices)

-- A token of another device, or of another user.
foreign_token :
    (uid did : String) (x : RefreshToken)
    → (x.device_id ≢ did) ⊎ (x.user_id ≢ uid)
    → is_live_for did uid x ≡ false
foreign_token uid did x (inl n) = ground (arith, eq_iff x.device_id did)
foreign_token uid did x (inr n) = ground (arith, eq_iff x.user_id uid)

module _ (env : Env) (uid did : String) (t : Tables) where
  abbrev AnyError : AuthError → Tables → Type 0
  AnyError e u = Unit

  revoke_steps-IsRevoked :
      Ensures (λ _ u. IsRevoked env uid did t u) AnyError (revoke_steps env uid did) t
  unfolding revoke_steps
  revoke_steps-IsRevoked =
      read_then _
        (λ d found.
          exec_then env revoke_device _ _ _ (λ _. tt)
            (exec-Ensures env revoke_by_device _ _ (λ _. tt)
              (record {
                owned = found_device _ uid did d (or_missing-eq-ok _ _ _ _ _ found);
                unfound = find_revoked env did uid t.devices;
                gone = λ x m.
                    unfound_device-revoked _ uid did x (find_revoked env did uid t.devices) m;
                no_live = live_for-revoke_by_device env.db_now did uid t.tokens;
                users = refl;
                others = λ x m n. In-set_where _ _ t.devices x m n;
                foreign = λ x m n. In-set_where _ _ t.devices x m (foreign_device uid did x n);
                foreign_tokens = λ x m n. In-set_where _ _ t.tokens x m (foreign_token uid did x n);
                tokens = refl;
              })))
        (λ _ _. tt)

  -- Every outcome of the transaction.
  abbrev pub IsRevocation : Result AuthError (Unit {0}) → Tables → Type 0
  IsRevocation (ok r) u = IsRevoked env uid did t u
  IsRevocation (err e) u = u ≡ t

  -- A device revocation that succeeds found the user's stored and unrevoked device, leaves no
  -- unrevoked device of that id and user and no live token of it, and keeps all users, every
  -- other device, and every token of another device or another user. One that returns an error
  -- leaves the tables as they were.
  pub revoke_device_tx-IsRevocation :
      IsRevocation (revoke_device_tx env uid did t).0 (revoke_device_tx env uid did t).1
  unfolding revoke_device_tx
  revoke_device_tx-IsRevocation =
      go _ (pure_then _ (λ _ _. revoke_steps-IsRevoked) (λ _ _. tt)).outcome
    where
      commits :
          (f : Option Fault) (u : Tables)
          → IsRevoked env uid did t u
          → IsRevocation (committed_revoke f t u).0 (committed_revoke f t u).1
      commits none u h = h
      commits (some f) u h = refl

      go :
          (p : Result AuthError (Unit {0}) × Tables)
          → Outcome (λ _ u. IsRevoked env uid did t u) AnyError p.0 p.1
          → IsRevocation (finish_revoke env t p).0 (finish_revoke env t p).1
      go (ok r, u) h = commits (env.faults commit) u h
      go (err e, u) h = refl

  pub revoke_device_tx-HasOneLive :
      HasOneLive t.tokens → HasOneLive (revoke_device_tx env uid did t).1.tokens
  revoke_device_tx-HasOneLive h =
      go (revoke_device_tx env uid did t).0 (revoke_device_tx env uid did t).1
        revoke_device_tx-IsRevocation
    where
      go : (r : Result AuthError (Unit {0})) (u : Tables) → IsRevocation r u → HasOneLive u.tokens
      go (ok r) u k = rw k.tokens (revoked-HasOneLive env.db_now t.tokens h _)
      go (err e) u k = rw k h
