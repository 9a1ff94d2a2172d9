-- ===== src/Auth/Refresh/Rotation.antt =====
-- What a rotation has found and written.
use rize_backend.Base.{In, eq_iff, arith}
use rize_backend.Store.Query.{find-eq-some}
use rize_backend.Auth.Tables.Found.{IsDeviceOf, found_device}
use rize_backend.Base.{true, false}
use rize_backend.Base.{
  ◌≤◌, String, ◌≡◌, refl, ap, ◌⊎◌, inl, inr, Bool, true, false, Option, none, some, [], ◌∷◌, ◌++◌,
}
use rize_backend.Base.Action.Ensures.{
  Outcome, Ensures, give-Ensures, fail-Ensures, >>=-Ensures, pure_then, read_then, write_then,
  weaken,
}
use rize_backend.Auth.Rules.{or_missing-eq-ok, exec_then}
use rize_backend.Base.Result.{Result, ok, err}
use rize_backend.Base.{◌+◌, ◌*◌}
use rize_backend.Instant.{Time, second}
use rize_backend.Store.Query.{Fault}
use rize_backend.Auth.{
  revoke_family, get_token_nowait, commit, is_lock_not_available, AuthError, refresh_token_reuse,
  DeviceInput, Env,
}
use rize_backend.Auth.Tables
use rize_backend.Auth.Tables.{
  User, Device, RefreshToken, Tables, rotate_refresh_token, revoke_refresh_token_family,
}
use rize_backend.Auth.Tokens.{LoginResult, new_token, with_tokens}
use rize_backend.Auth.Refresh.{
  rotate, Locked, reused, refresh_locked, contended_lock, lock_attempt, refresh_body, committed,
  finish, refresh_tx,
}
use rize_backend.Auth.Refresh.Successors.{AnyError, successor-IsSuccessor}

-- The row of a token that takes the place of another.
pub record IsSuccessorOf (env : Env) (token : String) (current new : RefreshToken) : Type 0 where
  pub id : new.id ≡ env.new_token_id
  pub user_id : new.user_id ≡ current.user_id
  pub device_id : new.device_id ≡ current.device_id
  pub family_id : new.family_id ≡ current.family_id
  pub token_hash : new.token_hash ≡ env.hash_token token
  pub expires_at : new.expires_at ≡ env.now + 30 * 86400 * second
  pub live : new.revoked_at ≡ none
  pub unused : new.replaced_by ≡ none

-- What a committed rotation of the token with a hash did to the tables.
pub record IsRotation (env : Env) (hash : String) (t : Tables) (r : LoginResult) (u : Tables)
    : Type 0 where
  pub current : RefreshToken
  pub found : Tables.get_refresh_token_by_hash hash t.tokens ≡ some current
  pub stored : In current t.tokens
  pub same_hash : current.token_hash ≡ hash
  pub live : current.revoked_at ≡ none
  pub unexpired : env.now ≤ current.expires_at
  pub user : Tables.get_user_by_id current.user_id t.users ≡ some r.user
  pub device : IsDeviceOf t.devices current.user_id current.device_id
  pub users : u.users ≡ t.users
  pub tokens :
      u.tokens
      ≡ rotate_refresh_token env.db_now current.id env.new_token_id (
          t.tokens
          ++ new_token env current.user_id current.device_id current.family_id
              r.tokens.refresh_token
            ∷ [])
  pub new :
      IsSuccessorOf env r.tokens.refresh_token current
        (new_token env current.user_id current.device_id current.family_id r.tokens.refresh_token)

-- What a presented token that was revoked before leads to.
pub record IsReuse (env : Env) (hash : String) (t : Tables) (e : AuthError) (u : Tables)
    : Type 0 where
  pub current : RefreshToken
  pub found : Tables.get_refresh_token_by_hash hash t.tokens ≡ some current
  pub revoked : (at : Time) × (current.revoked_at ≡ some at)
  pub error : e ≡ refresh_token_reuse
  pub tables : u ≡ with_tokens (revoke_refresh_token_family env.db_now current.family_id) t

-- What the body of the transaction has done when it asks for the commit.
abbrev IsFinal : Env → String → Tables → Result AuthError LoginResult → Tables → Type 0
IsFinal env hash t (ok r) u = IsRotation env hash t r u
IsFinal env hash t (err e) u = IsReuse env hash t e u

module _ (env : Env) (hash : String) (t : Tables) where
  hash_of :
      (current : RefreshToken)
      → Tables.get_refresh_token_by_hash hash t.tokens ≡ some current
      → current.token_hash ≡ hash
  hash_of current found =
      let same = (find-eq-some _ t.tokens current found).1 in
      ground (arith, eq_iff current.token_hash hash)

  rotate-IsRotation :
      (current : RefreshToken) (device : Option DeviceInput)
      → Tables.get_refresh_token_by_hash hash t.tokens ≡ some current
      → current.revoked_at ≡ none
      → Ensures (λ r u. IsRotation env hash t r u) AnyError (rotate env current device) t
  unfolding rotate
  rotate-IsRotation current device found live = >>=-Ensures (
      weaken
        (λ s v made.
          read_then _
            (λ old _. write_then _ _ (
              pure_then _
                (λ access _. give-Ensures _ (record {
                  current = current;
                  found = found;
                  stored = (find-eq-some _ t.tokens current found).0;
                  same_hash = hash_of current found;
                  live = live;
                  unexpired = made.unexpired;
                  user = made.user;
                  device = found_device _ _ _ made.device.0 made.device.1;
                  users = made.users;
                  tokens =
                      ap (rotate_refresh_token env.db_now current.id env.new_token_id) made.tokens;
                  new = record {
                    id = refl;
                    user_id = refl;
                    device_id = refl;
                    family_id = refl;
                    token_hash = refl;
                    expires_at = refl;
                    live = refl;
                    unused = refl;
                  };
                }))
                (λ _ _. tt)))
            (λ _ _. tt))
        (λ _ _ _. tt) (successor-IsSuccessor env current t device))

  reused-IsFinal :
      (c : RefreshToken) (contended : Bool) (at : Time)
      → Tables.get_refresh_token_by_hash hash t.tokens ≡ some c
      → c.revoked_at ≡ some at
      → Ensures (λ f u. IsFinal env hash t f u) AnyError (reused env c contended) t
  unfolding reused
  reused-IsFinal c true at found revoked = fail-Ensures _ tt
  reused-IsFinal c false at found revoked =
      exec_then env revoke_family _ _ _ (λ _. tt)
        (give-Ensures _ (record {
          current = c;
          found = found;
          revoked = (at, revoked);
          error = refl;
          tables = refl;
        }))

  refresh_locked-IsFinal :
      (device : Option DeviceInput) (l : Locked) (at : Option Time)
      → Tables.get_refresh_token_by_hash hash t.tokens ≡ some l.current
      → l.current.revoked_at ≡ at
      → Ensures (λ f u. IsFinal env hash t f u) AnyError (refresh_locked env device l at) t
  unfolding refresh_locked
  refresh_locked-IsFinal device l none found live = >>=-Ensures (
      weaken (λ r u h. give-Ensures _ h) (λ _ _ _. tt)
        (rotate-IsRotation l.current device found live))
  refresh_locked-IsFinal device l (some at) found revoked =
      reused-IsFinal l.current l.contended at found revoked

  abbrev IsLocked : Locked → Tables → Type 0
  IsLocked l u = (Tables.get_refresh_token_by_hash hash t.tokens ≡ some l.current) × (u ≡ t)

  contended_lock-IsLocked :
      (b : Bool) → Ensures (λ l u. IsLocked l u) AnyError (contended_lock env hash b) t
  unfolding contended_lock
  contended_lock-IsLocked false = fail-Ensures _ tt
  contended_lock-IsLocked true =
      read_then _ (λ c found. give-Ensures _ (or_missing-eq-ok _ _ _ _ _ found, refl)) (λ _ _. tt)

  lock_attempt-IsLocked :
      (f : Option Fault) → Ensures (λ l u. IsLocked l u) AnyError (lock_attempt env hash f) t
  unfolding lock_attempt
  lock_attempt-IsLocked (some f) = contended_lock-IsLocked (is_lock_not_available f)
  lock_attempt-IsLocked none =
      read_then _
        (λ c found.
          pure_then _ (λ _ _. give-Ensures _ (or_missing-eq-ok none _ _ _ _ found, refl))
            (λ _ _. tt))
        (λ _ _. tt)

  refresh_body-IsFinal :
      (device : Option DeviceInput)
      → Ensures (λ f u. IsFinal env hash t f u) AnyError (refresh_body env hash device) t
  unfolding refresh_body
  refresh_body-IsFinal device =
      pure_then _
        (λ _ _.
          pure_then _
            (λ _ _. >>=-Ensures (
              weaken
                (λ l u h. rw h.1 (refresh_locked-IsFinal device l l.current.revoked_at h.0 refl))
                (λ _ _ _. tt) (lock_attempt-IsLocked (env.faults get_token_nowait))))
            (λ _ _. tt))
        (λ _ _. tt)

  -- What a caller gets, and the tables that are left.
  abbrev pub IsRefresh : Result AuthError LoginResult → Tables → Type 0
  IsRefresh (ok r) u = IsRotation env hash t r u
  IsRefresh (err e) u = (u ≡ t) ⊎ IsReuse env hash t e u

  -- An answered refresh found the presented token among the stored ones, live and unexpired, with
  -- its user and a stored, unrevoked device of that user, appended a new row, live and unused, of
  -- the same user, device and family, with the hash of the answered token and an expiry 30 days
  -- from now, and then revoked the presented token in favour of it. A refresh that returns an
  -- error leaves the tables as they were, or has found the token revoked, revoked its family and
  -- reported the reuse.
  pub refresh_tx-IsRefresh :
      (device : Option DeviceInput)
      → IsRefresh (refresh_tx env hash device t).0 (refresh_tx env hash device t).1
  unfolding refresh_tx
  refresh_tx-IsRefresh device =
      go (refresh_body env hash device t) (refresh_body-IsFinal device).outcome
    where
      commits :
          (f : Option Fault) (r : Result AuthError LoginResult) (u : Tables)
          → IsFinal env hash t r u
          → IsRefresh (committed f t r u).0 (committed f t r u).1
      commits (some f) r u h = inl refl
      commits none (ok r) u h = h
      commits none (err e) u h = inr h

      go :
          (p : Result AuthError (Result AuthError LoginResult) × Tables)
          → Outcome (λ f u. IsFinal env hash t f u) AnyError p.0 p.1
          → IsRefresh (finish env t p).0 (finish env t p).1
      go (err e, u) h = inl refl
      go (ok r, u) h = commits (env.faults commit) r u h
