-- ===== src/Auth/Rules.antt =====
-- The rules for the statements of the service, and what their results tell.
use rize_backend.Base.{String, ◌≡◌, refl, Bool, true, false, Option, none, some, arith}
use rize_backend.Base.Action.{Action, ◌>>=◌}
use rize_backend.Base.Action.Ensures.{Ensures, pure-Ensures, write-Ensures, >>=-Ensures}
use rize_backend.Base.Result.{ok, require}
use rize_backend.Store.Query.{Fault, one}
use rize_backend.Auth.{AuthError, Call, Env, or_missing}
use rize_backend.Auth.Tables.{Tables}
use rize_backend.Auth.Tokens.{exec}

pub or_missing-eq-ok :
    {A : Type 0} (f : Option Fault) (found : Option A) (missing : AuthError) (what : String) (a : A)
    → or_missing (one f found) missing what ≡ ok a
    → found ≡ some a
or_missing-eq-ok (some f) found missing what a h = cc
or_missing-eq-ok none none missing what a h = cc
or_missing-eq-ok none (some b) missing what a h = ground arith

pub require-eq-ok : (b : Bool) (e : AuthError) (u : Unit {0}) → require b e ≡ ok u → b ≡ true
require-eq-ok true e u h = refl
require-eq-ok false e u h = cc

module _ {B : Type 0} {Q : B → Tables → Type 0} {X : AuthError → Tables → Type 0} {t : Tables} where
  pub exec_then :
      (env : Env) (call : Call) (what : String) (change : Tables → Tables)
      (k : Unit {0} → Action Tables AuthError B)
      → ((e : AuthError) → X e t)
      → Ensures Q X (k tt) (change t)
      → Ensures Q X (exec env call what change >>= k) t
  exec_then env call what change k x h =
      >>=-Ensures (>>=-Ensures (pure-Ensures _ (λ u e. write-Ensures change h) (λ e same. x e)))

module _ {Q : Unit {0} → Tables → Type 0} {X : AuthError → Tables → Type 0} {t : Tables} where
  pub exec-Ensures :
      (env : Env) (call : Call) (what : String) (change : Tables → Tables)
      → ((e : AuthError) → X e t)
      → Q tt (change t)
      → Ensures Q X (exec env call what change) t
  exec-Ensures env call what change x h =
      >>=-Ensures (pure-Ensures _ (λ u e. write-Ensures change h) (λ e same. x e))
