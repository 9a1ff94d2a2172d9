-- ===== src/Auth/Login/Guessed.antt =====
-- Wrong passwords for one account, one login after the other: what they do to the account is what
-- the lockout's rule says.
use rize_backend.Base.{
  ◌+◌, String, ◌≡◌, refl, sym, ap, ◌∙◌, inl, inr, Bool, true, false, not, ◌||◌, ◌&&◌, Option, none,
  some, List, [], ◌∷◌, ltb, map, arith, Bool-cases, All, if◌then◌else◌,
}
use mathlib.Core.Path.{subst}
use rize_backend.Base.{str_eq}
use rize_backend.Base.Result.{Result, ok, err}
use rize_backend.Instant.{Time}
use rize_backend.Store.Query.{find, set_where, is_null, find-eq-some}
use rize_backend.Auth.{
  AuthError, invalid_credentials, DeviceInput, Call, Env, valid_email, validate_device,
  max_password_bytes,
}
use rize_backend.Auth.Tables
use rize_backend.Auth.Tables.{User, Tables, is_user, email_is}
use rize_backend.Auth.Tokens.{LoginResult, with_users}
use rize_backend.Auth.Lockout.{record_failed_attempt, is_unlocked}
use rize_backend.Auth.Lockout.Guesses.{
  at, checked_guesses, record_failed_attempt-counted, counted-next, counted-refused, counted-none,
}
use rize_backend.Auth.Login.{str_ptr, is_locked, login}
use rize_backend.Auth.Login.Refusal.{IsAttempt, login_locked, login_wrong_password}

-- A password, and when it is tried.
pub record Guess : Type 0 where
  pub time : Time
  pub password : String

-- The rule: a failed attempt counts unless the account is locked.
abbrev pub replay : Env → List Guess → User → User
replay env [] u = u
replay env (g ∷ gs) u =
    let counted = replay env gs (record_failed_attempt (at env g.time) u) in
    let refused = replay env gs u in if is_unlocked g.time u.locked_until then counted else refused

locked-unlocked : (now : Time) (o : Option Time) → is_locked now o ≡ not (is_unlocked now o)
locked-unlocked now none = refl
locked-unlocked now (some t) = ground arith

-- A search whose test an update does not change.
find-set_where_same :
    {A : Type 0} (p q : A → Bool) (f : A → A) (xs : List A) (a : A)
    → ((b : A) → p (f b) ≡ p b)
    → q a ≡ true
    → find p xs ≡ some a
    → find p (set_where q f xs) ≡ some (f a)
unfolding find set_where
find-set_where_same p q f [] a same on h = cc
find-set_where_same p q f (x ∷ xs) a same on h = elim (Bool-cases (p x)) [
  | inl y ↦
      let found : x ≡ a = cc (rw y at h) in rw (ap q found ∙ on, same x, y) (ap some (ap f found))
  | inr n ↦
      let later = find-set_where_same p q f xs a same on (rw n at h) in
      elim (Bool-cases (q x)) [ inl k ↦ rw (k, same x, n) later | inr k ↦ rw (k, n) later ]
]

module _ (env : Env) (email : String) (device : DeviceInput) where
  -- The tables after the logins.
  abbrev pub after_logins : List Guess → Tables → Tables
  after_logins [] t = t
  after_logins (g ∷ gs) t = after_logins gs (login (at env g.time) email g.password device t).1

  -- What the logins returned.
  abbrev pub replies : List Guess → Tables → List (Result AuthError LoginResult)
  replies [] t = []
  replies (g ∷ gs) t =
      (login (at env g.time) email g.password device t).0
      ∷ replies gs (login (at env g.time) email g.password device t).1

  -- A well-formed request for an account with a password, while no statement fails.
  pub record IsTarget (t : Tables) (u : User) (hash : String) : Type 0 where
    pub quiet : (c : Call) → env.faults c ≡ none
    pub address : String
    pub valid : valid_email env email ≡ ok address
    pub device_valid : validate_device env device ≡ ok tt
    pub found : Tables.get_user_by_email env (str_ptr address) t.users ≡ some u
    pub by_id : Tables.get_user_by_id u.id t.users ≡ some u
    pub has_password : u.password_hash ≡ some hash

  abbrev pub IsWrong : String → Guess → Type 0
  IsWrong hash g =
      ((str_eq g.password "" || ltb max_password_bytes (env.byte_length g.password)) ≡ false)
      × (env.verify_password hash g.password ≡ some false)

  attempt :
      (g : Guess) (t : Tables) (u : User) (hash : String)
      → IsTarget t u hash
      → IsWrong hash g
      → IsAttempt (at env g.time) email g.password device t u hash
  unfolding valid_email validate_device
  attempt g t u hash h w = record {
    quiet = h.quiet;
    address = h.address;
    valid = h.valid;
    length = w.0;
    device_valid = h.device_valid;
    found = h.found;
    by_id = h.by_id;
    has_password = h.has_password;
  }

  -- The account after a failed attempt is still the target.
  still :
      (g : Guess) (t : Tables) (u : User) (hash : String)
      → IsTarget t u hash
      → IsTarget
          (with_users (set_where (is_user u.id) (record_failed_attempt (at env g.time))) t)
          (record_failed_attempt (at env g.time) u)
          hash
  still g t u hash h =
      let (count, lock, changed) = record_failed_attempt-counted (at env g.time) u in
      let on = (find-eq-some (is_user u.id) t.users u h.by_id).1 in
      record {
        quiet = h.quiet;
        address = h.address;
        valid = h.valid;
        device_valid = h.device_valid;
        found =
            find-set_where_same _ (is_user u.id) _ t.users u
              (λ b.
                ap (λ (v : User). email_is env v.email (str_ptr h.address) && is_null v.deleted_at)
                  (record_failed_attempt-counted (at env g.time) b).2)
              on h.found;
        by_id =
            subst
              (λ id.
                Tables.get_user_by_id id
                  (set_where (is_user u.id) (record_failed_attempt (at env g.time)) t.users)
                ≡ some (record_failed_attempt (at env g.time) u))
              (sym (ap (λ v. v.id) changed))
              (find-set_where_same (is_user u.id) (is_user u.id)
                (record_failed_attempt (at env g.time)) t.users u
                (λ b. ap (is_user u.id) (record_failed_attempt-counted (at env g.time) b).2) on
                h.by_id);
        has_password = ap (λ v. v.password_hash) changed ∙ h.has_password;
      }

  pub record IsReplay (gs : List Guess) (t : Tables) (u : User) (hash : String) : Type 0 where
    pub refused : All (λ r. r ≡ err invalid_credentials) (replies gs t)
    pub account : IsTarget (after_logins gs t) (replay env gs u) hash
    pub same_devices : (after_logins gs t).devices ≡ t.devices
    pub same_tokens : (after_logins gs t).tokens ≡ t.tokens
    pub counted :
        (replay env gs u).failed_login_attempts
        ≡ u.failed_login_attempts + checked_guesses env (map (λ g. g.time) gs) u

  first_then :
      (g : Guess) (gs : List Guess) (t next : Tables) (u v : User) (hash : String)
      → login (at env g.time) email g.password device t ≡ (err invalid_credentials, next)
      → replay env (g ∷ gs) u ≡ replay env gs v
      → v.failed_login_attempts + checked_guesses env (map (λ g. g.time) gs) v
        ≡ u.failed_login_attempts + checked_guesses env (map (λ g. g.time) (g ∷ gs)) u
      → next.devices ≡ t.devices
      → next.tokens ≡ t.tokens
      → IsReplay gs next v hash
      → IsReplay (g ∷ gs) t u hash
  first_then g gs t next u v hash once same_account same_count same_devices same_tokens rest =
      let left : after_logins gs next ≡ after_logins (g ∷ gs) t =
        sym (ap (λ r. after_logins gs r.1) once) in
      record {
        refused = (
          ap (λ r. r.0) once,
          subst (λ s. All (λ r. r ≡ err invalid_credentials) (replies gs s))
              (sym (ap (λ r. r.1) once)) rest.refused,
        );
        account =
            subst (λ s. IsTarget s (replay env (g ∷ gs) u) hash) left
              (subst (λ v. IsTarget (after_logins gs next) v hash) (sym same_account) rest.account);
        same_devices = ap (λ s. s.devices) (sym left) ∙ rest.same_devices ∙ same_devices;
        same_tokens = ap (λ s. s.tokens) (sym left) ∙ rest.same_tokens ∙ same_tokens;
        counted = ap (λ v. v.failed_login_attempts) same_account ∙ rest.counted ∙ same_count;
      }

  -- While no statement fails: a sequence of well-formed logins with wrong passwords for one
  -- account, at any times, is refused throughout, keeps all devices and tokens, and leaves the
  -- account as the lockout's rule makes it, which counts an attempt only while the account is not
  -- locked. Its failed attempts have grown by the number of passwords that were checked.
  pub logins-IsReplay :
      (gs : List Guess) (t : Tables) (u : User) (hash : String)
      → IsTarget t u hash
      → All (IsWrong hash) gs
      → IsReplay gs t u hash
  logins-IsReplay [] t u hash h w = record {
    refused = tt;
    account = h;
    same_devices = refl;
    same_tokens = refl;
    counted = omega (arith, counted-none env u);
  }
  logins-IsReplay (g ∷ gs) t u hash h w = elim (Bool-cases (is_unlocked g.time u.locked_until)) [
    | inl y ↦
        let once =
          login_wrong_password (at env g.time) email g.password device t u hash
            (attempt g t u hash h w.0) (locked-unlocked g.time u.locked_until ∙ ap not y) w.0.1 in
        let rest = logins-IsReplay gs _ _ hash (still g t u hash h) w.1 in
        let (count, lock, changed) = record_failed_attempt-counted (at env g.time) u in
        first_then g gs t _ u (record_failed_attempt (at env g.time) u) hash once (rw y refl)
          (omega (
            arith,
            ap (λ v. v.failed_login_attempts) changed,
            counted-next env g.time (map (λ g. g.time) gs) u y,
          ))
          refl refl rest
    | inr n ↦
        let once =
          login_locked (at env g.time) email g.password device t u hash (attempt g t u hash h w.0)
            (locked-unlocked g.time u.locked_until ∙ ap not n) in
        let rest = logins-IsReplay gs t u hash h w.1 in
        first_then g gs t t u u hash once (rw n refl)
          (omega (arith, counted-refused env g.time (map (λ g. g.time) gs) u n)) refl refl rest
  ]
