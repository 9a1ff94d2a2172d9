-- ===== src/Auth/Login/Accounts.antt =====
-- What a login and a registration have found and written.
use rize_backend.Base.{String, ◌≡◌, refl, ap, ◌∙◌, Bool, true, false, Option, none, some}
use rize_backend.Base.Action.Ensures.{
  Ensures, give-Ensures, fail-Ensures, >>=-Ensures, pure_then, read_then, write_then, weaken,
}
use rize_backend.Base.Result.{ok}
use rize_backend.Auth.{DeviceInput, reset_lockout, Env, valid_email, create_device}
use rize_backend.Auth.Tables
use rize_backend.Auth.Tables.{User, Device, Tables}
use rize_backend.Auth.Tables.Live.{live_for, HasOneLive}
use rize_backend.Auth.Tokens.{LoginResult}
use rize_backend.Auth.Tokens.Issued.{KeepsOneLive, issue_token_pair-IsIssued}
use rize_backend.Auth.Rules.{or_missing-eq-ok, exec_then}
use rize_backend.Auth.Login.{
  str_ptr, add_device, device_or_new, resolve_device, refuse, clear_lockout, accept, checked,
  is_locked, if_locked, with_account, login, register,
}

-- The steps that leave the tokens alone, in tables with at most one live token for each device.
module _ (env : Env) (t : Tables) (h : HasOneLive t.tokens) where
  abbrev KeepsTokens : {A : Type 0} → A → Tables → Type 0
  KeepsTokens a u = HasOneLive u.tokens

  add_device-KeepsTokens :
      (uid : String) (input : DeviceInput)
      → Ensures KeepsTokens KeepsOneLive (add_device env uid input) t
  unfolding add_device
  add_device-KeepsTokens uid input = exec_then env create_device _ _ _ (λ _. h) (give-Ensures _ h)

  device_or_new-KeepsTokens :
      (uid : String) (input : DeviceInput) (known : Option Device)
      → Ensures KeepsTokens KeepsOneLive (device_or_new env uid input known) t
  unfolding device_or_new
  device_or_new-KeepsTokens uid input none = add_device-KeepsTokens uid input
  device_or_new-KeepsTokens uid input (some d) = write_then _ _ (give-Ensures _ h)

  resolve_device-KeepsTokens :
      (uid : String) (input : DeviceInput)
      → Ensures KeepsTokens KeepsOneLive (resolve_device env uid input) t
  unfolding resolve_device
  resolve_device-KeepsTokens uid input =
      read_then _ (λ known _. device_or_new-KeepsTokens uid input known) (λ _ _. h)

  -- The account's id, through the reset of its counters.
  clear_lockout-KeepsTokens :
      (user : User) (b : Bool)
      → Ensures
          (λ a u. (a.id ≡ user.id) × HasOneLive u.tokens)
          KeepsOneLive
          (clear_lockout env user b)
          t
  unfolding clear_lockout
  clear_lockout-KeepsTokens user false = give-Ensures _ (refl, h)
  clear_lockout-KeepsTokens user true =
      exec_then env reset_lockout _ _ _ (λ _. h) (give-Ensures _ (refl, h))

-- What an answered login tells of the tables `t` before and `u` after it.
pub record IsLogin (env : Env) (email password : String) (t : Tables) (r : LoginResult) (u : Tables)
    : Type 0 where
  pub address : String
  pub valid : valid_email env email ≡ ok address
  pub account : User
  pub found : Tables.get_user_by_email env (str_ptr address) t.users ≡ some account
  pub unlocked : is_locked env.now account.locked_until ≡ false
  pub hash : String
  pub has_password : account.password_hash ≡ some hash
  pub verified : env.verify_password hash password ≡ some true
  pub same_account : r.user.id ≡ account.id
  pub live : live_for r.device.id r.user.id u.tokens ≡ 1
  pub one_live : HasOneLive u.tokens

module _ (env : Env) (t : Tables) (h : HasOneLive t.tokens) where
  accept-IsIssued :
      (user : User) (device : DeviceInput)
      → Ensures
          (λ r u.
            (r.user.id ≡ user.id)
            × (live_for r.device.id r.user.id u.tokens ≡ 1)
            × HasOneLive u.tokens)
          KeepsOneLive
          (accept env user device)
          t
  unfolding accept
  accept-IsIssued user device = >>=-Ensures (
      weaken
        (λ account u cleared. >>=-Ensures (
          weaken
            (λ row v kept.
              weaken
                (λ r x i. (ap (λ (a : User). a.id) i.user_same ∙ cleared.0, i.live, i.one_live))
                (λ _ _ k. k) (issue_token_pair-IsIssued env account row v kept))
            (λ _ _ k. k) (resolve_device-KeepsTokens env u cleared.1 account.id device)))
        (λ _ _ k. k) (clear_lockout-KeepsTokens env t h user _))

  refuse-KeepsTokens :
      (P : LoginResult → Tables → Type 0) (user : User) → Ensures P KeepsOneLive (refuse env user) t
  unfolding refuse
  refuse-KeepsTokens P user = read_then _ (λ _ _. write_then _ _ (fail-Ensures _ h)) (λ _ _. h)

  module _ (email password address : String) (device : DeviceInput)
      (valid : valid_email env email ≡ ok address) (account : User)
      (found : Tables.get_user_by_email env (str_ptr address) t.users ≡ some account) where
    checked-IsLogin :
        (hash : String)
        → account.password_hash ≡ some hash
        → is_locked env.now account.locked_until ≡ false
        → (v : Option Bool) → env.verify_password hash password ≡ v
        → Ensures
            (λ r u. IsLogin env email password t r u)
            KeepsOneLive
            (checked env account device v)
            t
    unfolding checked
    checked-IsLogin hash has unlocked none verified = fail-Ensures _ h
    checked-IsLogin hash has unlocked (some false) verified = refuse-KeepsTokens _ account
    checked-IsLogin hash has unlocked (some true) verified =
        weaken
          (λ r u i. record {
            address = address;
            valid = valid;
            account = account;
            found = found;
            unlocked = unlocked;
            hash = hash;
            has_password = has;
            verified = verified;
            same_account = i.0;
            live = i.1;
            one_live = i.2;
          })
          (λ _ _ k. k) (accept-IsIssued account device)

    with_account-IsLogin :
        (o : Option String)
        → account.password_hash ≡ o
        → Ensures
            (λ r u. IsLogin env email password t r u)
            KeepsOneLive
            (with_account env password device account o)
            t
    unfolding with_account
    with_account-IsLogin none has = fail-Ensures _ h
    with_account-IsLogin (some hash) has = go (is_locked env.now account.locked_until) refl
      where
        go :
            (b : Bool)
            → is_locked env.now account.locked_until ≡ b
            → Ensures
                (λ r u. IsLogin env email password t r u)
                KeepsOneLive
                (if_locked b (checked env account device (env.verify_password hash password)))
                t
        go true locked = fail-Ensures _ h
        go false unlocked =
            checked-IsLogin hash has unlocked (env.verify_password hash password) refl

  -- From tables with at most one live token for each device: an answered login found an account
  -- by the address that it validated, not locked, whose password hash verifies the password. It
  -- answers for that account, and the answered device has exactly one live token. Whether or not
  -- it is answered, each device still has at most one.
  pub login-IsLogin :
      (email password : String) (device : DeviceInput)
      → Ensures
          (λ r u. IsLogin env email password t r u)
          KeepsOneLive
          (login env email password device)
          t
  unfolding login
  login-IsLogin email password device =
      pure_then _
        (λ address valid.
          pure_then _
            (λ _ _.
              pure_then _
                (λ _ _.
                  read_then _
                    (λ account found.
                      with_account-IsLogin email password address device valid account
                        (or_missing-eq-ok _ _ _ _ _ found) account.password_hash refl)
                    (λ _ _. h))
                (λ _ _. h))
            (λ _ _. h))
        (λ _ _. h)

  pub register-KeepsTokens :
      (email password : String) (device : DeviceInput)
      → Ensures (λ r u. HasOneLive u.tokens) KeepsOneLive (register env email password device) t
  unfolding register
  register-KeepsTokens email password device =
      pure_then _
        (λ address _.
          pure_then _
            (λ _ _.
              pure_then _
                (λ _ _.
                  pure_then _
                    (λ hash _.
                      read_then _
                        (λ users _. write_then _ _ (
                          >>=-Ensures (
                            weaken
                              (λ row u kept.
                                weaken (λ r v i. i.one_live) (λ _ _ k. k)
                                  (issue_token_pair-IsIssued env _ row u kept))
                              (λ _ _ k. k) (add_device-KeepsTokens env _ h _ device))))
                        (λ _ _. h))
                    (λ _ _. h))
                (λ _ _. h))
            (λ _ _. h))
        (λ _ _. h)
