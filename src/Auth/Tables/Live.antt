-- ===== src/Auth/Tables/Live.antt =====
-- How many refresh tokens of a device are live.
use rize_backend.Base.{
  ℕ, ◌+◌, ◌≤◌, String, ◌≡◌, refl, sym, ap, ◌∙◌, inl, inr, Bool, true, false, ◌&&◌, List, [], ◌∷◌,
  ◌++◌, arith, if◌then◌else◌, Bool-cases, In, In-append_left,
}
use rize_backend.Base.{str_eq, eq_iff}
use rize_backend.Instant.{Time}
use rize_backend.Auth.Tables.{
  RefreshToken, is_live, is_live_with, set_where, revoke, rotate_row, rotate_refresh_token,
  revoke_refresh_tokens_by_device,
}

abbrev pub is_live_for : String → String → RefreshToken → Bool
is_live_for device uid x = str_eq x.device_id device && str_eq x.user_id uid && is_live x

abbrev pub live_for : String → String → List RefreshToken → ℕ
live_for device uid [] = 0
live_for device uid (x ∷ tokens) =
    (if is_live_for device uid x then 1 else 0) + live_for device uid tokens

-- Each device of each user has at most one.
pub record HasOneLive (tokens : List RefreshToken) : Type 0 where
  pub one_live : (device uid : String) → live_for device uid tokens ≤ 1

pub live_for-append :
    (device uid : String) (xs ys : List RefreshToken)
    → live_for device uid (xs ++ ys) ≡ live_for device uid xs + live_for device uid ys
live_for-append device uid [] ys = omega arith
live_for-append device uid (x ∷ xs) ys = omega (arith, live_for-append device uid xs ys)

-- Revoking rows makes none live.
module _ (device uid : String) (p : RefreshToken → Bool) (f : RefreshToken → RefreshToken)
    (revokes : (x : RefreshToken) → is_live (f x) ≡ false) where
  pub live_for-set_where :
      (tokens : List RefreshToken)
      → live_for device uid (set_where p f tokens) ≤ live_for device uid tokens
  unfolding set_where
  live_for-set_where [] = omega arith
  live_for-set_where (x ∷ tokens) = elim (Bool-cases (p x)) [
    | inl y ↦ rw y (ground (arith, live_for-set_where tokens, revokes x))
    | inr n ↦ rw n (ground (arith, live_for-set_where tokens))
  ]

  pub live_for-set_where_in :
      (tokens : List RefreshToken) (c : RefreshToken)
      → In c tokens
      → p c ≡ true
      → is_live_for device uid c ≡ true
      → live_for device uid (set_where p f tokens) + 1 ≤ live_for device uid tokens
  unfolding set_where
  live_for-set_where_in [] c m y l = absurd m
  live_for-set_where_in (x ∷ tokens) c (inl e) y l =
      let here : p x ≡ true = ap p (sym e) ∙ y in
      let live : is_live_for device uid x ≡ true = ap (is_live_for device uid) (sym e) ∙ l in
      rw here (ground (arith, live, live_for-set_where tokens, revokes x))
  live_for-set_where_in (x ∷ tokens) c (inr m) y l = elim (Bool-cases (p x)) [
    | inl h ↦ rw h (ground (arith, live_for-set_where_in tokens c m y l, revokes x))
    | inr n ↦ rw n (ground (arith, live_for-set_where_in tokens c m y l))
  ]

pub live_for-revoke_by_device :
    (now : Time) (device uid : String) (tokens : List RefreshToken)
    → live_for device uid (revoke_refresh_tokens_by_device now device uid tokens) ≡ 0
unfolding set_where
live_for-revoke_by_device now device uid [] = refl
live_for-revoke_by_device now device uid (x ∷ tokens) =
    ground (arith, live_for-revoke_by_device now device uid tokens)

module _ (now : Time) (tokens : List RefreshToken) (h : HasOneLive tokens) where
  pub revoked-HasOneLive : (p : RefreshToken → Bool) → HasOneLive (set_where p (revoke now) tokens)
  revoked-HasOneLive p = record {
    one_live = λ device uid. omega (
      arith,
      h.one_live device uid,
      live_for-set_where device uid p (revoke now) (λ _. refl) tokens,
    );
  }

  -- A new token for a device that has none.
  pub added-HasOneLive :
      (new : RefreshToken)
      → live_for new.device_id new.user_id tokens ≡ 0
      → HasOneLive (tokens ++ new ∷ [])
  added-HasOneLive new none_live = record {
    one_live = λ device uid. ground (
      arith,
      h.one_live device uid,
      live_for-append device uid tokens (new ∷ []),
      eq_iff new.device_id device,
      eq_iff new.user_id uid,
    );
  }

  -- A new token for the device of a live token that is revoked.
  pub rotated-HasOneLive :
      (current new : RefreshToken) (replacement : String)
      → In current tokens
      → is_live current ≡ true
      → new.device_id ≡ current.device_id
      → new.user_id ≡ current.user_id
      → HasOneLive (rotate_refresh_token now current.id replacement (tokens ++ new ∷ []))
  rotated-HasOneLive current new replacement m live same_device same_user = record {
    one_live = λ device uid. elim (Bool-cases (is_live_for device uid current)) [
      | inl y ↦ omega (
        arith,
        h.one_live device uid,
        live_for-append device uid tokens (new ∷ []),
        at_most_one device uid new,
        live_for-set_where_in device uid (is_live_with current.id) (rotate_row now replacement)
            (λ _. refl) (tokens ++ new ∷ []) current (In-append_left current tokens (new ∷ []) m)
            (ground (arith, eq_iff current.id current.id)) y,
      )
      | inr n ↦ ground (
        arith,
        h.one_live device uid,
        live_for-append device uid tokens (new ∷ []),
        live_for-set_where device uid (is_live_with current.id) (rotate_row now replacement)
            (λ _. refl) (tokens ++ new ∷ []),
      )
    ];
  }
    where
      at_most_one : (device uid : String) (x : RefreshToken) → live_for device uid (x ∷ []) ≤ 1
      at_most_one device uid x = ground arith

-- After the live rows of some kind are revoked, none of that kind is live.
pub set_where-revoke :
    (now : Time) (p : RefreshToken → Bool)
    → ((x : RefreshToken) → p (revoke now x) ≡ p x)
    → (tokens : List RefreshToken) (x : RefreshToken)
    → In x (set_where (λ y. p y && is_live y) (revoke now) tokens)
    → p x ≡ true
    → is_live x ≡ false
unfolding set_where
set_where-revoke now p kept [] x m f = absurd m
set_where-revoke now p kept (y ∷ tokens) x (inr m) f = set_where-revoke now p kept tokens x m f
set_where-revoke now p kept (y ∷ tokens) x (inl e) f = elim (Bool-cases (p y && is_live y)) [
  | inl b ↦ let same : x ≡ _ = e in rw same (rw b refl)
  | inr b ↦
      let same : x ≡ y = rw b at e in
      let f' : p y ≡ true = ap p (sym same) ∙ f in ap is_live same ∙ ground arith
]
