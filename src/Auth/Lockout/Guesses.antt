-- ===== src/Auth/Lockout/Guesses.antt =====
-- How many wrong passwords for one account are checked in a span of time.
use rize_backend.Base.{false, ◌&&◌, Option}
use rize_backend.Base.{
  ℕ, zero, suc, ◌+◌, ◌*◌, ◌^◌, ◌≤◌, ◌<◌, ◌≡◌, refl, sym, ap, ◌∙◌, ◌⊎◌, inl, inr, true, false, none,
  some, List, [], ◌∷◌, arith, if◌then◌else◌, leb→le, Bool-cases,
}
use native.Mathlib.Nat.{one-mul, mul-le-mul_left, pow-le-pow_right}
use rize_backend.Instant.{Time}
use rize_backend.Auth.{Env}
use rize_backend.Auth.Tables.{User}
use rize_backend.Auth.Lockout.{
  threshold, base_duration, max_duration, reaches, lock_duration, is_unlocked,
  record_failed_attempt,
}

-- The same server at another time.
abbrev pub at : Env → Time → Env
at env t = record env { now = t }

-- The number of passwords checked of those tried at some times, all wrong. None is checked while
-- the account is locked.
pub checked_guesses : Env → List Time → User → ℕ
checked_guesses env [] u = 0
checked_guesses env (t ∷ times) u =
    let refused = checked_guesses env times u in
    let checked = checked_guesses env times (record_failed_attempt (at env t) u) + 1 in
    if is_unlocked t u.locked_until then checked else refused

-- A failed attempt is counted, and changes nothing else but the lock.
pub record_failed_attempt-counted :
    (env : Env) (u : User)
    → (count : ℕ) × (lock : Option Time) × (record_failed_attempt env u ≡ record u {
      failed_login_attempts = u.failed_login_attempts + 1;
      lockout_count = count;
      locked_until = lock;
    })
unfolding record_failed_attempt
record_failed_attempt-counted env u =
    elim (Bool-cases (
      is_unlocked env.now u.locked_until
      && reaches (u.failed_login_attempts + 1) (threshold env))) [
        | inl y ↦ (
          u.lockout_count + 1,
          some (env.now + lock_duration (base_duration env) (max_duration env) u.lockout_count),
          rw y refl,
        )
        | inr n ↦ (u.lockout_count, u.locked_until, rw n refl)
      ]

pub counted-next :
    (env : Env) (t : Time) (times : List Time) (u : User)
    → is_unlocked t u.locked_until ≡ true
    → checked_guesses env (t ∷ times) u
      ≡ checked_guesses env times (record_failed_attempt (at env t) u) + 1
unfolding checked_guesses
counted-next env t times u h = rw h refl

pub counted-refused :
    (env : Env) (t : Time) (times : List Time) (u : User)
    → is_unlocked t u.locked_until ≡ false
    → checked_guesses env (t ∷ times) u ≡ checked_guesses env times u
unfolding checked_guesses
counted-refused env t times u h = rw h refl

pub counted-none : (env : Env) (u : User) → checked_guesses env [] u ≡ 0
unfolding checked_guesses
counted-none env u = refl

-- Times that do not go back, within a span.
abbrev pub IsWithin : Time → Time → List Time → Type 0
IsWithin from to [] = from ≤ to
IsWithin from to (t ∷ times) = (from ≤ t) × IsWithin t to times

IsWithin-le : (from to : Time) (times : List Time) → IsWithin from to times → from ≤ to
IsWithin-le from to [] h = h
IsWithin-le from to (t ∷ times) h = omega (arith, h.0, IsWithin-le t to times h.1)

-- The least time for which a lockout lasts.
abbrev pub least_lock : Env → ℕ
least_lock env = lock_duration (base_duration env) (max_duration env) 0

lock_duration-grows :
    (base maximum count : ℕ) → lock_duration base maximum 0 ≤ lock_duration base maximum count
unfolding lock_duration
lock_duration-grows base maximum count =
    let doubled : base * 2 ^ 0 ≤ base * 2 ^ count =
      mul-le-mul_left base
        (pow-le-pow_right {n = 2} (omega arith) {i = 0} {j = count} (omega arith)) in
    ground (arith, doubled)

module _ (env : Env) (small : threshold env < 2 ^ 31) where
  -- A wrong password that reaches the threshold locks the account.
  relocked :
      (t : Time) (u : User)
      → is_unlocked t u.locked_until ≡ true
      → threshold env ≤ u.failed_login_attempts + 1
      → record_failed_attempt (at env t) u ≡ record u {
        failed_login_attempts = u.failed_login_attempts + 1;
        lockout_count = u.lockout_count + 1;
        locked_until =
            some (t + lock_duration (base_duration env) (max_duration env) u.lockout_count);
      }
  unfolding record_failed_attempt
  relocked t u e k =
      let reached : reaches (u.failed_login_attempts + 1) (threshold env) ≡ true = ground arith in
      rw (e, reached) refl

  -- One below the threshold is counted.
  counted :
      (t : Time) (u : User)
      → u.failed_login_attempts + 1 < threshold env
      → record_failed_attempt (at env t) u
        ≡ record u { failed_login_attempts = u.failed_login_attempts + 1 }
  unfolding record_failed_attempt
  counted t u k =
      let below : reaches (u.failed_login_attempts + 1) (threshold env) ≡ false = ground arith in
      rw below
        (elim (Bool-cases (is_unlocked t u.locked_until)) [ inl e ↦ rw e refl | inr e ↦ rw e refl ])

  -- One more guess in the bound, after which the account is locked from t for d.
  one_more :
      (from to l t d n m : ℕ)
      → l ≤ t
      → t ≤ to
      → m ≤ d
      → (n ≡ 0) ⊎ (t + d + n * m ≤ to + m)
      → l + (n + 1) * m ≤ to + m
  one_more from to l t d n m a b c (inl e) = rw e (omega (arith, a, b))
  one_more from to l t d n m a b c (inr h) =
      let split : (n + 1) * m ≡ n * m + m = grind arith in rw split (omega (arith, a, b, c, h))

  locked_guesses :
      (from to l : Time) (times : List Time) (u : User)
      → IsWithin from to times
      → u.locked_until ≡ some l
      → threshold env ≤ u.failed_login_attempts
      → (checked_guesses env times u ≡ 0)
        ⊎ (l + checked_guesses env times u * least_lock env ≤ to + least_lock env)
  unfolding checked_guesses
  locked_guesses from to l [] u h e k = inl refl
  locked_guesses from to l (t ∷ times) u h e k = elim (Bool-cases (is_unlocked t u.locked_until)) [
    | inl o ↦
        let d = lock_duration (base_duration env) (max_duration env) u.lockout_count in
        let r = relocked t u o (omega (arith, k)) in
        let ih =
          locked_guesses t to (t + d) times (record_failed_attempt (at env t) u) h.1
            (ap (λ v. v.locked_until) r) (rw r (omega (arith, k))) in
        let past : l ≤ t =
          leb→le l t (sym (ap (is_unlocked t) {x = u.locked_until} {y = some l} e) ∙ o) in
        rw o (
          inr (
            one_more from to l t d (checked_guesses env times (record_failed_attempt (at env t) u))
              (least_lock env) past (IsWithin-le t to times h.1)
              (lock_duration-grows (base_duration env) (max_duration env) u.lockout_count) ih))
    | inr o ↦ rw o (locked_guesses t to l times u h.1 e k)
  ]

  -- From an unlocked account that is k guesses below the threshold.
  open_guesses :
      (from to : Time) (times : List Time) (u : User) (k : ℕ)
      → IsWithin from to times
      → u.locked_until ≡ none
      → k + u.failed_login_attempts ≡ threshold env
      → 0 < k
      → from + checked_guesses env times u * least_lock env ≤ to + k * least_lock env
  unfolding checked_guesses
  open_guesses from to [] u k h e s p = omega (arith, h)
  open_guesses from to (t ∷ times) u zero h e s p = ground (arith, p)
  open_guesses from to (t ∷ times) u (suc zero) h e s p =
      let o : is_unlocked t u.locked_until ≡ true =
        ap (is_unlocked t) {x = u.locked_until} {y = none} e in
      let d = lock_duration (base_duration env) (max_duration env) u.lockout_count in
      let r = relocked t u o (omega (arith, s)) in
      let later =
        locked_guesses t to (t + d) times (record_failed_attempt (at env t) u) h.1
          (ap (λ v. v.locked_until) r) (rw r (omega (arith, s))) in
      rw (o, one-mul (least_lock env))
        (one_more from to from t d (checked_guesses env times (record_failed_attempt (at env t) u))
          (least_lock env) h.0 (IsWithin-le t to times h.1)
          (lock_duration-grows (base_duration env) (max_duration env) u.lockout_count) later)
  open_guesses from to (t ∷ times) u (suc (suc k)) h e s p =
      let o : is_unlocked t u.locked_until ≡ true =
        ap (is_unlocked t) {x = u.locked_until} {y = none} e in
      let r = counted t u (omega (arith, s)) in
      let later =
        open_guesses t to times (record_failed_attempt (at env t) u) (suc k) h.1
          (ap (λ v. v.locked_until) r ∙ e) (rw r (omega (arith, s))) (omega arith) in
      let m = least_lock env in
      let n = checked_guesses env times (record_failed_attempt (at env t) u) in
      let before : (n + 1) * m ≡ n * m + m = grind arith in
      let after : suc (suc k) * m ≡ suc k * m + m = grind arith in
      rw (o, before, after) (omega (arith, later, h.0))

  -- For an account that is not locked and has no failed login, and wrong passwords tried at times
  -- that do not go back: while the threshold is below 2 ^ 31, the number of those that are not
  -- refused by a lock, less the threshold, times the shortest lock, is at most the span of the
  -- times.
  pub checked_guesses-le :
      (from to : Time) (times : List Time) (u : User)
      → IsWithin from to times
      → u.locked_until ≡ none
      → u.failed_login_attempts ≡ 0
      → from + checked_guesses env times u * least_lock env ≤ to + threshold env * least_lock env
  checked_guesses-le from to times u h e z =
      let limited : 0 < threshold env = ground arith in
      open_guesses from to times u (threshold env) h e (omega (arith, z)) limited
