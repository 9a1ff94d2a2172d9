-- ===== src/Base/Action/Ensures.antt =====
-- What an action ensures when it starts in a store: of its value and the store it leaves, or of
-- its error and the store it leaves. One rule for each form of action.
use mathlib.Core.Path.{◌≡◌, refl, subst}
use rize_backend.Base.Result.{Result, ok, err}
use rize_backend.Base.Action.{Action, and_then, ◌>>=◌, give, fail, pure, read, write}

module _ {S E A : Type 0} (Q : A → S → Type 0) (X : E → S → Type 0) where
  abbrev pub Outcome : Result E A → S → Type 0
  Outcome (ok a) s = Q a s
  Outcome (err e) s = X e s

  pub record Ensures (m : Action S E A) (s : S) : Type 0 where
    pub outcome : Outcome (m s).0 (m s).1

  by_result :
      (r : Result E A) (s : S)
      → ((a : A) → r ≡ ok a → Q a s)
      → ((e : E) → r ≡ err e → X e s)
      → Outcome r s
  by_result (ok a) s q x = q a refl
  by_result (err e) s q x = x e refl

module _ {S E A : Type 0} {Q : A → S → Type 0} {X : E → S → Type 0} where
  pub give-Ensures : (a : A) {s : S} → Q a s → Ensures Q X (give a) s
  unfolding give
  give-Ensures a h = record { outcome = h }

  pub fail-Ensures : (e : E) {s : S} → X e s → Ensures Q X (fail e) s
  unfolding fail
  fail-Ensures e h = record { outcome = h }

  pub pure-Ensures :
      (r : Result E A) {s : S}
      → ((a : A) → r ≡ ok a → Q a s)
      → ((e : E) → r ≡ err e → X e s)
      → Ensures Q X (pure r) s
  unfolding pure
  pure-Ensures r {s} q x = record { outcome = by_result Q X r s q x }

  pub read-Ensures :
      (f : S → Result E A) {s : S}
      → ((a : A) → f s ≡ ok a → Q a s)
      → ((e : E) → f s ≡ err e → X e s)
      → Ensures Q X (read f) s
  unfolding read
  read-Ensures f {s} q x = record { outcome = by_result Q X (f s) s q x }

  pub eq-ok-Ensures :
      {m : Action S E A} {s u : S} {a : A} → Ensures Q X m s → m s ≡ (ok a, u) → Q a u
  eq-ok-Ensures {m} {s} {u} {a} h e = go (m s) h.outcome e
    where
      go : (p : Result E A × S) → Outcome Q X p.0 p.1 → p ≡ (ok a, u) → Q a u
      go p k same = subst (λ (r : Result E A × S). Outcome Q X r.0 r.1) same k

module _ {S E : Type 0} {Q : Unit {0} → S → Type 0} {X : E → S → Type 0} where
  pub write-Ensures : (f : S → S) {s : S} → Q tt (f s) → Ensures Q X (write f) s
  unfolding write
  write-Ensures f h = record { outcome = h }

module _ {S E A B : Type 0} {Q : B → S → Type 0} {X : E → S → Type 0} where
  pub >>=-Ensures :
      {m : Action S E A} {f : A → Action S E B} {s : S}
      → Ensures (λ a u. Ensures Q X (f a) u) X m s
      → Ensures Q X (m >>= f) s
  unfolding ◌>>=◌
  >>=-Ensures {m} {f} {s} h = record { outcome = go (m s).0 (m s).1 h.outcome }
    where
      go :
          (r : Result E A) (u : S)
          → Outcome (λ a v. Ensures Q X (f a) v) X r u
          → Outcome Q X (and_then r u f).0 (and_then r u f).1
      go (ok a) u k = k.outcome
      go (err e) u k = k

-- The rules for a step and what follows it.
module _ {S E A B : Type 0} {Q : B → S → Type 0} {X : E → S → Type 0} {k : A → Action S E B}
    {s : S} where
  pub pure_then :
      (r : Result E A)
      → ((a : A) → r ≡ ok a → Ensures Q X (k a) s)
      → ((e : E) → r ≡ err e → X e s)
      → Ensures Q X (pure r >>= k) s
  pure_then r h x = >>=-Ensures (pure-Ensures r h x)

  pub read_then :
      (f : S → Result E A)
      → ((a : A) → f s ≡ ok a → Ensures Q X (k a) s)
      → ((e : E) → f s ≡ err e → X e s)
      → Ensures Q X (read f >>= k) s
  read_then f h x = >>=-Ensures (read-Ensures f h x)

module _ {S E B : Type 0} {Q : B → S → Type 0} {X : E → S → Type 0} {s : S} where
  pub write_then :
      (f : S → S) (k : Unit {0} → Action S E B)
      → Ensures Q X (k tt) (f s)
      → Ensures Q X (write f >>= k) s
  write_then f k h = >>=-Ensures (write-Ensures f h)

-- What is ensured can be weakened.
module _ {S E A : Type 0} {Q P : A → S → Type 0} {X Y : E → S → Type 0} where
  pub weaken :
      {m : Action S E A} {s : S}
      → ((a : A) (u : S) → Q a u → P a u)
      → ((e : E) (u : S) → X e u → Y e u)
      → Ensures Q X m s
      → Ensures P Y m s
  weaken {m} {s} q x h = record { outcome = go (m s).0 (m s).1 h.outcome }
    where
      go : (r : Result E A) (u : S) → Outcome Q X r u → Outcome P Y r u
      go (ok a) u k = q a u k
      go (err e) u k = x e u k

-- What is ensured either way, of the store that is left.
module _ {S E A : Type 0} {Q : A → S → Type 0} {X : E → S → Type 0} where
  pub left_store :
      (R : S → Type 0) {m : Action S E A} {s : S}
      → Ensures Q X m s
      → ((a : A) (u : S) → Q a u → R u)
      → ((e : E) (u : S) → X e u → R u)
      → R (m s).1
  left_store R {m} {s} h q x = go (m s).0 (m s).1 h.outcome
    where
      go : (r : Result E A) (u : S) → Outcome Q X r u → R u
      go (ok a) u k = q a u k
      go (err e) u k = x e u k
