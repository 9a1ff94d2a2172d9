-- ===== src/Base/Action.antt =====
-- Code that reads and writes a store, statement by statement: what it returns, and the store that
-- it leaves. An error ends it, and what was written before stays.
pub mod Ensures
use rize_backend.Base.Result.{Result, ok, err}

abbrev pub Action : Type 0 → Type 0 → Type 0 → Type 0
Action S E A = S → Result E A × S

abbrev pub and_then : {S E A B : Type 0} → Result E A → S → (A → Action S E B) → Result E B × S
and_then (ok a) s next = next a s
and_then (err e) s next = (err e, s)

module _ {S E A B : Type 0} where
  infixl 5 ◌>>=◌
  unfoldable pub ◌>>=◌ : Action S E A → (A → Action S E B) → Action S E B
  (m >>= f) s = and_then (m s).0 (m s).1 f

infixl 5 ◌>>◌
abbrev pub ◌>>◌ : {S E B : Type 0} → Action S E (Unit {0}) → Action S E B → Action S E B
m >> k = m >>= λ done. k

unfoldable pub give : {S E A : Type 0} → A → Action S E A
give a s = (ok a, s)

unfoldable pub fail : {S E A : Type 0} → E → Action S E A
fail e s = (err e, s)

-- A computation that touches no store.
unfoldable pub pure : {S E A : Type 0} → Result E A → Action S E A
pure r s = (r, s)

unfoldable pub read : {S E A : Type 0} → (S → Result E A) → Action S E A
read f s = (f s, s)

unfoldable pub write : {S E : Type 0} → (S → S) → Action S E (Unit {0})
write f s = (ok tt, f s)
