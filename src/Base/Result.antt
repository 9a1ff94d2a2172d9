-- ===== src/Base/Result.antt =====
-- A Go result `(value, error)`: the value, or the error that the caller gets instead.
use mathlib.Core.Path.{◌≡◌, refl}
use mathlib.Core.Bool.{Bool, true, false}
use mathlib.Core.Option.{Option, none, some}

pub data Result (E A : Type 0) : Type 0 where
  err : E → Result E A
  ok : A → Result E A

-- if test fails { return err }
abbrev pub require : {E : Type 0} → Bool → E → Result E (Unit {0})
require false failure = err failure
require true failure = ok tt

abbrev pub or_fail : {E A : Type 0} → Option A → E → Result E A
or_fail (some found) failure = ok found
or_fail none failure = err failure

pub or_fail-eq-ok :
    {E A : Type 0} (x : Option A) (failure : E) {a : A} → or_fail x failure ≡ ok a → x ≡ some a
or_fail-eq-ok (some b) failure h = cc
or_fail-eq-ok none failure h = cc

module _ {E A B : Type 0} where
  infixl 5 ◌>>=◌
  abbrev pub ◌>>=◌ : Result E A → (A → Result E B) → Result E B
  err failure >>= next = err failure
  ok value >>= next = next value

  pub >>=-eq-ok :
      (first : Result E A) (next : A → Result E B) {out : B}
      → (first >>= next) ≡ ok out
      → (value : A) × (first ≡ ok value) × (next value ≡ ok out)
  >>=-eq-ok (err failure) next same = cc
  >>=-eq-ok (ok value) next same = (value, refl, same)

infixl 5 ◌>>◌
abbrev pub ◌>>◌ : {E B : Type 0} → Result E (Unit {0}) → Result E B → Result E B
first >> then_do = first >>= λ done. then_do

module _ {E B : Type 0} where
  pub require-eq-ok :
      (test : Bool) (failure : E) (next : Result E B) {out : B}
      → (require test failure >> next) ≡ ok out
      → (test ≡ true) × (next ≡ ok out)
  require-eq-ok false failure next same = cc
  require-eq-ok true failure next same = (refl, same)
