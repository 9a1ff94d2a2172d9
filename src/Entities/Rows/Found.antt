-- ===== src/Entities/Rows/Found.antt =====
-- Searches of a table after an INSERT or an UPDATE.
use rize_backend.Base.{
  ◌≡◌, refl, ap, inl, inr, Bool, true, false, Option, none, some, List, [], ◌∷◌, ◌++◌, Bool-cases,
  All,
}
use rize_backend.Base.Result.{Result, ok}
use rize_backend.Store.Query.{Fault, DbError, one, find, set_where}
use rize_backend.Entities.Rows.{Table}

module _ {A : Type 0} where
  pub find-append_one :
      (p : A → Bool) (xs : List A) (a : A)
      → All (λ b. p b ≡ false) xs
      → p a ≡ true
      → find p (xs ++ a ∷ []) ≡ some a
  unfolding find
  find-append_one p [] a h k = rw k refl
  find-append_one p (x ∷ xs) a h k = rw h.0 (find-append_one p xs a h.1 k)

  pub find-set_where :
      (p : A → Bool) (f : A → A) (xs : List A) (a : A)
      → ((b : A) → p b ≡ true → p (f b) ≡ true)
      → find p xs ≡ some a
      → find p (set_where p f xs) ≡ some (f a)
  unfolding find set_where
  find-set_where p f [] a same h = cc
  find-set_where p f (x ∷ xs) a same h = elim (Bool-cases (p x)) [
    | inl y ↦ rw (y, same x y) (ap some (ap f (cc (rw y at h))))
    | inr n ↦ rw (n, n) (find-set_where p f xs a same (rw n at h))
  ]

  pub find-set_where-none :
      (p : A → Bool) (f : A → A) (xs : List A)
      → ((b : A) → p b ≡ true → p (f b) ≡ false)
      → find p (set_where p f xs) ≡ none
  unfolding find set_where
  find-set_where-none p f [] gone = refl
  find-set_where-none p f (x ∷ xs) gone = elim (Bool-cases (p x)) [
    | inl y ↦ rw (y, gone x y) (find-set_where-none p f xs gone)
    | inr n ↦ rw (n, n) (find-set_where-none p f xs gone)
  ]

pub same_some : {A : Type 0} {a b : A} → some a ≡ some b → a ≡ b
same_some h = cc

pub ok_out :
    {A : Type 0} {out next : A × Table A}
    → ◌≡◌ {A = Result DbError (A × Table A)} (ok next) (ok out)
    → next ≡ out
ok_out same = cc

pub one-eq-ok : {A : Type 0} (f : Option Fault) (o : Option A) (a : A) → one f o ≡ ok a → o ≡ some a
one-eq-ok none none a h = cc
one-eq-ok none (some b) a h = cc
one-eq-ok (some f) o a h = cc

pub find-none :
    {A : Type 0} (p : A → Bool) (xs : List A) → All (λ b. p b ≡ false) xs → find p xs ≡ none
unfolding find
find-none p [] h = refl
find-none p (x ∷ xs) h = rw h.0 (find-none p xs h.1)
