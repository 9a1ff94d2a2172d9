-- ===== src/Store/Query.antt =====
-- What a statement of internal/store/storedb can return to the code that runs it.
use mathlib.Core.Bool.{Bool}
use mathlib.Core.List.{List, [], ◌∷◌}
use mathlib.Core.Option.{Option, none, some}
use Prim.Native.String.{String}
use rize_backend.Base.{
  ◌≡◌, sym, ap, ◌∙◌, inl, inr, true, false, arith, if◌then◌else◌, Bool-cases, In,
}
use rize_backend.Base.Result.{Result, ok, err}

-- A statement that fails: with an SQLSTATE and the name of a constraint, or otherwise.
pub data Fault : Type 0 where
  sqlstate : String → String → Fault
  broken : Fault

-- `no_rows` is pgx.ErrNoRows.
pub data DbError : Type 0 where
  no_rows : DbError
  fault : Fault → DbError

-- A `:one` query over the rows found.
abbrev pub one : {A : Type 0} → Option Fault → Option A → Result DbError A
one (some f) found = err (fault f)
one none none = err no_rows
one none (some row) = ok row

unfoldable pub find : {A : Type 0} → (A → Bool) → List A → Option A
find p [] = none
find p (x ∷ xs) = let rest = find p xs in if p x then some x else rest

abbrev pub is_null : {A : Type 0} → Option A → Bool
is_null none = true
is_null (some a) = false

-- UPDATE ... SET ... WHERE
unfoldable pub set_where : {A : Type 0} → (A → Bool) → (A → A) → List A → List A
set_where p f [] = []
set_where p f (x ∷ xs) = (if p x then f x else x) ∷ set_where p f xs

pub find-eq-some :
    {A : Type 0} (p : A → Bool) (xs : List A) (a : A) → find p xs ≡ some a → In a xs × (p a ≡ true)
unfolding find
find-eq-some p [] a h = cc
find-eq-some p (x ∷ xs) a h = elim (Bool-cases (p x)) [
  | inl y ↦ let same : x ≡ a = ground arith in (inl (sym same), ap p (sym same) ∙ y)
  | inr n ↦ let (m, t) = find-eq-some p xs a (ground arith) in (inr m, t)
]

pub find-eq-none :
    {A : Type 0} (p : A → Bool) (xs : List A) (a : A) → find p xs ≡ none → In a xs → p a ≡ false
unfolding find
find-eq-none p [] a h m = absurd m
find-eq-none p (x ∷ xs) a h (inl e) =
    let none_here : p x ≡ false = ground arith in ap p e ∙ none_here
find-eq-none p (x ∷ xs) a h (inr m) = find-eq-none p xs a (ground arith) m

pub In-set_where :
    {A : Type 0} (p : A → Bool) (f : A → A) (xs : List A) (a : A)
    → In a xs
    → p a ≡ false
    → In a (set_where p f xs)
unfolding set_where
In-set_where p f [] a m n = absurd m
In-set_where p f (x ∷ xs) a (inl e) n = let here : p x ≡ false = ap p (sym e) ∙ n in inl (rw here e)
In-set_where p f (x ∷ xs) a (inr m) n = inr (In-set_where p f xs a m n)
