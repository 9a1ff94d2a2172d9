-- ===== src/Store/Paging/Sorting.antt =====
-- ORDER BY a key, as insertion sort: strict where the keys are distinct.
use rize_backend.Base.{
  ℕ, zero, suc, ◌≡◌, ◌≢◌, inl, inr, ◌⊎◌, In, Bool, true, false, List, [], ◌∷◌, arith, ltb, ltb→lt,
  lt→ltb, ltb-false→le, le→ltb-false, if◌then◌else◌, Bool-cases, keep, take, All, some, last?,
}
use mathlib.Core.Path.{subst}
use rize_backend.Store.Paging.Keyset.{IsStrictOrder, IsSorted}

pub ltb-IsStrictOrder : IsStrictOrder ltb
ltb-IsStrictOrder = record {
  irreflexive = λ a. le→ltb-false a a (omega arith);
  transitive = λ a b c h k. lt→ltb a c (omega (arith, ltb→lt a b h, ltb→lt b c k));
}

module _ {A : Type 0} where
  pub map-All : {P Q : A → Type 0} (xs : List A) → ((a : A) → P a → Q a) → All P xs → All Q xs
  map-All [] f h = tt
  map-All (x ∷ xs) f h = (f x h.0, map-All xs f h.1)

  pub keep-All : (P : A → Type 0) (p : A → Bool) (xs : List A) → All P xs → All P (keep p xs)
  keep-All P p [] h = tt
  keep-All P p (x ∷ xs) h = elim (Bool-cases (p x)) [
    | inl y ↦ rw y (h.0, keep-All P p xs h.1)
    | inr n ↦ rw n (keep-All P p xs h.1)
  ]

  pub take-All : (P : A → Type 0) (n : ℕ) (xs : List A) → All P xs → All P (take n xs)
  take-All P zero xs h = tt
  take-All P (suc n) [] h = tt
  take-All P (suc n) (x ∷ xs) h = (h.0, take-All P n xs h.1)

  pub last-All : (P : A → Type 0) (xs : List A) (a : A) → last? xs ≡ some a → All P xs → P a
  last-All P [] a e h = cc
  last-All P (x ∷ []) a e h = subst P (cc e) h.0
  last-All P (x ∷ y ∷ xs) a e h = last-All P (y ∷ xs) a e h.1

module _ {A K : Type 0} (key : A → K) where
  abbrev pub IsDistinct : List A → Type 0
  IsDistinct [] = Unit
  IsDistinct (x ∷ xs) = All (λ y. key x ≢ key y) xs × IsDistinct xs

  pub keep-IsDistinct : (p : A → Bool) (xs : List A) → IsDistinct xs → IsDistinct (keep p xs)
  keep-IsDistinct p [] h = tt
  keep-IsDistinct p (x ∷ xs) h = elim (Bool-cases (p x)) [
    | inl y ↦ rw y (keep-All _ p xs h.0, keep-IsDistinct p xs h.1)
    | inr n ↦ rw n (keep-IsDistinct p xs h.1)
  ]

module _ {A K : Type 0} (key : A → K) (lt : K → K → Bool) where
  unfoldable pub insert_by : A → List A → List A
  insert_by a [] = a ∷ []
  insert_by a (b ∷ bs) =
      let later = b ∷ insert_by a bs in if lt (key b) (key a) then later else a ∷ b ∷ bs

  unfoldable pub sort_by : List A → List A
  unfolding insert_by
  sort_by [] = []
  sort_by (a ∷ rest) = insert_by a (sort_by rest)

  insert_by-All : (P : A → Type 0) (a : A) (bs : List A) → P a → All P bs → All P (insert_by a bs)
  unfolding insert_by
  insert_by-All P a [] h k = (h, tt)
  insert_by-All P a (b ∷ bs) h k = elim (Bool-cases (lt (key b) (key a))) [
    | inl y ↦ rw y (k.0, insert_by-All P a bs h k.1)
    | inr n ↦ rw n (h, k)
  ]

  pub sort_by-All : (P : A → Type 0) (xs : List A) → All P xs → All P (sort_by xs)
  unfolding sort_by
  sort_by-All P [] h = tt
  sort_by-All P (x ∷ xs) h = insert_by-All P x (sort_by xs) h.0 (sort_by-All P xs h.1)

  module _ (order : IsStrictOrder lt)
      (total : (a b : K) → a ≢ b → lt b a ≡ false → lt a b ≡ true) where
    insert_by-IsSorted :
        (a : A) (bs : List A)
        → All (λ b. key a ≢ key b) bs
        → IsSorted key lt bs
        → IsSorted key lt (insert_by a bs)
    unfolding insert_by
    insert_by-IsSorted a [] n h = (tt, tt)
    insert_by-IsSorted a (b ∷ bs) n h = elim (Bool-cases (lt (key b) (key a))) [
      | inl y ↦ rw y (insert_by-All _ a bs y h.0, insert_by-IsSorted a bs n.1 h.1)
      | inr m ↦
          let below = total (key a) (key b) n.0 m in
          rw m ((below, map-All bs (λ c later. order.transitive _ _ _ below later) h.0), h)
    ]

    pub sort_by-IsSorted : (xs : List A) → IsDistinct key xs → IsSorted key lt (sort_by xs)
    unfolding sort_by
    sort_by-IsSorted [] h = tt
    sort_by-IsSorted (x ∷ xs) h =
        insert_by-IsSorted x (sort_by xs) (sort_by-All _ xs h.0) (sort_by-IsSorted xs h.1)

pub ltb_total : (a b : ℕ) → a ≢ b → ltb b a ≡ false → ltb a b ≡ true
ltb_total a b n h = lt→ltb a b (omega (arith, ltb-false→le b a h, n))

-- Sorting adds nothing.
module _ {A K : Type 0} (key : A → K) (lt : K → K → Bool) where
  In_of_insert_by : (a b : A) (bs : List A) → In a (insert_by key lt b bs) → (a ≡ b) ⊎ In a bs
  unfolding insert_by
  In_of_insert_by a b [] m = m
  In_of_insert_by a b (c ∷ bs) m = ground (arith, In_of_insert_by a b bs)

  pub In_of_sort_by : (a : A) (xs : List A) → In a (sort_by key lt xs) → In a xs
  unfolding sort_by
  In_of_sort_by a [] m = m
  In_of_sort_by a (x ∷ xs) m = elim (In_of_insert_by a x (sort_by key lt xs) m) [
    | inl e ↦ inl e
    | inr n ↦ inr (In_of_sort_by a xs n)
  ]
