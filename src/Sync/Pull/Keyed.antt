-- ===== src/Sync/Pull/Keyed.antt =====
-- A Go map from strings, as an association list.
use rize_backend.Base.{
  String, ◌≡◌, refl, ◌⊎◌, inl, inr, Option, none, some, List, [], ◌∷◌, ◌++◌, arith, if◌then◌else◌,
  Bool-cases, In, In_of_append, In-append_left, In-append_right,
}
use mathlib.Core.Path.{subst}
use rize_backend.Base.{str_eq, eq_iff}

module _ {A : Type 0} where
  -- m[k]
  unfoldable pub get : String → List (String × A) → Option A
  get k [] = none
  get k ((j, a) ∷ m) = let rest = get k m in if str_eq j k then some a else rest

  -- delete(m, k)
  unfoldable pub delete : String → List (String × A) → List (String × A)
  delete k [] = []
  delete k ((j, a) ∷ m) = let rest = delete k m in if str_eq j k then rest else (j, a) ∷ rest

  -- m[k] = a
  abbrev pub put : String → A → List (String × A) → List (String × A)
  put k a m = (k, a) ∷ delete k m

  pub get-delete :
      (j k : String) (m : List (String × A))
      → get j (delete k m) ≡ (if str_eq k j then none else get j m)
  unfolding get delete
  get-delete j k [] = ground arith
  get-delete j k ((i, a) ∷ m) = ground (arith, eq_iff i k, eq_iff i j, eq_iff k j, get-delete j k m)

  pub get-put :
      (j k : String) (a : A) (m : List (String × A))
      → get j (put k a m) ≡ (if str_eq k j then some a else get j m)
  unfolding get
  get-put j k a m = rw (get-delete j k m) (ground arith)

abbrev or_empty : {A : Type 0} → Option (List A) → List A
or_empty none = []
or_empty (some xs) = xs

-- m[k], a slice that is nil where there is none.
abbrev pub held : {A : Type 0} → String → List (String × List A) → List A
held k m = or_empty (get k m)

-- m[k] = append(m[k], a)
abbrev pub append_to : {A : Type 0} → String → A → List (String × List A) → List (String × List A)
append_to k a m = put k (held k m ++ a ∷ []) m

only : {A : Type 0} {a b : A} → In b (a ∷ []) → b ≡ a
only (inl e) = e
only (inr m) = absurd m

module _ {A : Type 0} (k : String) (a : A) (m : List (String × List A)) where
  pub In-append_to : In a (held k (append_to k a m))
  In-append_to =
      rw (get-put k k (held k m ++ a ∷ []) m, (eq_iff k k).1 refl)
        (In-append_right a (held k m) (a ∷ []) (inl refl))

  pub In-append_to_held : (j : String) (b : A) → In b (held j m) → In b (held j (append_to k a m))
  In-append_to_held j b h = elim (Bool-cases (str_eq k j)) [
    | inl e ↦
        let same : k ≡ j = (eq_iff k j).0 e in
        rw (get-put j k (held k m ++ a ∷ []) m, e)
          (In-append_left b (held k m) (a ∷ []) (rw same h))
    | inr e ↦ rw (get-put j k (held k m ++ a ∷ []) m, e) h
  ]

  pub In_of_append_to :
      (j : String) (b : A) → In b (held j (append_to k a m)) → In b (held j m) ⊎ ((k ≡ j) × (b ≡ a))
  In_of_append_to j b h = elim (Bool-cases (str_eq k j)) [
    | inl e ↦
        let same : k ≡ j = (eq_iff k j).0 e in
        let h' : In b (held k m ++ a ∷ []) = rw (get-put j k (held k m ++ a ∷ []) m, e) at h in
        elim (In_of_append b (held k m) (a ∷ []) h') [
          | inl x ↦ inl (subst (λ i. In b (held i m)) same x)
          | inr y ↦ inr (same, only y)
        ]
    | inr e ↦ let h' : In b (held j m) = rw (get-put j k (held k m ++ a ∷ []) m, e) at h in inl h'
  ]
