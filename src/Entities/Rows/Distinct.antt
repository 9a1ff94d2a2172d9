-- ===== src/Entities/Rows/Distinct.antt =====
-- Lists whose elements have distinct keys.
use rize_backend.Store.Paging.Sorting.{map-All, IsDistinct}
use rize_backend.Base.{
  ◌≡◌, ◌≢◌, refl, sym, ◌∙◌, inl, inr, Bool, true, false, List, [], ◌∷◌, ◌++◌, Bool-cases, keep, any,
  All,
}
use rize_backend.Store.Query.{set_where}

module _ {A : Type 0} where
  pub append-All : (P : A → Type 0) (xs : List A) (a : A) → All P xs → P a → All P (xs ++ a ∷ [])
  append-All P [] a h k = (k, tt)
  append-All P (x ∷ xs) a h k = (h.0, append-All P xs a h.1 k)

  pub set_where-All :
      (P : A → Type 0) (p : A → Bool) (f : A → A) (xs : List A)
      → All P xs
      → ((a : A) → p a ≡ true → P a → P (f a))
      → All P (set_where p f xs)
  unfolding set_where
  set_where-All P p f [] h k = tt
  set_where-All P p f (x ∷ xs) h k = elim (Bool-cases (p x)) [
    | inl y ↦ rw y (k x y h.0, set_where-All P p f xs h.1 k)
    | inr n ↦ rw n (h.0, set_where-All P p f xs h.1 k)
  ]

  pub any-false-All : (p : A → Bool) (xs : List A) → any p xs ≡ false → All (λ a. p a ≡ false) xs
  any-false-All p [] h = tt
  any-false-All p (x ∷ xs) h = elim (Bool-cases (p x)) [
    | inl y ↦ cc
    | inr n ↦ (n, any-false-All p xs (rw n at h))
  ]

  pub keep-append_one :
      (p : A → Bool) (xs : List A) (a : A) → p a ≡ false → keep p (xs ++ a ∷ []) ≡ keep p xs
  keep-append_one p [] a h = rw h refl
  keep-append_one p (x ∷ xs) a h = rw (keep-append_one p xs a h) refl

  -- An update of rows that a test leaves out, to rows that it leaves out.
  pub keep-set_where :
      (q p : A → Bool) (f : A → A) (xs : List A)
      → ((a : A) → p a ≡ true → (q a ≡ false) × (q (f a) ≡ false))
      → keep q (set_where p f xs) ≡ keep q xs
  unfolding set_where
  keep-set_where q p f [] h = refl
  keep-set_where q p f (x ∷ xs) h = elim (Bool-cases (p x)) [
    | inl y ↦ rw (y, (h x y).0, (h x y).1) (keep-set_where q p f xs h)
    | inr n ↦ rw (n, keep-set_where q p f xs h) refl
  ]

  pub set_where-none :
      (p : A → Bool) (f : A → A) (xs : List A) → All (λ a. p a ≡ false) xs → set_where p f xs ≡ xs
  unfolding set_where
  set_where-none p f [] h = refl
  set_where-none p f (x ∷ xs) h = rw (h.0, set_where-none p f xs h.1) refl

  abbrev pub AtMostOne : (A → Bool) → List A → Type 0
  AtMostOne p [] = Unit
  AtMostOne p (x ∷ xs) = (p x ≡ true → All (λ a. p a ≡ false) xs) × AtMostOne p xs

module _ {A K : Type 0} (key : A → K) where
  pub append-IsDistinct :
      (xs : List A) (a : A)
      → IsDistinct key xs
      → All (λ y. key y ≢ key a) xs
      → IsDistinct key (xs ++ a ∷ [])
  append-IsDistinct [] a h k = (tt, tt)
  append-IsDistinct (x ∷ xs) a h k = (append-All _ xs a h.0 k.0, append-IsDistinct xs a h.1 k.1)

  -- Rows that keep their key.
  pub set_where-IsDistinct :
      (p : A → Bool) (f : A → A) (xs : List A)
      → ((a : A) → key (f a) ≡ key a)
      → IsDistinct key xs
      → IsDistinct key (set_where p f xs)
  unfolding set_where
  set_where-IsDistinct p f [] same h = tt
  set_where-IsDistinct p f (x ∷ xs) same h =
      let here : All (λ y. key x ≢ key y) (set_where p f xs) =
        set_where-All _ p f xs h.0 (λ a y n e. n (e ∙ same a)) in
      elim (Bool-cases (p x)) [
        | inl y ↦
            rw y
              (map-All _ (λ a n e. n (sym (same x) ∙ e)) here, set_where-IsDistinct p f xs same h.1)
        | inr n ↦ rw n (here, set_where-IsDistinct p f xs same h.1)
      ]

  -- At most one row gets a key, which no row has.
  pub fresh-IsDistinct :
      (p : A → Bool) (f : A → A) (k : K) (xs : List A)
      → ((a : A) → key (f a) ≡ k)
      → All (λ a. key a ≢ k) xs
      → AtMostOne p xs
      → IsDistinct key xs
      → IsDistinct key (set_where p f xs)
  unfolding set_where
  fresh-IsDistinct p f k [] same new one h = tt
  fresh-IsDistinct p f k (x ∷ xs) same new one h = elim (Bool-cases (p x)) [
    | inl y ↦
        rw (y, set_where-none p f xs (one.0 y))
          (map-All xs (λ a n e. n (sym e ∙ same x)) new.1, h.1)
    | inr n ↦ rw n (
      set_where-All _ p f xs h.0 (λ a y different e. new.0 (e ∙ same a)),
      fresh-IsDistinct p f k xs same new.1 one.1 h.1,
    )
  ]

  pub one-AtMostOne :
      (p : A → Bool) (k : K) (xs : List A)
      → ((a : A) → p a ≡ true → key a ≡ k)
      → IsDistinct key xs
      → AtMostOne p xs
  one-AtMostOne p k [] only h = tt
  one-AtMostOne p k (x ∷ xs) only h = (
    λ y.
        map-All xs
          (λ a n. elim (Bool-cases (p a)) [
            | inl t ↦ absurd (n (only x y ∙ sym (only a t)))
            | inr f ↦ f
          ])
          h.0,
    one-AtMostOne p k xs only h.1,
  )
