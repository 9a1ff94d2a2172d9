-- ===== src/Store/Paging/Keyset.antt =====
-- Rows in the strict order of their keys, and the rows after a key.
use rize_backend.Base.{
  ℕ, zero, suc, ◌≡◌, refl, sym, ap, inl, inr, Bool, true, false, some, List, [], ◌∷◌, ◌++◌, arith,
  Bool-cases, take, drop, keep, All, last?,
}

pub record IsStrictOrder {K : Type 0} (lt : K → K → Bool) : Type 0 where
  pub irreflexive : (a : K) → lt a a ≡ false
  pub transitive : (a b c : K) → lt a b ≡ true → lt b c ≡ true → lt a c ≡ true

module _ {A : Type 0} (p : A → Bool) where
  pub keep-All : (xs : List A) → All (λ x. p x ≡ true) xs → keep p xs ≡ xs
  keep-All [] h = refl
  keep-All (x ∷ xs) h = rw (h.0, keep-All xs h.1)

module _ {A K : Type 0} (key : A → K) (lt : K → K → Bool) where
  -- Each key is below all later ones.
  abbrev pub IsSorted : List A → Type 0
  IsSorted [] = Unit
  IsSorted (x ∷ xs) = All (λ y. lt (key x) (key y) ≡ true) xs × IsSorted xs

  abbrev pub after : K → A → Bool
  after c x = lt c (key x)

  module _ (order : IsStrictOrder lt) where
    All-after :
        (c : K) (x : A) (xs : List A)
        → lt c (key x) ≡ true
        → All (λ y. lt (key x) (key y) ≡ true) xs
        → All (λ y. lt c (key y) ≡ true) xs
    All-after c x [] h k = tt
    All-after c x (y ∷ ys) h k = (order.transitive _ _ _ h k.0, All-after c x ys h k.1)

    All-middle : (P : A → Type 0) (xs : List A) (x : A) (ys : List A) → All P (xs ++ x ∷ ys) → P x
    All-middle P [] x ys h = h.0
    All-middle P (y ∷ xs) x ys h = All-middle P xs x ys h.1

    not_after : (x y : A) → lt (key y) (key x) ≡ true → lt (key x) (key y) ≡ false
    not_after x y h = elim (Bool-cases (lt (key x) (key y))) [
      | inl e ↦ cc (order.transitive _ _ _ e h, order.irreflexive (key x))
      | inr e ↦ e
    ]

    pub keep-after :
        (xs : List A) (x : A) (ys : List A)
        → IsSorted (xs ++ x ∷ ys)
        → keep (after (key x)) (xs ++ x ∷ ys) ≡ ys
    keep-after [] x ys h = rw (order.irreflexive (key x)) (keep-All (after (key x)) ys h.0)
    keep-after (y ∷ xs) x ys h =
        rw (not_after x y (All-middle _ xs x ys h.0)) (keep-after xs x ys h.1)

    -- The rows after a cursor are a tail of the table.
    pub keep_suffix :
        (c : K) (rows : List A)
        → IsSorted rows
        → (pre : List A) × (rows ≡ pre ++ keep (after c) rows)
    keep_suffix c [] h = ([], refl)
    keep_suffix c (x ∷ rows) h = elim (Bool-cases (lt c (key x))) [
      | inl e ↦ ([], rw e (ap (◌∷◌ x) (sym (keep-All (after c) rows (All-after c x rows e h.0)))))
      | inr e ↦ let (pre, same) = keep_suffix c rows h.1 in (x ∷ pre, rw e (ap (◌∷◌ x) same))
    ]

    pub last_splits :
        (n : ℕ) (m : List A) (x : A)
        → last? (take n m) ≡ some x
        → (pre : List A) × (m ≡ pre ++ x ∷ drop n m)
    last_splits zero m x e = cc
    last_splits (suc n) [] x e = cc
    last_splits (suc zero) (y ∷ m) x e = ([], ground arith)
    last_splits (suc (suc n)) (y ∷ []) x e = ([], ground arith)
    last_splits (suc (suc n)) (y ∷ z ∷ m) x e =
        let (pre, same) = last_splits (suc n) (z ∷ m) x e in (y ∷ pre, ap (◌∷◌ y) same)
