-- ===== src/Store/Paging/Walk.antt =====
-- Following `next_cursor` until `has_more` is false returns every row after the first cursor, once.
use rize_backend.Base.{
  ℕ, zero, suc, ◌+◌, ◌≤◌, ◌<◌, ◌≡◌, refl, sym, ap, ◌∙◌, inl, inr, Bool, Option, none, some, List,
  [], ◌∷◌, ◌++◌, arith, ltb, if◌then◌else◌, ltb→lt, ltb-false→le, Bool-cases, length, take, drop,
  keep, last?, take-append-drop, length-drop,
}
use mathlib.Core.Path.{subst}
use mathlib.Core.List.{append_assoc}
use native.Mathlib.Numerals.{add-one}
use rize_backend.Store.Paging.{Page, next_position, cut_page}
use rize_backend.Store.Paging.Keyset.{
  IsStrictOrder, IsSorted, after, keep_suffix, keep-after, last_splits,
}

module _ {A : Type 0} where
  pub take_of_le : (n : ℕ) (m : List A) → length m ≤ n → take n m ≡ m
  take_of_le zero [] h = refl
  take_of_le zero (x ∷ m) h = absurd (omega arith)
  take_of_le (suc n) [] h = refl
  take_of_le (suc n) (x ∷ m) h = ap (◌∷◌ x) (take_of_le n m (omega arith))

  drop_of_le : (n : ℕ) (m : List A) → length m ≤ n → drop n m ≡ []
  drop_of_le zero [] h = refl
  drop_of_le zero (x ∷ m) h = absurd (omega arith)
  drop_of_le (suc n) [] h = refl
  drop_of_le (suc n) (x ∷ m) h = drop_of_le n m (omega arith)

  pub take-take-suc : (n : ℕ) (m : List A) → take n (take (suc n) m) ≡ take n m
  take-take-suc zero m = refl
  take-take-suc (suc n) [] = refl
  take-take-suc (suc n) (x ∷ m) = ap (◌∷◌ x) (take-take-suc n m)

  pub more-take : (n : ℕ) (m : List A) → ltb n (length (take (suc n) m)) ≡ ltb n (length m)
  more-take zero [] = refl
  more-take zero (x ∷ m) = ground arith
  more-take (suc n) [] = refl
  more-take (suc n) (x ∷ m) = ground (arith, more-take n m)

  pub last?-eq-none : (n : ℕ) (m : List A) → 0 < n → last? (take n m) ≡ none → m ≡ []
  last?-eq-none zero m h e = absurd (omega arith)
  last?-eq-none (suc n) [] h e = refl
  last?-eq-none (suc zero) (x ∷ m) h e = cc
  last?-eq-none (suc (suc n)) (x ∷ []) h e = cc
  last?-eq-none (suc (suc n)) (x ∷ y ∷ m) h e = cc (last?-eq-none (suc n) (y ∷ m) (omega arith) e)

module _ {A K : Type 0} (key : A → K) (c : K) (limit : ℕ) (m : List A) where
  pub rows-cut_page : (cut_page key c limit (take (limit + 1) m)).rows ≡ take limit m
  unfolding cut_page
  rows-cut_page = rw add-one (elim (Bool-cases (ltb limit (length m))) [
    | inl e ↦ rw (more-take limit m, e, take-take-suc limit m)
    | inr e ↦ rw (
      more-take limit m,
      e,
      take_of_le (suc limit) m (ground arith),
      take_of_le limit m (ground arith),
    )
  ])

  pub has_more-cut_page :
      (cut_page key c limit (take (limit + 1) m)).has_more ≡ ltb limit (length m)
  unfolding cut_page
  has_more-cut_page = rw (add-one, more-take limit m)

  pub next-cut_page :
      (cut_page key c limit (take (limit + 1) m)).next_cursor
      ≡ next_position key c (last? (take limit m))
  unfolding cut_page
  next-cut_page = ap (λ rows. next_position key c (last? rows)) rows-cut_page

module _ {A K : Type 0} (key : A → K) (lt : K → K → Bool) where
  -- What the list queries do: WHERE key > cursor ORDER BY key LIMIT limit + 1.
  abbrev pub fetch : List A → ℕ → K → List A
  fetch table limit c = take (limit + 1) (keep (after key lt c) table)

  abbrev pub page : List A → ℕ → K → Page A K
  page table limit c = cut_page key c limit (fetch table limit c)

  -- The pages from a cursor on, put together; `none` if there are more pages than the bound.
  abbrev pub walk : ℕ → List A → ℕ → K → Option (List A)
  walk zero table limit c = none
  walk (suc bound) table limit c =
      let p = page table limit c in
      let rest = walk bound table limit p.next_cursor in
      if p.has_more
      then elim rest [ none ↦ none | some rows ↦ some (p.rows ++ rows) ]
      else some p.rows

  module _ (table : List A) (limit : ℕ) (c : K) where
    pub rows-page : (page table limit c).rows ≡ take limit (keep (after key lt c) table)
    rows-page = rows-cut_page key c limit (keep (after key lt c) table)

    pub has_more-page :
        (page table limit c).has_more ≡ ltb limit (length (keep (after key lt c) table))
    has_more-page = has_more-cut_page key c limit (keep (after key lt c) table)

    next-page :
        (page table limit c).next_cursor
        ≡ next_position key c (last? (take limit (keep (after key lt c) table)))
    next-page = next-cut_page key c limit (keep (after key lt c) table)

  module _ (order : IsStrictOrder lt) (table : List A) (sorted : IsSorted key lt table) (limit : ℕ)
      (positive : 0 < limit) where
    rest_from :
        (c : K) (o : Option A)
        → last? (take limit (keep (after key lt c) table)) ≡ o
        → keep (after key lt (next_position key c o)) table
          ≡ drop limit (keep (after key lt c) table)
    unfolding next_position
    rest_from c none e =
        let nothing = last?-eq-none limit _ positive e in
        rw (nothing, drop_of_le {A = A} limit [] (omega arith))
    rest_from c (some x) e =
        let (pre, m_same) = last_splits key lt order limit (keep (after key lt c) table) x e in
        let (before, t_same) = keep_suffix key lt order c table sorted in
        let whole : table ≡ (before ++ pre) ++ x ∷ drop limit (keep (after key lt c) table) =
          t_same ∙ ap (◌++◌ before) m_same ∙ sym (append_assoc before pre _) in
        ap (keep (after key lt (key x))) whole
        ∙ keep-after key lt order (before ++ pre) x _ (subst (IsSorted key lt) whole sorted)

    -- Nothing is skipped and nothing comes twice: what is after the next cursor is what is left.
    pub rest-page :
        (c : K)
        → keep (after key lt (page table limit c).next_cursor) table
          ≡ drop limit (keep (after key lt c) table)
    rest-page c = rw (next-page table limit c) (rest_from c _ refl)

    -- Over a table sorted by a strict order of its keys, at a positive limit: following
    -- `next_cursor` until `has_more` is false, with a bound on the pages above the number of rows
    -- after the first cursor, ends and returns exactly the rows after that cursor, in order.
    pub walk_all :
        (bound : ℕ) (c : K)
        → length (keep (after key lt c) table) < bound
        → walk bound table limit c ≡ some (keep (after key lt c) table)
    walk_all zero c h = absurd (omega arith)
    walk_all (suc bound) c h =
        elim (Bool-cases (ltb limit (length (keep (after key lt c) table)))) [
          | inl e ↦
              rw
                (
                  has_more-page table limit c,
                  e,
                  walk_all bound (page table limit c).next_cursor (
                      omega (
                        arith,
                        ap length (rest-page c),
                        length-drop limit (keep (after key lt c) table),
                        ltb→lt _ _ e,
                      )),
                )
                (ap some (
                  rw (rows-page table limit c, rest-page c)
                    (take-append-drop limit (keep (after key lt c) table))))
          | inr e ↦
              rw (has_more-page table limit c, e)
                (ap some (rows-page table limit c ∙ take_of_le limit _ (ltb-false→le _ _ e)))
        ]
