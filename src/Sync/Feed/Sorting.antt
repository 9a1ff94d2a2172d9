-- ===== src/Sync/Feed/Sorting.antt =====
-- The feed's rows in ascending order, and what a page cut from them leaves for later.
use rize_backend.Base.{
  ℕ, zero, suc, ◌≡◌, sym, ◌⊎◌, inl, inr, some, List, [], ◌∷◌, arith, Bool-cases, take, drop, last?,
  take-append-drop, In, In_of_take, In_of_append,
}
use mathlib.Core.Path.{subst}
use rize_backend.Store.Cursor.{less}
use rize_backend.Store.Cursor.Order.{Reached, Reached-trans, Reached-of_less, Reached-antisym}
use rize_backend.Sync.Changelog.{Entry, position}
use rize_backend.Sync.Feed.{insert_entry, sort_entries}

pub In-insert_entry : (a e : Entry) (es : List Entry) → In a (e ∷ es) → In a (insert_entry e es)
unfolding insert_entry
In-insert_entry a e [] m = m
In-insert_entry a e (f ∷ fs) m = ground (arith, In-insert_entry a e fs)

pub In_of_insert_entry : (a e : Entry) (es : List Entry) → In a (insert_entry e es) → In a (e ∷ es)
unfolding insert_entry
In_of_insert_entry a e [] m = m
In_of_insert_entry a e (f ∷ fs) m = ground (arith, In_of_insert_entry a e fs)

pub In-sort_entries : (a : Entry) (es : List Entry) → In a es → In a (sort_entries es)
unfolding sort_entries
In-sort_entries a [] m = m
In-sort_entries a (e ∷ es) (inl same) = In-insert_entry a e (sort_entries es) (inl same)
In-sort_entries a (e ∷ es) (inr m) =
    In-insert_entry a e (sort_entries es) (inr (In-sort_entries a es m))

pub In_of_sort_entries : (a : Entry) (es : List Entry) → In a (sort_entries es) → In a es
unfolding sort_entries
In_of_sort_entries a [] m = m
In_of_sort_entries a (e ∷ es) m =
    ground (arith, In_of_insert_entry a e (sort_entries es), In_of_sort_entries a es)

-- In order, where two entries may share a position.
abbrev pub Ordered : List Entry → Type 0
Ordered [] = Unit
Ordered (e ∷ es) = ((f : Entry) → In f es → Reached (position f) (position e)) × Ordered es

pub insert_entry-Ordered : (e : Entry) (es : List Entry) → Ordered es → Ordered (insert_entry e es)
unfolding insert_entry
insert_entry-Ordered e [] h = ((λ f m. absurd m), tt)
insert_entry-Ordered e (g ∷ gs) h = elim (Bool-cases (less (position g) (position e))) [
  | inl y ↦ rw y (
    (λ f m. lower f (In_of_insert_entry f e gs m) (Reached-of_less (position e) (position g) y)),
    insert_entry-Ordered e gs h.1,
  )
  | inr n ↦ rw n ((λ f m. upper f m n), h)
]
  where
    lower :
        (f : Entry)
        → In f (e ∷ gs)
        → Reached (position e) (position g)
        → Reached (position f) (position g)
    lower f (inl same) r = rw same r
    lower f (inr m) r = h.0 f m

    upper :
        (f : Entry)
        → In f (g ∷ gs)
        → Reached (position g) (position e)
        → Reached (position f) (position e)
    upper f (inl same) r = rw same r
    upper f (inr m) r = Reached-trans (position f) (position g) (position e) (h.0 f m) r

pub sort_entries-Ordered : (es : List Entry) → Ordered (sort_entries es)
unfolding sort_entries
sort_entries-Ordered [] = tt
sort_entries-Ordered (e ∷ es) = insert_entry-Ordered e (sort_entries es) (sort_entries-Ordered es)

-- No two entries share a position: `server_seq` is drawn from one sequence.
abbrev pub HasUniquePositions : List Entry → Type 0
HasUniquePositions entries =
    (e f : Entry) → In e entries → In f entries → e.server_seq ≡ f.server_seq → e ≡ f

pub In-last : (n : ℕ) (m : List Entry) (x : Entry) → last? (take n m) ≡ some x → In x (take n m)
In-last zero m x h = cc
In-last (suc n) [] x h = cc
In-last (suc zero) (y ∷ m) x h = ground arith
In-last (suc (suc n)) (y ∷ []) x h = ground arith
In-last (suc (suc n)) (y ∷ z ∷ m) x h = inr (In-last (suc n) (z ∷ m) x h)

pub In_of_drop : (n : ℕ) (m : List Entry) (e : Entry) → In e (drop n m) → In e m
In_of_drop zero m e h = h
In_of_drop (suc n) [] e h = h
In_of_drop (suc n) (y ∷ m) e h = inr (In_of_drop n m e h)

pub some_eq : (y x : Entry) → some y ≡ some x → y ≡ x
some_eq y x h = cc

pub dropped_later :
    (n : ℕ) (m : List Entry) (x e : Entry)
    → Ordered m
    → last? (take n m) ≡ some x
    → In e (drop n m)
    → Reached (position e) (position x)
dropped_later zero m x e o h d = cc
dropped_later (suc n) [] x e o h d = absurd d
dropped_later (suc zero) (y ∷ m) x e o h d =
    subst (λ w. Reached (position e) (position w)) (some_eq y x h) (o.0 e d)
dropped_later (suc (suc n)) (y ∷ []) x e o h d = absurd d
dropped_later (suc (suc n)) (y ∷ z ∷ m) x e o h d = dropped_later (suc n) (z ∷ m) x e o.1 h d

-- An entry up to the last one of a page is on the page.
pub taken :
    (n : ℕ) (m : List Entry) (x e : Entry)
    → Ordered m
    → HasUniquePositions m
    → last? (take n m) ≡ some x
    → In e m
    → Reached (position x) (position e)
    → In e (take n m)
taken n m x e o unique h i r =
    by_side (In_of_append e (take n m) (drop n m) (subst (In e) (sym (take-append-drop n m)) i))
  where
    by_side : In e (take n m) ⊎ In e (drop n m) → In e (take n m)
    by_side (inl t) = t
    by_side (inr d) =
        let same =
          unique x e (In_of_take n x m (In-last n m x h)) i
            (Reached-antisym (position x) (position e) r (dropped_later n m x e o h d)).1 in
        subst (λ y. In y (take n m)) same (In-last n m x h)
