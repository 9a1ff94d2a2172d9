-- ===== src/Activities/Listing/Walked.antt =====
-- A client that follows next_cursor through the listing of events until has_more is false.
use rize_backend.Base.{
  ℕ, zero, suc, ◌+◌, ◌≤◌, ◌<◌, String, ◌≡◌, refl, sym, ap, ◌∙◌, inl, inr, Bool, true, List, [], ◌∷◌,
  ◌++◌, arith, ◌≢◌, eq_iff, if◌then◌else◌, Bool-cases, keep, take, All, Option, none, some, last?,
  length,
}
use rize_backend.Base.Result.{Result, ok, err}
use rize_backend.Store.Base64.{Bytes}
use rize_backend.Store.Cursor.{limit_param}
use rize_backend.Store.Paging.{Page, clamp_limit, cut_page, next_position}
use rize_backend.Store.Paging.Keyset.{IsSorted, after}
use rize_backend.Store.Paging.Walk.{walk, walk_all, page, rows-page}
use rize_backend.Store.Paging.Sorting.{
  IsDistinct, keep-All, take-All, last-All, sort_by-All, sort_by-IsSorted,
}
use rize_backend.Activities.{ActivityEvent, Position, ActivityError, Env}
use rize_backend.Activities.Cursor.{earlier, zero_cursor, decode_position}
use rize_backend.Activities.Cursor.RoundTrip.{IsEncodable, decode_position-encode_position}
use rize_backend.Activities.Cursor.Order.{earlier-IsStrictOrder, earlier_total}
use rize_backend.Activities.Listing
use rize_backend.Activities.Listing.{
  Selection, ListParams, is_selected, position, in_order, page_size, to_page, list_request,
  events_page, list,
}

page_size-bounds :
    (raw : ℕ) → (0 < page_size raw) × (limit_param (page_size raw + 1) ≡ page_size raw + 1)
unfolding clamp_limit limit_param
page_size-bounds raw = ground arith

length-keep : {A : Type 0} (p : A → Bool) (xs : List A) → length (keep p xs) ≤ length xs
length-keep p [] = omega arith
length-keep p (x ∷ xs) = ground (arith, length-keep p xs)

-- PRIMARY KEY (user_id, started_at, event_id)
pub record PrimaryKey : Type 0 where
  pub user_id : String
  pub at : Position

abbrev pub primary_key : ActivityEvent → PrimaryKey
primary_key a = record { user_id = a.user_id; at = position a }

same_key :
    (x y : ActivityEvent) (uid : String)
    → x.user_id ≡ uid
    → y.user_id ≡ uid
    → position x ≡ position y
    → primary_key x ≡ primary_key y
same_key x y uid h k same = rw (h, k, same) refl

-- Of one user's events, no two are at the same position.
position-IsDistinct :
    (uid : String) (p : ActivityEvent → Bool) (xs : List ActivityEvent)
    → ((a : ActivityEvent) → p a ≡ true → a.user_id ≡ uid)
    → IsDistinct primary_key xs
    → IsDistinct position (keep p xs)
position-IsDistinct uid p [] owned h = tt
position-IsDistinct uid p (x ∷ xs) owned h = elim (Bool-cases (p x)) [
  | inl y ↦ rw y (others x xs (owned x y) h.0, position-IsDistinct uid p xs owned h.1)
  | inr n ↦ rw n (position-IsDistinct uid p xs owned h.1)
]
  where
    others :
        (x : ActivityEvent) (ys : List ActivityEvent)
        → x.user_id ≡ uid
        → All (λ y. primary_key x ≢ primary_key y) ys
        → All (λ y. position x ≢ position y) (keep p ys)
    others x [] mine n = tt
    others x (y ∷ ys) mine n = elim (Bool-cases (p y)) [
      | inl k ↦ rw k ((λ same. n.0 (same_key x y uid mine (owned y k) same)), others x ys mine n.1)
      | inr k ↦ rw k (others x ys mine n.1)
    ]

is_selected-user_id :
    (s : Selection) (a : ActivityEvent) → is_selected s a ≡ true → a.user_id ≡ s.user_id
unfolding is_selected
is_selected-user_id s a h = ground (arith, eq_iff a.user_id s.user_id)

module _ (env : Env) (user_id : String) (p : ListParams) (raw_limit : ℕ) where
  abbrev request : Bytes → Result ActivityError (Page ActivityEvent Bytes)
  request cursor = list env user_id p cursor raw_limit

  abbrev and_then :
      Result ActivityError (Page ActivityEvent Bytes)
      → (Bytes → Option (List ActivityEvent))
      → Option (List ActivityEvent)
  and_then (err x) next = none
  and_then (ok p) next =
      let rest = next p.next_cursor in
      if p.has_more
      then elim rest [ none ↦ none | some rows ↦ some (p.rows ++ rows) ]
      else some p.rows

  -- `none` if a request fails or there are more pages than the bound.
  abbrev pub list_all : ℕ → Bytes → Option (List ActivityEvent)
  list_all zero cursor = none
  list_all (suc bound) cursor = and_then (request cursor) (list_all bound)

  module _ (s : Selection) (accepted : list_request env user_id p ≡ ok s)
      (events : List ActivityEvent) (readable : env.events ≡ some events)
      (distinct : IsDistinct primary_key events)
      (encodable : All (λ a. IsEncodable env (position a)) events) where
    -- The rows of the listing, in order.
    abbrev listed : List ActivityEvent
    listed = in_order (keep (is_selected s) events)

    listed-IsSorted : IsSorted position earlier listed
    listed-IsSorted =
        sort_by-IsSorted position earlier earlier-IsStrictOrder earlier_total _
          (position-IsDistinct s.user_id (is_selected s) events (is_selected-user_id s) distinct)

    listed-All : All (λ a. IsEncodable env (position a)) listed
    listed-All = sort_by-All position earlier _ _ (keep-All _ (is_selected s) events encodable)

    abbrev at : Position → Page ActivityEvent Position
    at c = page position earlier listed (page_size raw_limit) c

    -- The page that a request returns, but for its token.
    abbrev answer : Bytes → Position → Page ActivityEvent Bytes
    answer raw c =
        to_page env raw (page_size raw_limit)
          (take (page_size raw_limit + 1) (keep (after position earlier c) listed))

    request-answer :
        (raw : Bytes) (c : Position)
        → decode_position env raw ≡ some c
        → request raw ≡ ok (answer raw c)
    unfolding list events_page
    request-answer raw c h = rw (accepted, h, readable, (page_size-bounds raw_limit).1) refl

    token_of :
        (raw : Bytes) (c : Position) (o : Option ActivityEvent)
        → decode_position env raw ≡ some c
        → ((a : ActivityEvent) → o ≡ some a → IsEncodable env (position a))
        → decode_position env (Listing.next_token env raw o) ≡ some (next_position position c o)
    unfolding next_position
    token_of raw c none h k = h
    token_of raw c (some a) h k = decode_position-encode_position env (position a) (k a refl)

    -- The token decodes to where the walk goes on.
    token-next :
        (raw : Bytes) (c : Position)
        → decode_position env raw ≡ some c
        → decode_position env (answer raw c).next_cursor ≡ some (at c).next_cursor
    unfolding cut_page
    token-next raw c h = token_of raw c (last? (answer raw c).rows) h (λ a last.
        last-All (λ a. IsEncodable env (position a))
          (take (page_size raw_limit) (keep (after position earlier c) listed)) a
          (sym (ap last? (rows-page position earlier listed (page_size raw_limit) c)) ∙ last)
          (take-All _ (page_size raw_limit) _
            (keep-All _ (after position earlier c) listed listed-All)))

    list_all-walk :
        (bound : ℕ) (raw : Bytes) (c : Position)
        → decode_position env raw ≡ some c
        → list_all bound raw ≡ walk position earlier bound listed (page_size raw_limit) c
    unfolding cut_page
    list_all-walk zero raw c h = refl
    list_all-walk (suc bound) raw c h =
        let later =
          list_all-walk bound (answer raw c).next_cursor (at c).next_cursor (token-next raw c h) in
        ap (λ r. and_then r (list_all bound)) (request-answer raw c h) ∙ rw later refl

    -- For an accepted request, while the events can be read: a client that calls the listing of
    -- activity events from the empty cursor, with any limit, and follows the opaque next_cursor
    -- until has_more is false, gets within as many requests as there are selected events and one
    -- more, in the order of their start and id, exactly the selected events after the zero
    -- cursor. This is of a table with its primary key, whose selected and other events have times
    -- within 2 ^ 63 nanoseconds of 1970 and ids that are read back as they are printed.
    pub list_all-in_order :
        (bound : ℕ)
        → length listed < bound
        → list_all bound [] ≡ some (keep (after position earlier zero_cursor) listed)
    unfolding decode_position
    list_all-in_order bound h =
        list_all-walk bound [] zero_cursor refl
        ∙ walk_all position earlier earlier-IsStrictOrder listed listed-IsSorted
            (page_size raw_limit) (page_size-bounds raw_limit).0 bound zero_cursor
            (omega (arith, h, length-keep (after position earlier zero_cursor) listed))
