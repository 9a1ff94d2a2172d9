-- ===== src/Entities/Reads/Walked.antt =====
-- A client that follows next_cursor through a list endpoint until has_more is false.
use rize_backend.Base.{
  ℕ, zero, suc, ◌+◌, ◌^◌, ◌≤◌, ◌<◌, String, ◌≡◌, refl, ap, ◌∙◌, Bool, List, [], ◌++◌, arith, ltb,
  lt→ltb, if◌then◌else◌, keep, All, Option, none, some, length,
}
use rize_backend.Base.Result.{Result, ok, err}
use rize_backend.Store.Base64.{Bytes}
use rize_backend.Store.Cursor.{encode_cursor, decode_cursor, limit_param}
use rize_backend.Store.Cursor.RoundTrip.{decode_cursor-encode_cursor}
use rize_backend.Store.Paging.{Page, clamp_limit, next_position}
use rize_backend.Store.Paging.Keyset.{IsSorted, after, keep-All as kept_whole}
use rize_backend.Store.Paging.Walk.{walk, walk_all, page, next-cut_page}
use rize_backend.Entities.{Env, EntityError, list_rows}
use rize_backend.Entities.Rows.{Entity, Table, by_seq}
use rize_backend.Entities.Rows.Written.{IsValid}
use rize_backend.Store.Paging.Sorting.{
  map-All, ltb-IsStrictOrder, ltb_total, keep-All, take-All, last-All, keep-IsDistinct, sort_by-All,
  sort_by-IsSorted,
}
use rize_backend.Entities.Reads.{page_size, list_entities, with_token}

-- The size of a page is positive, and fits the query's parameter.
page_size-bounds :
    (raw : ℕ) → (0 < page_size raw) × (limit_param (page_size raw + 1) ≡ page_size raw + 1)
unfolding page_size clamp_limit limit_param
page_size-bounds raw = ground arith

module _ {A : Type 0} (e : Entity A) (env : Env) (what : String) (visible : String → A → Bool)
    (user_id : String) (raw_limit : ℕ) (t : Table A) where
  abbrev request : Bytes → Result EntityError (Page A Bytes)
  request cursor = list_entities e env what visible user_id cursor raw_limit t

  abbrev and_then : Result EntityError (Page A Bytes) → (Bytes → Option (List A)) → Option (List A)
  and_then (err x) next = none
  and_then (ok p) next =
      let rest = next p.next_cursor in
      if p.has_more
      then elim rest [ none ↦ none | some rows ↦ some (p.rows ++ rows) ]
      else some p.rows

  -- `none` if a request fails or there are more pages than the bound.
  abbrev pub list_all : ℕ → Bytes → Option (List A)
  list_all zero cursor = none
  list_all (suc bound) cursor = and_then (request cursor) (list_all bound)

  module _ (P : A → Type 0) (v : IsValid e P t) (uid : String)
      (known : env.parse_uuid user_id ≡ some uid) (healthy : env.faults list_rows ≡ none)
      (small : t.last_seq < 2 ^ 63) where
    -- What there is to list.
    abbrev listed : List A
    listed = by_seq e (keep (visible uid) t.rows)

    listed-IsSorted : IsSorted e.server_seq ltb listed
    listed-IsSorted =
        sort_by-IsSorted e.server_seq ltb ltb-IsStrictOrder ltb_total _
          (keep-IsDistinct e.server_seq (visible uid) t.rows v.seqs)

    listed-bounds : All (λ a. (0 < e.server_seq a) × (e.server_seq a ≤ t.last_seq)) listed
    listed-bounds = sort_by-All e.server_seq ltb _ _ (keep-All _ (visible uid) t.rows v.bounded)

    request-page :
        (raw : Bytes) (c : ℕ)
        → decode_cursor raw ≡ some c
        → request raw ≡ ok (with_token e (page e.server_seq ltb listed (page_size raw_limit) c))
    unfolding list_entities
    request-page raw c h = rw (known, h, healthy, (page_size-bounds raw_limit).1) refl

    small_seq :
        (a : A) → (0 < e.server_seq a) × (e.server_seq a ≤ t.last_seq) → e.server_seq a < 2 ^ 63
    small_seq a h = omega (arith, h.1, small)

    position-bound :
        (c : ℕ) (o : Option A)
        → c < 2 ^ 63
        → ((a : A) → o ≡ some a → e.server_seq a < 2 ^ 63)
        → next_position e.server_seq c o < 2 ^ 63
    unfolding next_position
    position-bound c none h k = h
    position-bound c (some a) h k = k a refl

    next-bound :
        (c : ℕ)
        → c < 2 ^ 63
        → (page e.server_seq ltb listed (page_size raw_limit) c).next_cursor < 2 ^ 63
    next-bound c h =
        rw
          (next-cut_page e.server_seq c (page_size raw_limit)
            (keep (after e.server_seq ltb c) listed))
          (position-bound c _ h (λ a last. small_seq a (
            last-All _ _ a last (
              take-All _ (page_size raw_limit) _
                (keep-All _ (after e.server_seq ltb c) listed listed-bounds)))))

    -- The client sees the pages of the walk over the rows in order.
    list_all-walk :
        (bound : ℕ) (raw : Bytes) (c : ℕ)
        → decode_cursor raw ≡ some c
        → c < 2 ^ 63
        → list_all bound raw ≡ walk e.server_seq ltb bound listed (page_size raw_limit) c
    list_all-walk zero raw c h k = refl
    list_all-walk (suc bound) raw c h k =
        let next = (page e.server_seq ltb listed (page_size raw_limit) c).next_cursor in
        let later =
          list_all-walk bound (encode_cursor next) next
            (decode_cursor-encode_cursor next (next-bound c k)) (next-bound c k) in
        ap (λ r. and_then r (list_all bound)) (request-page raw c h) ∙ rw later refl

    -- While its statement does not fail: a client that calls a listing endpoint from the empty
    -- cursor, with any limit, and follows the opaque next_cursor until has_more is false, gets
    -- within as many requests as there are visible rows and one more exactly these rows, once
    -- each, in the order of their server_seq. This is of any entity, in a well-formed table whose
    -- server_seqs are below 2 ^ 63.
    pub list_all-listed : (bound : ℕ) → length listed < bound → list_all bound [] ≡ some listed
    unfolding decode_cursor
    list_all-listed bound h =
        let whole : keep (after e.server_seq ltb 0) listed ≡ listed =
          kept_whole _ listed
            (map-All listed (λ a b. lt→ltb 0 (e.server_seq a) b.0) listed-bounds) in
        list_all-walk bound [] 0 refl (omega arith)
        ∙ walk_all e.server_seq ltb ltb-IsStrictOrder listed listed-IsSorted (page_size raw_limit)
            (page_size-bounds raw_limit).0 bound 0 (omega (arith, ap length whole))
        ∙ ap some whole
