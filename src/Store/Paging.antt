-- ===== src/Store/Paging.antt =====
-- Keyset pagination, as every list endpoint of the server does it: the query fetches one row more
-- than the page holds, the extra row tells whether there are more, and the next cursor is the key
-- of the last row of the page.
pub mod Keyset
pub mod Walk
pub mod Sorting
use rize_backend.Base.{
  ℕ, zero, suc, ◌+◌, ◌-◌, ◌*◌, ◌/◌, ◌%◌, ◌^◌, ◌≤◌, ◌<◌, String, ◌≡◌, refl, sym, ap, ◌∙◌, ◌≢◌, ◌↔◌,
  ◌⊎◌, inl, inr, Bool, true, false, not, ◌&&◌, ◌||◌, Option, none, some, List, [], ◌∷◌, ◌++◌, map,
  arith, ltb, leb, ◌==◌, if◌then◌else◌, ltb→lt, lt→ltb, ltb-false→le, le→ltb-false, leb→le, ==_iff,
  Bool-cases, Option-cases, length, take, drop, keep, any, All, last?, length-append,
  take-append-drop, length-take, length-drop, sum,
}

-- limit := rawLimit; a limit that is not positive becomes the default, and a large one the maximum.
unfoldable pub clamp_limit : ℕ → ℕ → ℕ → ℕ
clamp_limit default_limit max_limit raw_limit =
    let limit = if leb raw_limit 0 then default_limit else raw_limit in
    if ltb max_limit limit then max_limit else limit

pub record Page {ℓ} (A K : Type ℓ) : Type ℓ where
  pub rows : List A
  pub next_cursor : K
  pub has_more : Bool

unfoldable pub next_position {ℓ} : {A K : Type ℓ} → (A → K) → K → Option A → K
next_position key cursor none = cursor
next_position key cursor (some last) = key last

-- What the code does with the rows that a query for `limit + 1` rows returned.
unfoldable pub cut_page {ℓ} : {A K : Type ℓ} → (A → K) → K → ℕ → List A → Page A K
unfolding next_position
cut_page key cursor limit fetched =
    let has_more = ltb limit (length fetched) in
    let rows = if has_more then take limit fetched else fetched in
    record { rows = rows; next_cursor = next_position key cursor (last? rows); has_more = has_more }
