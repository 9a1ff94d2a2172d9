-- ===== src/Entities/Reads.antt =====
-- The requests that read, as the services share them.
pub mod Walked
use rize_backend.Base.{ℕ, ◌+◌, String, Bool, Option, List}
use rize_backend.Base.Result.{Result, ok, ◌>>=◌, ◌>>◌, or_fail}
use rize_backend.Store.Base64.{Bytes}
use rize_backend.Store.Cursor.{encode_cursor, decode_cursor, limit_param}
use rize_backend.Store.Paging.{Page, clamp_limit, cut_page}
use rize_backend.Store.Query.{one}
use rize_backend.Entities.{
  Env, EntityError, not_found, validation, authenticated, path_id, lookup_error, map_error,
  succeeds, get_row, list_rows,
}
use rize_backend.Entities.Rows.{Entity, Table, select_page}

abbrev pub default_list_limit : ℕ
default_list_limit = 50

abbrev pub max_list_limit : ℕ
max_list_limit = 200

-- The page size for a request's `limit`.
pub page_size : ℕ → ℕ
page_size raw_limit = clamp_limit default_list_limit max_list_limit raw_limit

-- GET of one row: what a lookup finds for the caller.
unfoldable pub get_entity :
    {A : Type 0}
    → Env
    → String
    → (String → String → Table A → Option A)
    → String
    → String
    → Table A
    → Result EntityError A
get_entity env what pick user_id id t = do
  uid ← authenticated env user_id
  rid ← path_id env id
  map_error (lookup_error not_found what) (one (env.faults get_row) (pick uid rid t))

module _ {A : Type 0} (e : Entity A) where
  abbrev pub to_page : ℕ → ℕ → List A → Page A ℕ
  to_page cursor limit fetched = cut_page e.server_seq cursor limit fetched

  abbrev pub with_token : Page A ℕ → Page A Bytes
  with_token p = record {
    rows = p.rows;
    next_cursor = encode_cursor p.next_cursor;
    has_more = p.has_more;
  }

  -- GET of a page, with an opaque cursor.
  pub list_entities :
      Env
      → String
      → (String → A → Bool)
      → String
      → Bytes
      → ℕ
      → Table A
      → Result EntityError (Page A Bytes)
  unfolding page_size
  list_entities env what visible user_id raw_cursor raw_limit t = do
    uid ← authenticated env user_id
    cursor ← or_fail (decode_cursor raw_cursor) (validation "invalid cursor")
    succeeds (env.faults list_rows) what
    ok (
        with_token (
          to_page cursor (page_size raw_limit)
            (select_page e (visible uid) cursor (limit_param (page_size raw_limit + 1)) t)))
