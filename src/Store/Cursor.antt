-- ===== src/Store/Cursor.antt =====
-- internal/store/cursor.go: the opaque page tokens. A token is a list of bytes.
pub mod RoundTrip
pub mod Order
use rize_backend.Base.{
  ℕ, zero, suc, ◌+◌, ◌-◌, ◌*◌, ◌/◌, ◌%◌, ◌^◌, ◌≤◌, ◌<◌, String, ◌≡◌, refl, sym, ap, ◌∙◌, ◌≢◌, ◌↔◌,
  ◌⊎◌, inl, inr, Bool, true, false, not, ◌&&◌, ◌||◌, Option, none, some, List, [], ◌∷◌, ◌++◌, map,
  arith, ltb, leb, ◌==◌, if◌then◌else◌, ltb→lt, lt→ltb, ltb-false→le, le→ltb-false, leb→le, ==_iff,
  Bool-cases, Option-cases, length, take, drop, keep, any, All, last?, length-append,
  take-append-drop, length-take, length-drop, sum,
}
use rize_backend.Store.Base64.{Bytes, encode, decode}
use rize_backend.Store.Decimal.{print, parse_uint, parse_nonnegative_int}

infixl 5 ◌>>=◌
abbrev ◌>>=◌ {ℓ κ} : {A : Type ℓ} {B : Type κ} → Option A → (A → Option B) → Option B
none >>= k = none
some a >>= k = k a

pub encode_cursor : ℕ → Bytes
encode_cursor server_seq = encode (print server_seq)

-- `none` is an error.
unfoldable pub decode_cursor : Bytes → Option ℕ
decode_cursor [] = some 0
decode_cursor (c ∷ cs) = do raw ← decode (c ∷ cs); parse_nonnegative_int raw

pub record PullCursor : Type 0 where
  pub xid8 : ℕ
  pub server_seq : ℕ

abbrev pub zero_cursor : PullCursor
zero_cursor = record { xid8 = 0; server_seq = 0 }

unfoldable pub is_zero : PullCursor → Bool
is_zero c = c.xid8 == 0 && c.server_seq == 0

unfoldable pub less : PullCursor → PullCursor → Bool
less c other =
    if not (c.xid8 == other.xid8) then ltb c.xid8 other.xid8 else ltb c.server_seq other.server_seq

pub encode_pull_cursor : PullCursor → Bytes
encode_pull_cursor c = encode (print c.xid8 ++ b':' ∷ print c.server_seq)

-- strings.SplitN(s, ":", 2): the parts around the first colon, if there is one.
unfoldable pub split_colon : Bytes → Option (Bytes × Bytes)
split_colon [] = none
split_colon (c ∷ cs) =
    let rest = split_colon cs in
    if c == b':' then some ([], cs) else rest >>= λ p. some (c ∷ p.0, p.1)

unfoldable pub decode_pull_cursor : Bytes → Option PullCursor
unfolding split_colon
decode_pull_cursor [] = some zero_cursor
decode_pull_cursor (c ∷ cs) = do
  raw ← decode (c ∷ cs)
  parts ← split_colon raw
  xid8 ← parse_uint parts.0
  seq ← parse_nonnegative_int parts.1
  some (record { xid8 = xid8; server_seq = seq })

-- `LimitParam`, for a nonnegative argument.
unfoldable pub limit_param : ℕ → ℕ
limit_param n = if ltb n 1 then 1 else if ltb (2 ^ 31 - 1) n then 2 ^ 31 - 1 else n
