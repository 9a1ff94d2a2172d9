-- ===== src/Store/Decimal.antt =====
-- Decimal numbers, as `strconv` prints and reads them.
pub mod RoundTrip
use rize_backend.Base.{
  ℕ, zero, suc, ◌+◌, ◌-◌, ◌*◌, ◌/◌, ◌%◌, ◌^◌, ◌≤◌, ◌<◌, String, ◌≡◌, refl, sym, ap, ◌∙◌, ◌≢◌, ◌↔◌,
  ◌⊎◌, inl, inr, Bool, true, false, not, ◌&&◌, ◌||◌, Option, none, some, List, [], ◌∷◌, ◌++◌, map,
  arith, ltb, leb, ◌==◌, if◌then◌else◌, ltb→lt, lt→ltb, ltb-false→le, le→ltb-false, leb→le, ==_iff,
  Bool-cases, Option-cases, length, take, drop, keep, any, All, last?, length-append,
  take-append-drop, length-take, length-drop, sum,
}
use rize_backend.Store.Base64.{Bytes}

-- The first argument bounds the number of digits; `n` itself is enough.
digits : ℕ → ℕ → Bytes
digits zero n = (n % 10 + b'0') ∷ []
digits (suc fuel) n =
    let more = digits fuel (n / 10) ++ (n % 10 + b'0') ∷ [] in
    if ltb n 10 then (n % 10 + b'0') ∷ [] else more

-- strconv.FormatInt(n, 10) for n ≥ 0, and fmt's %d
unfoldable pub print : ℕ → Bytes
unfolding digits
print n = digits n n

is_digit : ℕ → Bool
is_digit c = leb b'0' c && leb c b'9'

read_digits : ℕ → Bytes → Option ℕ
unfolding is_digit
read_digits acc [] = some acc
read_digits acc (c ∷ cs) =
    let rest = read_digits (acc * 10 + (c - b'0')) cs in if is_digit c then rest else none

read : Bytes → Option ℕ
unfolding read_digits
read [] = none
read (c ∷ cs) = read_digits 0 (c ∷ cs)

below : ℕ → Option ℕ → Option ℕ
below bound none = none
below bound (some n) = if ltb n bound then some n else none

-- strconv.ParseUint(s, 10, 64)
unfoldable pub parse_uint : Bytes → Option ℕ
unfolding read below
parse_uint s = below (2 ^ 64) (read s)

-- strconv.ParseInt(s, 10, 64), followed by the callers' refusal of negative numbers.
unfoldable pub parse_nonnegative_int : Bytes → Option ℕ
unfolding read below
parse_nonnegative_int [] = none
parse_nonnegative_int (c ∷ cs) =
    if c == b'-'
    then below 1 (read cs)
    else if c == b'+'
    then below (2 ^ 63) (read cs)
    else below (2 ^ 63) (read (c ∷ cs))
