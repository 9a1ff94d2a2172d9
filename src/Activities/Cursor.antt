-- ===== src/Activities/Cursor.antt =====
-- internal/activities/cursor.go, which internal/reports/cursor.go repeats: base64 of a time in
-- nanoseconds since 1970, a colon and an event's id.
pub mod RoundTrip
pub mod Order
use rize_backend.Base.{
  ℕ, ◌+◌, ◌-◌, ◌*◌, ◌%◌, ◌^◌, Bool, ◌&&◌, ◌||◌, Option, none, some, List, [], ◌∷◌, ◌++◌, ltb, ◌==◌,
  if◌then◌else◌,
}
use rize_backend.Instant.{Time, second}
use rize_backend.Store.Base64.{Bytes, encode, decode}
use rize_backend.Store.Decimal.{print, parse_uint, parse_nonnegative_int}
use rize_backend.Store.Cursor.{split_colon}
use rize_backend.Activities.{Position, Env}

-- time.Unix(0, 0)
abbrev pub epoch : Time
epoch = 62135596800 * second

-- `zeroCursor`
abbrev pub zero_cursor : Position
zero_cursor = record { started_at = epoch; event_id = 0 }

-- (started_at, event_id) < (started_at, event_id)
unfoldable pub earlier : Position → Position → Bool
earlier p q =
    ltb p.started_at q.started_at || p.started_at == q.started_at && ltb p.event_id q.event_id

-- The bits of t.UnixNano().
abbrev pub unix_nano_bits : Time → ℕ
unix_nano_bits t = (t + 4 * 2 ^ 64 - epoch) % 2 ^ 64

-- An `int64` by its bits, with `%d`.
abbrev pub print_int64 : ℕ → Bytes
print_int64 bits = if ltb bits (2 ^ 63) then print bits else b'-' ∷ print (2 ^ 64 - bits)

pub encode_position : Env → Position → Bytes
encode_position env p =
    encode (print_int64 (unix_nano_bits p.started_at) ++ b':' ∷ env.print_event_id p.event_id)

infixl 5 ◌>>=◌
abbrev ◌>>=◌ {ℓ κ} : {A : Type ℓ} {B : Type κ} → Option A → (A → Option B) → Option B
none >>= k = none
some a >>= k = k a

-- time.Unix(0, n) and time.Unix(0, -n), for an `int64`.
abbrev pub after_epoch : Option ℕ → Option Time
after_epoch none = none
after_epoch (some n) = some (epoch + n)

abbrev pub before_epoch : Option ℕ → Option Time
before_epoch none = none
before_epoch (some n) = if ltb (2 ^ 63) n then none else some (epoch - n)

-- strconv.ParseInt(s, 10, 64), as nanoseconds since 1970.
pub parse_nanos : Bytes → Option Time
parse_nanos [] = none
parse_nanos (c ∷ cs) =
    if c == b'-' then before_epoch (parse_uint cs) else after_epoch (parse_nonnegative_int (c ∷ cs))

unfoldable pub decode_position : Env → Bytes → Option Position
unfolding parse_nanos
decode_position env [] = some zero_cursor
decode_position env (c ∷ cs) = do
  raw ← decode (c ∷ cs)
  parts ← split_colon raw
  started_at ← parse_nanos parts.0
  event_id ← env.parse_event_id parts.1
  some (record { started_at = started_at; event_id = event_id })
