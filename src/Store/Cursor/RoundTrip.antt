-- ===== src/Store/Cursor/RoundTrip.antt =====
-- A page token decodes to the position that it was made from.
use rize_backend.Base.{
  ℕ, ◌^◌, ◌<◌, ◌≡◌, refl, ◌∙◌, some, [], ◌∷◌, ◌++◌, arith, length, All, length-append,
}
use rize_backend.Store.Base64.{Bytes, IsByte, decode}
use rize_backend.Store.Base64.RoundTrip.{decode-encode, encode_nonempty}
use rize_backend.Store.Decimal.{print, parse_uint, parse_nonnegative_int}
use rize_backend.Store.Decimal.RoundTrip.{
  IsDigit, print-All, print_nonempty, parse_uint-print, parse_nonnegative_int-print,
}
use rize_backend.Store.Cursor.{
  PullCursor, encode_cursor, decode_cursor, encode_pull_cursor, split_colon, decode_pull_cursor,
  ◌>>=◌,
}

pub IsDigit-IsByte : (s : Bytes) → All IsDigit s → All IsByte s
IsDigit-IsByte [] h = tt
IsDigit-IsByte (c ∷ s) h = (omega arith, IsDigit-IsByte s h.1)

IsByte-colon : (s t : Bytes) → All IsDigit s → All IsDigit t → All IsByte (s ++ b':' ∷ t)
IsByte-colon [] t h k = (omega arith, IsDigit-IsByte t k)
IsByte-colon (c ∷ s) t h k = (omega arith, IsByte-colon s t h.1 k)

pub split_colon-append : (s t : Bytes) → All IsDigit s → split_colon (s ++ b':' ∷ t) ≡ some (s, t)
unfolding split_colon
split_colon-append [] t h = refl
split_colon-append (c ∷ s) t h = ground (arith, split_colon-append s t h.1)

-- Decoding below the test for the empty token.
decode_nonempty :
    (s : Bytes) → 0 < length s → decode_cursor s ≡ (decode s >>= parse_nonnegative_int)
unfolding decode_cursor
decode_nonempty [] h = absurd (omega arith)
decode_nonempty (c ∷ s) h = refl

-- A cursor of a `server_seq` below 2 ^ 63 decodes to what was encoded.
pub decode_cursor-encode_cursor :
    (server_seq : ℕ)
    → server_seq < 2 ^ 63
    → decode_cursor (encode_cursor server_seq) ≡ some server_seq
unfolding encode_cursor
decode_cursor-encode_cursor n h =
    decode_nonempty _ (encode_nonempty (print n) (print_nonempty n))
    ∙ rw (decode-encode (print n) (IsDigit-IsByte _ (print-All n)))
        (parse_nonnegative_int-print n h)

decode_pull_nonempty :
    (s : Bytes)
    → 0 < length s
    → decode_pull_cursor s ≡ (
        decode s >>= λ raw. split_colon raw >>= λ parts. parse_uint parts.0 >>= λ xid8.
        parse_nonnegative_int parts.1 >>= λ seq. some (record { xid8 = xid8; server_seq = seq }))
unfolding decode_pull_cursor
decode_pull_nonempty [] h = absurd (omega arith)
decode_pull_nonempty (c ∷ s) h = refl

-- The positions that the database can hold: `xid8` and a nonnegative `bigint`.
pub record IsPosition (c : PullCursor) : Type 0 where
  pub xid8 : c.xid8 < 2 ^ 64
  pub server_seq : c.server_seq < 2 ^ 63

-- A pull cursor of an `xid8` below 2 ^ 64 and a `server_seq` below 2 ^ 63 decodes to what was
-- encoded.
pub decode_pull_cursor-encode_pull_cursor :
    (c : PullCursor) → IsPosition c → decode_pull_cursor (encode_pull_cursor c) ≡ some c
unfolding encode_pull_cursor
decode_pull_cursor-encode_pull_cursor c h =
    decode_pull_nonempty _
      (encode_nonempty _ (omega (arith, length-append (print c.xid8) (b':' ∷ print c.server_seq))))
    ∙ rw
        (
          decode-encode _ (
              IsByte-colon (print c.xid8) (print c.server_seq) (print-All c.xid8)
                (print-All c.server_seq)),
          split_colon-append (print c.xid8) (print c.server_seq) (print-All c.xid8),
          parse_uint-print c.xid8 h.xid8,
          parse_nonnegative_int-print c.server_seq h.server_seq,
        )
        refl
