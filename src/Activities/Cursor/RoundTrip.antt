-- ===== src/Activities/Cursor/RoundTrip.antt =====
-- A page token decodes to the position that it was made from.
use rize_backend.Base.{
  ℕ, ◌+◌, ◌-◌, ◌^◌, ◌<◌, ◌≤◌, ◌≡◌, refl, ◌∙◌, ap, sym, inl, inr, false, some, [], ◌∷◌, ◌++◌, arith,
  length, All, length-append, ltb, ltb-false→le, ltb→lt, lt→ltb, le→ltb-false, Bool-cases,
}
use mathlib.Core.Path.{subst}
use rize_backend.Store.Base64.{Bytes, IsByte, decode}
use rize_backend.Store.Base64.RoundTrip.{decode-encode, encode_nonempty}
use rize_backend.Store.Decimal.{print, parse_nonnegative_int}
use rize_backend.Store.Decimal.RoundTrip.{
  IsDigit, print-All, parse_uint-print, parse_nonnegative_int-print,
}
use rize_backend.Store.Cursor.{split_colon}
use rize_backend.Store.Cursor.RoundTrip.{IsDigit-IsByte, split_colon-append}
use rize_backend.Instant.{Time}
use rize_backend.Activities.{Position, Env}
use rize_backend.Activities.Cursor.{
  epoch, unix_nano_bits, print_int64, encode_position, decode_position, parse_nanos, after_epoch,
  before_epoch, ◌>>=◌,
}

-- The times that UnixNano is defined for, and the ids that are read back as they were printed.
pub record IsEncodable (env : Env) (p : Position) : Type 0 where
  pub not_before : epoch ≤ p.started_at + 2 ^ 63
  pub not_after : p.started_at < epoch + 2 ^ 63
  pub bytes : All IsByte (env.print_event_id p.event_id)
  pub read_back : env.parse_event_id (env.print_event_id p.event_id) ≡ some p.event_id

bits-after : (t : Time) → epoch ≤ t → t < epoch + 2 ^ 63 → unix_nano_bits t ≡ t - epoch
bits-after t h k = omega arith

bits-before : (t : Time) → t < epoch → epoch ≤ t + 2 ^ 63 → unix_nano_bits t ≡ 2 ^ 64 - (epoch - t)
bits-before t h k = omega arith

append-IsByte : (s t : Bytes) → All IsByte s → All IsByte t → All IsByte (s ++ b':' ∷ t)
append-IsByte [] t h k = (omega arith, k)
append-IsByte (c ∷ s) t h k = (h.0, append-IsByte s t h.1 k)

parse_nanos-digits :
    (s : Bytes) → All IsDigit s → parse_nanos s ≡ after_epoch (parse_nonnegative_int s)
unfolding parse_nanos parse_nonnegative_int
parse_nanos-digits [] h = refl
parse_nanos-digits (c ∷ s) h = ground arith

-- What a printed time is read as, and where its text ends.
record IsTimeText (t : Time) (s : Bytes) : Type 0 where
  bytes : All IsByte s
  value : parse_nanos s ≡ some t
  ends : (rest : Bytes) → split_colon (s ++ b':' ∷ rest) ≡ some (s, rest)

printed : (n : ℕ) → n < 2 ^ 63 → IsTimeText (epoch + n) (print n)
printed n h = record {
  bytes = IsDigit-IsByte _ (print-All n);
  value = parse_nanos-digits _ (print-All n) ∙ ap after_epoch (parse_nonnegative_int-print n h);
  ends = λ rest. split_colon-append (print n) rest (print-All n);
}

negated : (n : ℕ) → n ≤ 2 ^ 63 → IsTimeText (epoch - n) (b'-' ∷ print n)
unfolding parse_nanos split_colon
negated n h = record {
  bytes = (omega arith, IsDigit-IsByte _ (print-All n));
  value = ap before_epoch (parse_uint-print n (omega arith)) ∙ rw (le→ltb-false (2 ^ 63) n h) refl;
  ends = λ rest. rw (split_colon-append (print n) rest (print-All n)) refl;
}

print-positive : (bits n : ℕ) → bits ≡ n → n < 2 ^ 63 → print_int64 bits ≡ print n
print-positive bits n same h = rw (same, lt→ltb n (2 ^ 63) h) refl

print-negative :
    (bits n : ℕ) → bits ≡ 2 ^ 64 - n → 0 < n → n ≤ 2 ^ 63 → print_int64 bits ≡ b'-' ∷ print n
print-negative bits n same h k =
    let above : ltb bits (2 ^ 63) ≡ false = le→ltb-false bits (2 ^ 63) (omega (arith, same, k)) in
    let back : 2 ^ 64 - bits ≡ n = omega (arith, same, k, h) in rw (above, back) refl

time_text :
    (t : Time)
    → epoch ≤ t + 2 ^ 63
    → t < epoch + 2 ^ 63
    → IsTimeText t (print_int64 (unix_nano_bits t))
time_text t h k = elim (Bool-cases (ltb t epoch)) [
  | inl y ↦
      let early : t < epoch = ltb→lt t epoch y in
      let back : epoch - (epoch - t) ≡ t = omega (arith, early) in
      subst (IsTimeText t)
        (sym (
          print-negative (unix_nano_bits t) (epoch - t) (bits-before t early h)
            (omega (arith, early)) (omega (arith, h))))
        (subst (λ u. IsTimeText u (b'-' ∷ print (epoch - t))) back
          (negated (epoch - t) (omega (arith, h))))
  | inr n ↦
      let late : epoch ≤ t = ltb-false→le t epoch n in
      let back : epoch + (t - epoch) ≡ t = omega (arith, late) in
      subst (IsTimeText t)
        (sym (
          print-positive (unix_nano_bits t) (t - epoch) (bits-after t late k)
            (omega (arith, k, late))))
        (subst (λ u. IsTimeText u (print (t - epoch))) back
          (printed (t - epoch) (omega (arith, k, late))))
]

-- Decoding below the test for the empty token.
decode_position_nonempty :
    (env : Env) (s : Bytes)
    → 0 < length s
    → decode_position env s ≡ (
        decode s >>= λ raw. split_colon raw >>= λ parts. parse_nanos parts.0 >>= λ started_at.
        env.parse_event_id parts.1 >>= λ event_id.
        some (record { started_at = started_at; event_id = event_id }))
unfolding decode_position
decode_position_nonempty env [] h = absurd (omega arith)
decode_position_nonempty env (c ∷ s) h = refl

pub decode_position-encode_position :
    (env : Env) (p : Position)
    → IsEncodable env p
    → decode_position env (encode_position env p) ≡ some p
unfolding encode_position
decode_position-encode_position env p h =
    let text = print_int64 (unix_nano_bits p.started_at) in
    let id = env.print_event_id p.event_id in
    let t = time_text p.started_at h.not_before h.not_after in
    decode_position_nonempty env _
      (encode_nonempty _ (omega (arith, length-append text (b':' ∷ id))))
    ∙ rw (decode-encode _ (append-IsByte text id t.bytes h.bytes), t.ends id, t.value, h.read_back)
        refl
