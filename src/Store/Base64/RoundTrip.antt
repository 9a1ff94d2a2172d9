-- ===== src/Store/Base64/RoundTrip.antt =====
-- Decoding an encoded text gives it back.
use rize_backend.Base.{
  length, ℕ, ◌<◌, ◌≡◌, refl, false, not, some, List, [], ◌∷◌, map, arith, keep, All,
}
use rize_backend.Store.Base64.{
  Bytes, IsByte, char_of, value_of, sextets, encode, values, unsextets, is_line_break, decode,
}

value_of-char_of : (v : ℕ) → v < 64 → value_of (char_of v) ≡ some v
unfolding value_of char_of
value_of-char_of v h = ground arith

char_of_plain : (v : ℕ) → v < 64 → is_line_break (char_of v) ≡ false
unfolding is_line_break char_of
char_of_plain v h = ground arith

sextets-All : (bs : Bytes) → All IsByte bs → All (λ v. v < 64) (sextets bs)
unfolding sextets
sextets-All [] h = tt
sextets-All (a ∷ []) h = omega arith
sextets-All (a ∷ b ∷ []) h = omega arith
sextets-All (a ∷ b ∷ c ∷ rest) h =
    (omega arith, (omega arith, (omega arith, (omega arith, sextets-All rest h.1.1.1))))

unsextets-sextets : (bs : Bytes) → All IsByte bs → unsextets (sextets bs) ≡ some bs
unfolding unsextets sextets
unsextets-sextets [] h = refl
unsextets-sextets (a ∷ []) h = ground arith
unsextets-sextets (a ∷ b ∷ []) h = ground arith
unsextets-sextets (a ∷ b ∷ c ∷ rest) h = rw (unsextets-sextets rest h.1.1.1) (ground arith)

keep-map-char_of :
    (vs : List ℕ)
    → All (λ v. v < 64) vs
    → keep (λ c. not (is_line_break c)) (map char_of vs) ≡ map char_of vs
keep-map-char_of [] h = refl
keep-map-char_of (v ∷ vs) h = ground (arith, char_of_plain v h.0, keep-map-char_of vs h.1)

values-map-char_of : (vs : List ℕ) → All (λ v. v < 64) vs → values (map char_of vs) ≡ some vs
unfolding values
values-map-char_of [] h = refl
values-map-char_of (v ∷ vs) h = ground (arith, value_of-char_of v h.0, values-map-char_of vs h.1)

pub decode-encode : (bs : Bytes) → All IsByte bs → decode (encode bs) ≡ some bs
unfolding decode encode
decode-encode bs h =
    rw
      (
        keep-map-char_of (sextets bs) (sextets-All bs h),
        values-map-char_of (sextets bs) (sextets-All bs h),
      )
      (unsextets-sextets bs h)

pub encode_nonempty : (bs : Bytes) → 0 < length bs → 0 < length (encode bs)
unfolding encode sextets
encode_nonempty [] h = absurd (omega arith)
encode_nonempty (a ∷ []) h = omega arith
encode_nonempty (a ∷ b ∷ []) h = omega arith
encode_nonempty (a ∷ b ∷ c ∷ bs) h = omega arith
