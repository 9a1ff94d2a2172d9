-- ===== src/Store/Decimal/RoundTrip.antt =====
-- Reading a printed number gives it back.
use rize_backend.Base.{
  ℕ, zero, suc, ◌+◌, ◌-◌, ◌*◌, ◌/◌, ◌%◌, ◌^◌, ◌≤◌, ◌<◌, ◌≡◌, ap, ◌∙◌, inl, inr, some, [], ◌∷◌, ◌++◌,
  arith, ltb, Bool-cases, length, All, length-append,
}
use rize_backend.Store.Base64.{Bytes}
use rize_backend.Store.Decimal.{digits, print, read_digits, read, parse_uint, parse_nonnegative_int}

abbrev pub IsDigit : ℕ → Type 0
IsDigit c = (b'0' ≤ c) × (c ≤ b'9')

All-append : (P : ℕ → Type 0) (xs ys : Bytes) → All P xs → All P ys → All P (xs ++ ys)
All-append P [] ys h k = k
All-append P (x ∷ xs) ys h k = (h.0, All-append P xs ys h.1 k)

digits-All : (fuel n : ℕ) → All IsDigit (digits fuel n)
unfolding digits
digits-All zero n = omega arith
digits-All (suc fuel) n = elim (Bool-cases (ltb n 10)) [
  | inl p ↦ rw p (omega arith)
  | inr p ↦ rw p (All-append IsDigit _ _ (digits-All fuel (n / 10)) (omega arith))
]

read_digits-append :
    (acc : ℕ) (xs : Bytes) (d v : ℕ)
    → d < 10
    → read_digits acc xs ≡ some v
    → read_digits acc (xs ++ (d + b'0') ∷ []) ≡ some (v * 10 + d)
unfolding read_digits
read_digits-append acc [] d v h e = ground arith
read_digits-append acc (c ∷ xs) d v h e =
    ground (arith, read_digits-append (acc * 10 + (c - b'0')) xs d v)

read_digits-digits : (fuel n : ℕ) → n ≤ fuel → read_digits 0 (digits fuel n) ≡ some n
unfolding digits
read_digits-digits zero n h = unfold read_digits in ground arith
read_digits-digits (suc fuel) n h = elim (Bool-cases (ltb n 10)) [
  | inl p ↦ rw p (unfold read_digits in ground arith)
  | inr p ↦ rw p (
      read_digits-append 0 (digits fuel (n / 10)) (n % 10) (n / 10) (omega arith)
        (read_digits-digits fuel (n / 10) (ground arith))
      ∙ ap some (omega arith))
]

-- A printed number is nonempty, and made of digits.
pub print-All : (n : ℕ) → All IsDigit (print n)
unfolding print
print-All n = digits-All n n

read-eq-read_digits :
    (s : Bytes) (n : ℕ) → 0 < length s → read_digits 0 s ≡ some n → read s ≡ some n
unfolding read
read-eq-read_digits [] n h e = absurd (omega arith)
read-eq-read_digits (c ∷ cs) n h e = e

digits_nonempty : (fuel n : ℕ) → 0 < length (digits fuel n)
unfolding digits
digits_nonempty zero n = omega arith
digits_nonempty (suc fuel) n =
    ground (arith, length-append (digits fuel (n / 10)) ((n % 10 + b'0') ∷ []))

read-print : (n : ℕ) → read (print n) ≡ some n
unfolding print
read-print n = read-eq-read_digits _ n (digits_nonempty n n) (read_digits-digits n n (omega arith))

pub parse_uint-print : (n : ℕ) → n < 2 ^ 64 → parse_uint (print n) ≡ some n
unfolding parse_uint
parse_uint-print n h = rw read-print (ground arith)

no_sign :
    (s : Bytes) (n : ℕ)
    → All IsDigit s
    → read s ≡ some n
    → n < 2 ^ 63
    → parse_nonnegative_int s ≡ some n
unfolding parse_nonnegative_int
no_sign [] n h e l = e
no_sign (c ∷ cs) n h e l = ground arith

pub parse_nonnegative_int-print : (n : ℕ) → n < 2 ^ 63 → parse_nonnegative_int (print n) ≡ some n
parse_nonnegative_int-print n h = no_sign (print n) n (print-All n) (read-print n) h

pub print_nonempty : (n : ℕ) → 0 < length (print n)
unfolding print
print_nonempty n = digits_nonempty n n
