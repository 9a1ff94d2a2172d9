-- ===== src/Store/Base64.antt =====
-- Go's `base64.RawURLEncoding` on bytes: no padding, `-` and `_` for 62 and 63. A decoder skips
-- line breaks, and does not check the bits that are left over.
pub mod RoundTrip
use rize_backend.Base.{
  ℕ, zero, suc, ◌+◌, ◌-◌, ◌*◌, ◌/◌, ◌%◌, ◌^◌, ◌≤◌, ◌<◌, String, ◌≡◌, refl, sym, ap, ◌∙◌, ◌≢◌, ◌↔◌,
  ◌⊎◌, inl, inr, Bool, true, false, not, ◌&&◌, ◌||◌, Option, none, some, List, [], ◌∷◌, ◌++◌, map,
  arith, ltb, leb, ◌==◌, if◌then◌else◌, ltb→lt, lt→ltb, ltb-false→le, le→ltb-false, leb→le, ==_iff,
  Bool-cases, Option-cases, length, take, drop, keep, any, All, last?, length-append,
  take-append-drop, length-take, length-drop, sum,
}

abbrev pub Bytes : Type 0
Bytes = List ℕ

abbrev pub IsByte : ℕ → Type 0
IsByte b = b < 256

char_of : ℕ → ℕ
char_of v =
    if ltb v 26
    then v + b'A'
    else if ltb v 52
    then v - 26 + b'a'
    else if ltb v 62
    then v - 52 + b'0'
    else if v == 62
    then b'-'
    else b'_'

value_of : ℕ → Option ℕ
value_of c =
    if leb b'A' c && leb c b'Z'
    then some (c - b'A')
    else if leb b'a' c && leb c b'z'
    then some (c - b'a' + 26)
    else if leb b'0' c && leb c b'9'
    then some (c - b'0' + 52)
    else if c == b'-'
    then some 62
    else if c == b'_'
    then some 63
    else none

sextets : Bytes → List ℕ
sextets [] = []
sextets (a ∷ []) = a / 4 ∷ a % 4 * 16 ∷ []
sextets (a ∷ b ∷ []) = a / 4 ∷ (a % 4 * 16 + b / 16) ∷ b % 16 * 4 ∷ []
sextets (a ∷ b ∷ c ∷ rest) =
    a / 4 ∷ (a % 4 * 16 + b / 16) ∷ (b % 16 * 4 + c / 64) ∷ c % 64 ∷ sextets rest

pub encode : Bytes → Bytes
unfolding sextets char_of
encode bytes = map char_of (sextets bytes)

infixl 5 ◌>>=◌
abbrev ◌>>=◌ {ℓ κ} : {A : Type ℓ} {B : Type κ} → Option A → (A → Option B) → Option B
none >>= k = none
some a >>= k = k a

values : Bytes → Option (List ℕ)
unfolding value_of
values [] = some []
values (c ∷ cs) = do v ← value_of c; vs ← values cs; some (v ∷ vs)

unsextets : List ℕ → Option Bytes
unsextets [] = some []
unsextets (w ∷ []) = none
unsextets (w ∷ x ∷ []) = some ((w * 4 + x / 16) ∷ [])
unsextets (w ∷ x ∷ y ∷ []) = some ((w * 4 + x / 16) ∷ (x % 16 * 16 + y / 4) ∷ [])
unsextets (w ∷ x ∷ y ∷ z ∷ rest) = do
  bytes ← unsextets rest
  some ((w * 4 + x / 16) ∷ (x % 16 * 16 + y / 4) ∷ (y % 4 * 64 + z) ∷ bytes)

is_line_break : ℕ → Bool
is_line_break c = c == 10 || c == 13

pub decode : Bytes → Option Bytes
unfolding values unsextets is_line_break
decode cs = do vs ← values (keep (λ c. not (is_line_break c)) cs); unsextets vs
