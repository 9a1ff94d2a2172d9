-- ===== src/Base/Text.antt =====
-- Go strings as code points.
use Prim.Native.Char.{code}
use Prim.Native.String.{String, [], ◌∷◌}
use mathlib.Core.Bool.{Bool, true, false}
use rize_backend.Base.Tests.{ltb, ◌==◌, if◌then◌else◌}

-- Go's `<` on strings. The order of code points is that of the UTF-8 bytes.
unfoldable pub str_lt : String → String → Bool
str_lt [] [] = false
str_lt [] (_ ∷ _) = true
str_lt (_ ∷ _) [] = false
str_lt (c ∷ s) (d ∷ t) =
    let rest = str_lt s t in
    if ltb (code c) (code d) then true else if code c == code d then rest else false
