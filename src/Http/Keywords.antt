-- ===== src/Http/Keywords.antt =====
-- `strings.Contains`, and the same after `strings.ToLower`, for the error messages.
use Prim.Native.Char.{Char, code}
use Prim.Native.Nat.{ℕ, ◌+◌}
use Prim.Native.String.{String, [], ◌∷◌}
use mathlib.Core.Bool.{Bool, false, true}
use oficina_tech_ms_order_se.Shared.{if◌then◌else◌, leb, ◌&&◌, ◌==◌, ◌||◌}

-- The lower case of a code point, where it is an ASCII letter: of the others, only U+0130 and U+212A
-- have one.
abbrev lower_code : ℕ → ℕ
lower_code c =
    if leb 65 c && leb c 90 then c + 32 else if c == 304 then 105 else if c == 8490 then 107 else c

abbrev begins : (Char → ℕ) → String → String → Bool
begins read [] words = true
begins read (k ∷ keyword) [] = false
begins read (k ∷ keyword) (c ∷ words) = code k == read c && begins read keyword words

-- Whether the text, each of its characters read by `read`, contains the keyword.
abbrev contains_read : (Char → ℕ) → String → String → Bool
contains_read read [] keyword = begins read keyword []
contains_read read (c ∷ words) keyword =
    begins read keyword (c ∷ words) || contains_read read words keyword

unfoldable pub contains : String → String → Bool
contains words keyword = contains_read code words keyword

unfoldable pub contains_lower : String → String → Bool
contains_lower words keyword = contains_read (λ c. lower_code (code c)) words keyword
