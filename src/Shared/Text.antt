-- ===== src/Shared/Text.antt =====
-- Texts that are only compared, as a whole.
use Prim.Native.String.{String, ◌++◌}
use mathlib.Core.Bool.{Bool}
use text.Mathlib.Text.{◌==◌}
pub use text.Mathlib.TextEquality.{eq_iff}
pub use text.Mathlib.TextPositions.{eq_refl}

abbrev pub str_eq : String → String → Bool
str_eq s t = s == t

-- `s == ""`.
abbrev pub is_empty : String → Bool
is_empty s = s == ""

-- `s + t`.
abbrev pub append_text : String → String → String
append_text s t = s ++ t
