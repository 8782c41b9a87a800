-- ===== src/Base/Text.antt =====
-- Texts: the native `String` where the code only builds and compares them, and lists of code
-- points where it walks or prints them.
use Prim.Native.Char.{code}
use Prim.Native.Nat.{ℕ, zero, suc, ◌+◌, ◌/◌, ◌%◌}
use mathlib.Core.Bool.{Bool, true, false}
use mathlib.Core.Option.{Option, none, some}
use mathlib.Core.List.{List, [], ◌∷◌, ◌++◌}
pub use Prim.Native.String.{String, ◌++◌ as ◌<>◌}

abbrev pub is_some {ℓ} : {A : Type ℓ} → Option A → Bool
is_some none = false
is_some (some a) = true

abbrev pub codes : String → List ℕ
codes String.[] = []
codes (String.◌∷◌ c s) = code c ∷ codes s

-- `{n:0w}` of a number below 10 ^ w: its last `w` decimal digits.
unfoldable pub padded : ℕ → ℕ → List ℕ
padded zero n = []
padded (suc w) n = padded w (n / 10) ++ (b'0' + n % 10) ∷ []
