-- ===== src/Base/Bytes.antt =====
-- A Go string is a list of bytes. Literals are written `codes "…"`, and are ASCII.
pub mod Decimal
unfoldable pub use Decimal.*
use Prim.Native.Char.{code}
use Prim.Native.Nat.{ℕ, ◌≤◌, ◌-◌}
use Prim.Native.String.{String}
use mathlib.Core.Path.{◌≡◌, refl}
use mathlib.Core.Logic.{◌↔◌}
use mathlib.Core.Bool.{Bool, true, false, ◌&&◌}
use mathlib.Core.List.{List, [], ◌∷◌, ◌++◌, map}
use native.Mathlib.Omega.{arith}
use postkeys.Base.Tests.{Comparable, same_number, leb, if◌then◌else◌}

abbrev pub Bytes : Type 0
Bytes = List ℕ

abbrev pub codes : String → Bytes
codes String.[] = []
codes (String.◌∷◌ c s) = code c ∷ codes s

-- `a == b` on strings.
unfoldable pub same_bytes : Bytes → Bytes → Bool
same_bytes [] [] = true
same_bytes [] (y ∷ ys) = false
same_bytes (x ∷ xs) [] = false
same_bytes (x ∷ xs) (y ∷ ys) = same_number x y && same_bytes xs ys

pub same_bytes_iff : (a b : Bytes) → (same_bytes a b ≡ true) ↔ (a ≡ b)
unfolding same_bytes
same_bytes_iff [] [] = ((λ h. refl), (λ h. refl))
same_bytes_iff [] (y ∷ ys) = ((λ h. cc), (λ h. cc))
same_bytes_iff (x ∷ xs) [] = ((λ h. cc), (λ h. cc))
same_bytes_iff (x ∷ xs) (y ∷ ys) =
    ((λ h. ground (arith, same_bytes_iff xs ys)), (λ h. ground (arith, same_bytes_iff xs ys)))

instance abbrev pub compare_bytes : Comparable Bytes
compare_bytes = record { same = same_bytes; same_iff = same_bytes_iff }

-- `strings.HasPrefix(s, p)`.
unfoldable pub has_prefix : Bytes → Bytes → Bool
has_prefix s [] = true
has_prefix [] (y ∷ ys) = false
has_prefix (x ∷ xs) (y ∷ ys) = same_number x y && has_prefix xs ys

-- `strings.ToUpper(s)` on ASCII text, which is what the program's names are made of.
unfoldable pub upper_byte : ℕ → ℕ
upper_byte c = if leb b'a' c && leb c b'z' then c - 32 else c

unfoldable pub to_upper : Bytes → Bytes
unfolding upper_byte
to_upper s = map upper_byte s
