-- ===== src/Prelude/Strings.antt =====
-- Go strings as lists of bytes, and the tests on them that the package strings provides.
use Prim.Native.Nat.{ℕ, compare, Ordering}
use Prim.Native.Nat.Ordering.{lt, eq, gt}
use Prim.Native.Char.{code}
use Prim.Native.String.{String}
use mathlib.Core.Path.{◌≡◌, refl}
use mathlib.Core.Logic.{◌↔◌}
use mathlib.Core.Bool.{Bool, true, false, ◌&&◌}
use mathlib.Core.List.{List, [], ◌∷◌}
use native.Mathlib.Omega.{arith}
use recon.Prelude.Tests.{◌==◌}

abbrev pub Bytes : Type 0
Bytes = List ℕ

-- The code points of a literal; these are its bytes when the text is ASCII.
abbrev pub codes : String → Bytes
codes String.[] = []
codes (String.◌∷◌ c s) = code c ∷ codes s

-- a == b on strings
unfoldable pub bytes_eq : Bytes → Bytes → Bool
bytes_eq [] [] = true
bytes_eq [] (d ∷ b) = false
bytes_eq (c ∷ a) [] = false
bytes_eq (c ∷ a) (d ∷ b) = c == d && bytes_eq a b

pub bytes_eq_iff : (a b : Bytes) → (bytes_eq a b ≡ true) ↔ (a ≡ b)
unfolding bytes_eq
bytes_eq_iff [] [] = ground arith
bytes_eq_iff [] (d ∷ b) = ground arith
bytes_eq_iff (c ∷ a) [] = ground arith
bytes_eq_iff (c ∷ a) (d ∷ b) = ground (arith, bytes_eq_iff a b)

pub bytes_eq_refl : (a : Bytes) → bytes_eq a a ≡ true
bytes_eq_refl a = (bytes_eq_iff a a).1 refl

-- strings.HasPrefix
unfoldable pub starts_with : Bytes → Bytes → Bool
starts_with s [] = true
starts_with [] (d ∷ p) = false
starts_with (c ∷ s) (d ∷ p) = c == d && starts_with s p

-- strings.Compare: bytewise, a prefix first
unfoldable pub compare_bytes : Bytes → Bytes → Ordering
compare_bytes [] [] = eq
compare_bytes [] (d ∷ b) = lt
compare_bytes (c ∷ a) [] = gt
compare_bytes (c ∷ a) (d ∷ b) = elim (compare c d) [
  | Ordering.lt ↦ lt
  | Ordering.eq ↦ compare_bytes a b
  | Ordering.gt ↦ gt
]
