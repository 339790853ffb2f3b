-- ===== src/Base/Hex.antt =====
-- `{:#x}`: a word in hexadecimal.
use Prim.Native.Nat.{ℕ, zero, suc, ◌+◌, ◌*◌, ◌/◌, ◌%◌, ◌^◌, ◌-◌, ◌<◌}
use mathlib.Core.Path.{◌≡◌, refl}
use mathlib.Core.List.{List, [], ◌∷◌, ◌++◌}
use native.Mathlib.Omega.{arith}
use framehopunwind.Base.Tests.{ltb, ◌==◌, if◌then◌else◌}

-- The digits, the lowest first. A word has at most 16.
abbrev pub hex_digits : ℕ → ℕ → List ℕ
hex_digits zero n = []
hex_digits (suc fuel) n =
    let rest = hex_digits fuel (n / 16) in n % 16 ∷ (if n / 16 == 0 then [] else rest)

-- The characters, the highest digit first.
abbrev hex_chars : List ℕ → List ℕ
hex_chars [] = []
hex_chars (d ∷ l) = hex_chars l ++ ((if ltb d 10 then b'0' + d else b'a' + (d - 10)) ∷ [])

unfoldable pub lower_hex : ℕ → List ℕ
lower_hex n = b'0' ∷ b'x' ∷ hex_chars (hex_digits 16 n)

abbrev value : List ℕ → ℕ
value [] = 0
value (d ∷ l) = d + 16 * value l

abbrev bound : ℕ → ℕ
bound zero = 1
bound (suc k) = 16 * bound k

-- The digits are those of the number, if there is fuel for as many.
value-hex_digits : (fuel n : ℕ) → n < bound fuel → value (hex_digits fuel n) ≡ n
value-hex_digits zero n fits = omega (arith, fits)
value-hex_digits (suc fuel) n fits = ground (arith, value-hex_digits fuel (n / 16))

-- Sixteen digits are enough for a word.
value-word : (n : ℕ) → n < 2 ^ 64 → value (hex_digits 16 n) ≡ n
value-word n fits = value-hex_digits 16 n (omega (arith, fits))

lower_hex_ten : lower_hex 266 ≡ b'0' ∷ b'x' ∷ b'1' ∷ b'0' ∷ b'a' ∷ []
unfolding lower_hex
lower_hex_ten = refl
