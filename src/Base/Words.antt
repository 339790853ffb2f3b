-- ===== src/Base/Words.antt =====
-- 64-bit words: values are plain numbers, and the wrap-around of each operation is written out.
use Prim.Native.Nat.{ℕ, zero, suc, ◌+◌, ◌-◌, ◌*◌, ◌/◌, ◌%◌, ◌^◌, ◌≤◌}
use mathlib.Core.List.{List, [], ◌∷◌}
use mathlib.Core.Option.{Option, none, some}
use native.Mathlib.Omega.{arith}
use framehopunwind.Base.Tests.{leb, if◌then◌else◌}

abbrev pub u64_mod : ℕ
u64_mod = 2 ^ 64

-- `u64::MAX`
abbrev pub u64_max : ℕ
u64_max = 2 ^ 64 - 1

-- `wrapping_add`, and `+` as a release build computes it
abbrev pub wrapping_add : ℕ → ℕ → ℕ
wrapping_add a b = (a + b) % 2 ^ 64

-- `-` as a release build computes it
abbrev pub wrapping_sub : ℕ → ℕ → ℕ
wrapping_sub a b = (a + 2 ^ 64 - b) % 2 ^ 64

-- `saturating_add`
abbrev pub saturating_add : ℕ → ℕ → ℕ
saturating_add a b = if leb (a + b) u64_max then a + b else u64_max

-- `saturating_sub`
abbrev pub saturating_sub : ℕ → ℕ → ℕ
saturating_sub a b = a - b

-- `checked_add`
abbrev pub checked_add : ℕ → ℕ → Option ℕ
checked_add a b = if leb (a + b) u64_max then some (a + b) else none

pub saturating_add_bounds :
    (a b : ℕ) → a ≤ u64_max → (a ≤ saturating_add a b) × (saturating_add a b ≤ u64_max)
saturating_add_bounds a b h = ground arith

-- `from_le_bytes`
abbrev pub from_le_bytes : List ℕ → ℕ
from_le_bytes [] = 0
from_le_bytes (x ∷ b) = x + 256 * from_le_bytes b

-- `n` bytes of memory.
abbrev pub read_bytes : (ℕ → ℕ) → ℕ → ℕ → List ℕ
read_bytes mem a zero = []
read_bytes mem a (suc n) = mem a ∷ read_bytes mem (a + 1) n

-- `rotate_left`
abbrev pub rotate_left : ℕ → ℕ → ℕ
rotate_left a n = a * 2 ^ n % 2 ^ 64 + a / 2 ^ (64 - n)
