-- ===== src/Base/Names.antt =====
-- Names in fields of a fixed width, as object files store them.
use Prim.Native.Nat.{ℕ, zero, suc}
use mathlib.Core.Path.{◌≡◌, refl, sym, ◌∙◌}
use mathlib.Core.Logic.{◌↔◌}
use mathlib.Core.Bool.{Bool, true, false, ◌&&◌, ◌||◌}
use mathlib.Core.List.{List, [], ◌∷◌}
use native.Mathlib.Omega.{arith}
use framehopunwind.Base.Tests.{ltb, ◌==◌, if◌then◌else◌}
use framehopunwind.Base.Lists.{length}

-- The loop over the bytes of `name`.
abbrev pub starts_with : List ℕ → List ℕ → Bool
starts_with field [] = true
starts_with [] (b ∷ name) = false
starts_with (c ∷ field) (b ∷ name) = (c == b) && starts_with field name

-- `field[i] == 0`
abbrev pub nul_at : ℕ → List ℕ → Bool
nul_at i [] = false
nul_at zero (c ∷ field) = c == 0
nul_at (suc i) (c ∷ field) = nul_at i field

-- A field of `width` bytes holds `name`, with a NUL behind it unless it fills the field.
unfoldable pub field_eq : ℕ → List ℕ → List ℕ → Bool
field_eq width field name =
    if ltb width (length name)
    then false
    else starts_with field name && ((length name == width) || nul_at (length name) field)

-- What the field holds: its bytes up to the first NUL.
abbrev pub c_string : List ℕ → List ℕ
c_string [] = []
c_string (c ∷ field) = let rest = c_string field in if c == 0 then [] else c ∷ rest

abbrev pub no_nul : List ℕ → Bool
no_nul [] = true
no_nul (c ∷ l) = if c == 0 then false else no_nul l

-- The field's test in one pass.
abbrev matches : List ℕ → List ℕ → Bool
matches [] [] = true
matches [] (b ∷ name) = false
matches (c ∷ field) [] = c == 0
matches (c ∷ field) (b ∷ name) = (c == b) && matches field name

field_eq-matches : (field name : List ℕ) → field_eq (length field) field name ≡ matches field name
unfolding field_eq
field_eq-matches [] [] = refl
field_eq-matches [] (b ∷ name) = ground arith
field_eq-matches (c ∷ field) [] = ground arith
field_eq-matches (c ∷ field) (b ∷ name) = ground (arith, field_eq-matches field name)

matches-c_string :
    (field name : List ℕ) → no_nul name ≡ true → matches field name ≡ true → c_string field ≡ name
matches-c_string [] [] pure m = refl
matches-c_string [] (b ∷ name) pure m = cc
matches-c_string (c ∷ field) [] pure m = ground arith
matches-c_string (c ∷ field) (b ∷ name) pure m = ground (arith, matches-c_string field name)

c_string-matches :
    (field name : List ℕ) → no_nul name ≡ true → c_string field ≡ name → matches field name ≡ true
c_string-matches [] [] pure e = refl
c_string-matches [] (b ∷ name) pure e = cc
c_string-matches (c ∷ field) [] pure e = ground arith
c_string-matches (c ∷ field) (b ∷ name) pure e = ground (arith, c_string-matches field name)

-- The comparison finds exactly the fields that hold the name.
pub field_eq-c_string :
    (field name : List ℕ)
    → no_nul name ≡ true
    → (field_eq (length field) field name ≡ true) ↔ (c_string field ≡ name)
field_eq-c_string field name pure =
    let e = field_eq-matches field name in
    (λ h. matches-c_string field name pure (sym e ∙ h), λ h. e ∙ c_string-matches field name pure h)
