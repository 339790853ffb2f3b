-- ===== src/Base/Maps.antt =====
-- Hash maps and sets with 64-bit keys, as association lists, under `std::collections`' names.
use Prim.Native.Nat.{ℕ}
use mathlib.Core.Path.{◌≡◌}
use mathlib.Core.Bool.{Bool, true, false, ◌||◌}
use mathlib.Core.Option.{Option, none, some}
use mathlib.Core.List.{List, [], ◌∷◌}
use native.Mathlib.Omega.{arith}
use framehopunwind.Base.Lists.{is_some}
use framehopunwind.Base.Tests.{◌==◌, if◌then◌else◌}

abbrev pub HashMap {ℓ} : Type ℓ → Type ℓ
HashMap V = List (ℕ × V)

module _ {ℓ} {V : Type ℓ} where
  unfoldable pub get : ℕ → HashMap V → Option V
  get k [] = none
  get k ((j, v) ∷ m) = if j == k then some v else get k m

  -- Removes every entry of the key, so that none comes to light below it.
  unfoldable pub remove : ℕ → HashMap V → HashMap V
  remove k [] = []
  remove k ((j, v) ∷ m) = let rest = remove k m in if j == k then rest else (j, v) ∷ rest

  unfoldable pub insert : ℕ → V → HashMap V → HashMap V
  unfolding remove
  insert k v m = (k, v) ∷ remove k m

  unfoldable pub contains_key : ℕ → HashMap V → Bool
  unfolding get
  contains_key k m = is_some (get k m)

  pub get-remove :
      (k j : ℕ) (m : HashMap V) → get j (remove k m) ≡ (if k == j then none else get j m)
  unfolding get remove
  get-remove k j [] = ground arith
  get-remove k j ((i, v) ∷ m) = ground (arith, get-remove k j m)

  pub get-insert :
      (k j : ℕ) (v : V) (m : HashMap V)
      → get j (insert k v m) ≡ (if k == j then some v else get j m)
  unfolding get insert
  get-insert k j v m = ground (arith, get-remove k j m)

-- Each key has one entry, as in a hash map.
abbrev pub Distinct : HashMap ℕ → Type 0
Distinct [] = Unit
Distinct ((k, v) ∷ m) = (get k m ≡ none) × Distinct m

pub remove-Distinct : (k : ℕ) (m : HashMap ℕ) → Distinct m → Distinct (remove k m)
unfolding remove get
remove-Distinct k [] d = tt
remove-Distinct k ((j, v) ∷ m) d = ground (arith, get-remove k j m, remove-Distinct k m d.1)

pub insert-Distinct : (k v : ℕ) (m : HashMap ℕ) → Distinct m → Distinct (insert k v m)
unfolding insert
insert-Distinct k v m d = (ground (arith, get-remove k k m), remove-Distinct k m d)

-- A hash set is a map to nothing.
abbrev pub HashSet : Type 0
HashSet = List ℕ

unfoldable pub contains : ℕ → HashSet → Bool
contains k [] = false
contains k (j ∷ s) = j == k || contains k s

unfoldable pub set_remove : ℕ → HashSet → HashSet
set_remove k [] = []
set_remove k (j ∷ s) = let rest = set_remove k s in if j == k then rest else j ∷ rest

unfoldable pub set_insert : ℕ → HashSet → HashSet
unfolding contains
set_insert k s = if contains k s then s else k ∷ s

pub contains-set_remove :
    (k j : ℕ) (s : HashSet) → contains j (set_remove k s) ≡ (if k == j then false else contains j s)
unfolding contains set_remove
contains-set_remove k j [] = ground arith
contains-set_remove k j (i ∷ s) = ground (arith, contains-set_remove k j s)

pub contains-set_insert :
    (k j : ℕ) (s : HashSet) → contains j (set_insert k s) ≡ (if k == j then true else contains j s)
unfolding contains set_insert
contains-set_insert k j s = ground arith
