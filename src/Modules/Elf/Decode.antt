-- ===== src/Modules/Elf/Decode.antt =====
-- modules/elf.rs: the encoded pointer of an `.eh_frame_hdr` section.
use framehopunwind.Base.{
  ℕ, from_le_bytes, zero, suc, ◌+◌, ◌-◌, ◌*◌, ◌/◌, ◌%◌, ◌^◌, ◌≤◌, ◌<◌, ◌≡◌, ◌⊎◌, inl, inr, ◌∙◌, ap,
  not, ◌||◌, Option, none, some, map_option, List, [], ◌∷◌, ◌++◌, ltb, ◌==◌, if◌then◌else◌,
  wrapping_add, wrapping_sub, arith,
}

-- `b.get(0..n)`
unfoldable pub first_bytes : ℕ → List ℕ → Option (List ℕ)
first_bytes zero b = some []
first_bytes (suc n) [] = none
first_bytes (suc n) (x ∷ b) = map_option (λ l. x ∷ l) (first_bytes n b)

-- The conversion of a signed `w`-bit word to `i64` and on to `u64`.
abbrev pub sign_extend : ℕ → ℕ → ℕ
sign_extend w v = if ltb v (2 ^ (w - 1)) then v else v + (2 ^ 64 - 2 ^ w)

unfoldable pub decode_value : List ℕ → ℕ → Option (ℕ × ℕ)
decode_value b fmt =
    if fmt == 0x02
    then map_option (λ l. (from_le_bytes l, 2)) (first_bytes 2 b)
    else if fmt == 0x0a
    then map_option (λ l. (sign_extend 16 (from_le_bytes l), 2)) (first_bytes 2 b)
    else if fmt == 0x03
    then map_option (λ l. (from_le_bytes l, 4)) (first_bytes 4 b)
    else if fmt == 0x0b
    then map_option (λ l. (sign_extend 32 (from_le_bytes l), 4)) (first_bytes 4 b)
    else if (fmt == 0x04) || (fmt == 0x0c) || (fmt == 0x00)
    then map_option (λ l. (from_le_bytes l, 8)) (first_bytes 8 b)
    else none

-- `app`: absolute, or relative to the field.
abbrev pub base_of : ℕ → ℕ → Option ℕ
base_of app field_avma =
    if app == 0x00 then some 0 else if app == 0x10 then some field_avma else none

abbrev pub add_base : Option ℕ → Option (ℕ × ℕ) → Option ℕ
add_base base none = none
add_base none (some (value, size)) = none
add_base (some base) (some (value, size)) = some (wrapping_add base value)

-- `enc & 0x70` and `enc & 0x0f`, for a header that starts at `hdr`.
unfoldable pub decode_eh_frame_start : ℕ → List ℕ → Option ℕ
decode_eh_frame_start hdr (version ∷ enc ∷ count_enc ∷ table_enc ∷ field) =
    if not (version == 1)
    then none
    else add_base (base_of (enc / 16 % 8 * 16) (wrapping_add hdr 4)) (decode_value field (enc % 16))
decode_eh_frame_start hdr _ = none

-- The little-endian bytes of a 32-bit word.
abbrev pub le_bytes4 : ℕ → List ℕ
le_bytes4 v = (v % 256) ∷ (v / 256 % 256) ∷ (v / 65536 % 256) ∷ (v / 16777216 % 256) ∷ []

from_le_bytes4 : (v : ℕ) → v < 2 ^ 32 → from_le_bytes (le_bytes4 v) ≡ v
from_le_bytes4 v h = omega arith

sign_back :
    (d : ℕ) → d < 2 ^ 64 → (d < 2 ^ 31) ⊎ (2 ^ 64 - 2 ^ 31 ≤ d) → sign_extend 32 (d % 2 ^ 32) ≡ d
sign_back d word (inl low) = ground arith
sign_back d word (inr high) = ground arith

step_back :
    (base target : ℕ)
    → base < 2 ^ 64
    → target < 2 ^ 64
    → wrapping_add base (wrapping_sub target base) ≡ target
step_back base target word small = omega arith

-- A header of version 1 whose pointer is encoded as the signed 32-bit distance from its own field,
-- as linkers write it, decodes to the address that it points to, if that is less than 2 GiB away.
pub decode_eh_frame_start_pcrel :
    (hdr target count_enc table_enc : ℕ) (rest : List ℕ)
    → target < 2 ^ 64
    → let distance = wrapping_sub target (wrapping_add hdr 4) in
      (distance < 2 ^ 31) ⊎ (2 ^ 64 - 2 ^ 31 ≤ distance)
      → decode_eh_frame_start hdr (
          1
          ∷ 0x1b
          ∷ count_enc
          ∷ table_enc
          ∷ (le_bytes4 (wrapping_sub target (wrapping_add hdr 4) % 2 ^ 32) ++ rest))
        ≡ some target
unfolding decode_eh_frame_start decode_value first_bytes
decode_eh_frame_start_pcrel hdr target count_enc table_enc rest small near =
    let base = wrapping_add hdr 4 in
    let d = wrapping_sub target base in
    ap some (
      ap (λ v. wrapping_add base (sign_extend 32 v)) (from_le_bytes4 (d % 2 ^ 32) (omega arith))
      ∙ ap (wrapping_add base) (sign_back d (omega arith) near)
      ∙ step_back base target (omega arith) small)
