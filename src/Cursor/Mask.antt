-- ===== src/Cursor/Mask.antt =====
-- cursor.rs: the mask that strips pointer authentication from return addresses.
use framehopunwind.Base.{
  ℕ, zero, suc, ◌+◌, ◌-◌, ◌*◌, ◌/◌, ◌^◌, ◌≤◌, ◌<◌, ◌≡◌, ==_iff, inl, inr, refl, Bool, true, false,
  ◌==◌, if◌then◌else◌, u64_max, Bool-cases, dec_lt, ℕ_discrete, arith,
}
use native.Mathlib.Nat.{pow-suc}
use native.Mathlib.Numerals.{towards_suc}
use framehopunwind.Target.{Arch, aarch64, x86_64, other_arch}

-- `u64::leading_zeros`: 64 less the number of significant bits.
unfoldable pub bit_length : ℕ → ℕ → ℕ
bit_length zero x = 0
bit_length (suc w) x = let rest = bit_length w (x / 2) in if x == 0 then 0 else rest + 1

unfoldable pub leading_zeros : ℕ → ℕ
leading_zeros x = 64 - bit_length 64 x

unfoldable pub ptr_auth_mask : Arch → ℕ → ℕ
unfolding leading_zeros
ptr_auth_mask x86_64 max_code = u64_max
ptr_auth_mask aarch64 max_code =
    if max_code == 0 then u64_max else u64_max / 2 ^ leading_zeros max_code
ptr_auth_mask other_arch max_code = u64_max

-- Whether a shift of all ones down to `k` bits leaves `k` ones.
abbrev shifts_to : ℕ → Bool
shifts_to k = u64_max / 2 ^ (64 - k) == 2 ^ k - 1

-- The same up to a width.
up_to : ℕ → Bool
up_to zero = shifts_to 0
up_to (suc w) = if shifts_to (w + 1) then up_to w else false

up_to_width : up_to 64 ≡ true
unfolding up_to
up_to_width = refl

shifts_to_le : (k w : ℕ) → up_to w ≡ true → k ≤ w → shifts_to k ≡ true
unfolding up_to
shifts_to_le k zero all le = let e : k ≡ 0 = omega arith in rw e all
shifts_to_le k (suc w) all le = elim (ℕ_discrete k (w + 1)) [
  | yes top ↦ rw top (ground (arith, all))
  | no below ↦ shifts_to_le k w (ground (arith, all)) (omega arith)
]

-- `u64::MAX >> (64 - k)`
max_shift : (k : ℕ) → k ≤ 64 → u64_max / 2 ^ (64 - k) ≡ 2 ^ k - 1
max_shift k h = (==_iff _ _).0 (shifts_to_le k 64 up_to_width h)

bit_length-zero : (w : ℕ) → bit_length w 0 ≡ 0
unfolding bit_length
bit_length-zero zero = refl
bit_length-zero (suc w) = refl

pow_double : (k : ℕ) → 2 ^ (k + 1) ≡ 2 * 2 ^ k
pow_double k = simp towards_suc (omega (arith, pow-suc 2 k))

-- The bounds on a number that `bit_length` counts.
abbrev Spans : ℕ → ℕ → Type 0
Spans k x = (x < 2 ^ k) × (0 < x → 2 ^ k ≤ 2 * x)

Spans-double : (k x : ℕ) → Spans k (x / 2) → 0 < x → (x / 2 ≡ 0 → k ≡ 0) → Spans (k + 1) x
Spans-double k x (below, above) some_bit base = elim (dec_lt 0 (x / 2)) [
  | yes more ↦ (omega (arith, pow_double k), λ _. omega (arith, pow_double k, above more))
  | no last ↦ let e : k ≡ 0 = base (omega arith) in rw e (omega arith, λ _. omega arith)
]

bit_length-Spans : (w x : ℕ) → x < 2 ^ w → (bit_length w x ≤ w) × Spans (bit_length w x) x
unfolding bit_length
bit_length-Spans zero x h =
    let e : x ≡ 0 = omega arith in (omega arith, (rw e (omega arith), λ p. absurd (omega arith)))
bit_length-Spans (suc w) x h = elim (Bool-cases (x == 0)) [
  | inl null ↦ rw null (omega arith, (ground arith, λ p. absurd (ground arith)))
  | inr more ↦
      let (le, spans) = bit_length-Spans w (x / 2) (omega (arith, pow-suc 2 w)) in
      rw more (
        omega arith,
        Spans-double (bit_length w (x / 2)) x spans (ground arith) (λ e. rw e (bit_length-zero w)),
      )
]

-- On aarch64 the mask for a known code address is all ones up to the address's highest bit: it
-- keeps the address, and has no bit above it.
pub ptr_auth_mask_aarch64 :
    (m : ℕ)
    → 0 < m
    → m < 2 ^ 64
    → (k : ℕ) × (ptr_auth_mask aarch64 m ≡ 2 ^ k - 1) × (m ≤ 2 ^ k - 1) × (2 ^ k ≤ 2 * m)
unfolding ptr_auth_mask
ptr_auth_mask_aarch64 m known h =
    let (le, spans) = bit_length-Spans 64 m h in
    let nonzero : (m == 0) ≡ false = ground arith in
    (
      bit_length 64 m,
      rw nonzero (max_shift (bit_length 64 m) le),
      omega (arith, spans.0),
      spans.1 known,
    )
