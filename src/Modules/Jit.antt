-- ===== src/Modules/Jit.antt =====
-- modules/jit.rs: registration of the code of a JIT compiler. Entries of an `.eh_frame` section are
-- what the parser of the gimli library makes of the bytes, which is a parameter.
pub mod Range
pub mod Laws
pub mod Idle
use framehopunwind.Base.{
  ℕ, ◌+◌, ◌-◌, ◌*◌, ◌^◌, ◌%◌, Bool, true, false, ◌&&◌, ◌||◌, Option, none, some, List, [], ◌∷◌, ℤ,
  pos, negsuc, ltb, leb, ◌==◌, if◌then◌else◌, u64_max, wrapping_add,
}
use framehopunwind.Framehop.{Framehop, SectionInfo, default_info, owned}
use framehopunwind.Modules.Registry.{
  Tracker, add_jit_module, remove_jit_module, remove_jit_module_by_eh_frame,
}

-- What a call of `entries.next()` gives, the parse of an FDE included: `Err(_)` of either is
-- `malformed`. The end of the list is `Ok(None)`.
pub data Entry : Type 0 where
  cie : Entry
  fde : (initial_address len : ℕ) → Entry
  malformed : Entry

-- The loop of `fde_pc_range`, with `lo`, `hi` and `found`.
unfoldable pub scan_fdes : List Entry → ℕ → ℕ → Bool → Option (ℕ × ℕ × Bool)
scan_fdes [] lo hi found = some (lo, hi, found)
scan_fdes (cie ∷ l) lo hi found = scan_fdes l lo hi found
scan_fdes (fde start len ∷ l) lo hi found =
    scan_fdes l (if ltb start lo then start else lo)
      (if ltb hi (wrapping_add start len) then wrapping_add start len else hi) true
scan_fdes (malformed ∷ l) lo hi found = none

unfoldable pub scanned_range : Option (ℕ × ℕ × Bool) → Option (ℕ × ℕ)
scanned_range none = none
scanned_range (some (lo, hi, found)) = if found && ltb lo hi then some (lo, hi) else none

unfoldable pub fde_pc_range : List Entry → Option (ℕ × ℕ)
fde_pc_range entries = scanned_range (scan_fdes entries u64_max 0 false)

-- The tracker and JIT_REGISTER_FAILURES.
pub record Jit (fh : Framehop) : Type 0 where
  pub tracker : Tracker fh
  pub register_failures : ℕ

abbrev pub is_negative : ℤ → Bool
is_negative (pos n) = false
is_negative (negsuc n) = true

-- The readable memory, and the parser: it takes the bytes and their runtime address.
pub record Embedder : Type 0 where
  pub bytes_at : ℕ → ℕ → List ℕ
  pub entries : List ℕ → ℕ → List Entry

-- `ExplicitModuleSectionInfo` of a registration.
abbrev pub jit_info : List ℕ → ℕ → ℕ → ℕ → SectionInfo
jit_info bytes eh_frame_ptr eh_frame_len text_lo = record default_info {
  base_svma = text_lo;
  eh_frame = some (owned bytes);
  eh_frame_svma = some (eh_frame_ptr, wrapping_add eh_frame_ptr eh_frame_len);
}

module _ {fh : Framehop} where
  unfoldable pub note_fail : ℤ → Jit fh → ℤ × Jit fh
  note_fail rc j = (
    rc,
    if is_negative rc
        then record j { register_failures = wrapping_add j.register_failures 1 }
        else j,
  )

  unfoldable pub register_parsed : List ℕ → ℕ → ℕ → ℕ → ℕ → Option (ℕ × ℕ) → Jit fh → ℤ × Jit fh
  register_parsed bytes ptr len text_lo text_hi none j = note_fail (negsuc 2) j
  register_parsed bytes ptr len text_lo text_hi (some range) j = (
    pos 0,
    record j {
      tracker =
          add_jit_module text_lo ptr
            (fh.new_module [] (text_lo, text_hi) text_lo (jit_info bytes ptr len text_lo))
            j.tracker;
    },
  )

module _ {fh : Framehop} (env : Embedder) where
  unfoldable pub register_jit_eh_frame : ℕ → ℕ → ℕ → ℕ → Jit fh → ℤ × Jit fh
  register_jit_eh_frame ptr len text_lo text_hi j =
      if ptr == 0 || len == 0 || leb text_hi text_lo
      then note_fail (negsuc 0) j
      else if ltb (2 ^ 32 - 1) (text_hi - text_lo)
      then note_fail (negsuc 1) j
      else register_parsed (env.bytes_at ptr len) ptr len text_lo text_hi
          (fde_pc_range (env.entries (env.bytes_at ptr len) ptr)) j

  unfoldable pub register_found : ℕ → ℕ → Option (ℕ × ℕ) → Jit fh → ℤ × Jit fh
  register_found ptr len none j = note_fail (negsuc 2) j
  register_found ptr len (some (text_lo, text_hi)) j =
      register_jit_eh_frame ptr len text_lo text_hi j

  unfoldable pub register_jit_eh_frame_auto : ℕ → ℕ → Jit fh → ℤ × Jit fh
  register_jit_eh_frame_auto ptr len j =
      if ptr == 0 || len == 0
      then note_fail (negsuc 0) j
      else register_found ptr len (fde_pc_range (env.entries (env.bytes_at ptr len) ptr)) j

module _ {fh : Framehop} where
  unfoldable pub deregister_jit : ℕ → Jit fh → Jit fh
  deregister_jit text_lo j = record j { tracker = remove_jit_module text_lo j.tracker }

  unfoldable pub deregister_jit_eh_frame : ℕ → Jit fh → Jit fh
  deregister_jit_eh_frame ptr j = record j { tracker = remove_jit_module_by_eh_frame ptr j.tracker }
