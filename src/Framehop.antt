-- ===== src/Framehop.antt =====
-- The unwinding library that the crate calls, as a parameter: its types, the operations used, and
-- what its documentation says of them. Nothing of the library itself is modelled.
use framehopunwind.Base.{ℕ, ◌≡◌, ◌≢◌, Bool, Option, none, some, List, ◌+◌, ◌-◌, ◌==◌, if◌then◌else◌}

-- The result of `Unwinder::unwind_frame_signal_aware`: `Ok(Some((return_address, interrupted)))`,
-- `Ok(None)` at the root of the stack, or `Err(_)`.
pub data Unwound : Type 0 where
  caller : (return_address : ℕ) (interrupted : Bool) → Unwound
  root : Unwound
  failed : Unwound

-- `Bytes` of state.rs: a copy, or the address and length of bytes that are read in place.
pub data Bytes : Type 0 where
  owned : (bytes : List ℕ) → Bytes
  mapped : (address len : ℕ) → Bytes

-- `ExplicitModuleSectionInfo`: the fields that the crate sets. A `Range` is its start and end.
pub record SectionInfo : Type 0 where
  pub base_svma : ℕ
  pub text_svma : Option (ℕ × ℕ)
  pub eh_frame_hdr : Option Bytes
  pub eh_frame_hdr_svma : Option (ℕ × ℕ)
  pub eh_frame : Option Bytes
  pub eh_frame_svma : Option (ℕ × ℕ)
  pub unwind_info : Option Bytes
  pub text_segment : Option Bytes
  pub text_segment_svma : Option (ℕ × ℕ)
  pub stubs_svma : Option (ℕ × ℕ)
  pub stub_helper_svma : Option (ℕ × ℕ)
  pub got_svma : Option (ℕ × ℕ)

-- `..Default::default()`
abbrev pub default_info : SectionInfo
default_info = record {
  base_svma = 0;
  text_svma = none;
  eh_frame_hdr = none;
  eh_frame_hdr_svma = none;
  eh_frame = none;
  eh_frame_svma = none;
  unwind_info = none;
  text_segment = none;
  text_segment_svma = none;
  stubs_svma = none;
  stub_helper_svma = none;
  got_svma = none;
}

pub record Framehop : Type 1 where
  pub Module : Type 0
  pub Unwinder : Type 0
  pub Cache : Type 0
  pub UnwindRegs : Type 0
  pub FrameAddress : Type 0
  -- `Module::new(name, start..end, base_avma, info)`
  pub new_module : List ℕ → ℕ × ℕ → ℕ → SectionInfo → Module
  pub new_cache : Cache
  pub new_unwinder : Unwinder
  pub add_module : Unwinder → Module → Unwinder
  pub remove_module : Unwinder → ℕ → Unwinder
  pub max_known_code_address : Unwinder → ℕ
  pub from_instruction_pointer : ℕ → FrameAddress
  pub return_address : ℕ → FrameAddress
  -- `UnwindRegsX86_64::new(ip, sp, bp)`
  pub regs_x86_64 : ℕ → ℕ → ℕ → UnwindRegs
  -- `UnwindRegsAarch64::new_with_ptr_auth_mask(mask, lr, sp, fp)`
  pub regs_aarch64 : ℕ → ℕ → ℕ → ℕ → UnwindRegs
  pub sp : UnwindRegs → ℕ
  pub set_sp : ℕ → UnwindRegs → UnwindRegs
  pub set_fp : ℕ → UnwindRegs → UnwindRegs
  pub set_lr : ℕ → UnwindRegs → UnwindRegs
  -- The last argument reads the stack; it returns nothing where the reader refuses.
  pub unwind_frame :
      Unwinder → FrameAddress → UnwindRegs → Cache → (ℕ → Option ℕ) → Unwound × UnwindRegs × Cache

-- The register records give back the stack pointer that was put in.
pub record SpLaws (fh : Framehop) : Type 0 where
  pub sp_x86_64 : (ip s bp : ℕ) → fh.sp (fh.regs_x86_64 ip s bp) ≡ s
  pub sp_aarch64 : (mask lr s f : ℕ) → fh.sp (fh.regs_aarch64 mask lr s f) ≡ s
  pub sp-set_sp : (s : ℕ) (r : fh.UnwindRegs) → fh.sp (fh.set_sp s r) ≡ s

-- The module list of an unwinder: how many modules start at an address. `remove_module` removes a
-- module that starts at the address, and is ignored if there is none. `module_at` is a module that
-- starts at an address; what is added or removed elsewhere is not it.
pub record ModuleLaws (fh : Framehop) : Type 0 where
  pub start : fh.Module → ℕ
  pub count_at : fh.Unwinder → ℕ → ℕ
  pub start-new_module :
      (name : List ℕ) (lo hi base : ℕ) (info : SectionInfo)
      → start (fh.new_module name (lo, hi) base info) ≡ lo
  pub count_at-new : (k : ℕ) → count_at fh.new_unwinder k ≡ 0
  pub count_at-add :
      (u : fh.Unwinder) (m : fh.Module) (k : ℕ)
      → count_at (fh.add_module u m) k ≡ (if start m == k then 1 else 0) + count_at u k
  pub count_at-remove :
      (u : fh.Unwinder) (j k : ℕ)
      → count_at (fh.remove_module u j) k ≡ count_at u k - (if j == k then 1 else 0)
  pub module_at : fh.Unwinder → ℕ → Option fh.Module
  pub module_at-add :
      (u : fh.Unwinder) (m : fh.Module)
      → count_at u (start m) ≡ 0
      → module_at (fh.add_module u m) (start m) ≡ some m
  pub module_at-add_other :
      (u : fh.Unwinder) (m : fh.Module) (k : ℕ)
      → start m ≢ k
      → module_at (fh.add_module u m) k ≡ module_at u k
  pub module_at-remove_other :
      (u : fh.Unwinder) (j k : ℕ) → j ≢ k → module_at (fh.remove_module u j) k ≡ module_at u k
