-- ===== src/Sigreturn.antt =====
-- sigreturn.rs: the Linux arm64 signal trampoline and the registers that its frame restores.
pub mod Laws
mod Tests
use framehopunwind.Base.{
  ℕ, zero, suc, ◌-◌, ◌/◌, ◌%◌, ◌||◌, List, [], ◌∷◌, if◌then◌else◌, ◌+◌, ◌*◌, Bool, false, ◌&&◌, not,
  Option, none, some, ◌==◌, wrapping_add, checked_add,
}
use framehopunwind.Framehop.{Framehop}

-- `SIGCONTEXT`, `SIGCONTEXT_REGS`, `SIGCONTEXT_SP` and `SIGCONTEXT_PC`
abbrev pub sigcontext_offset : ℕ
sigcontext_offset = 128 + 176

abbrev pub sigcontext_regs : ℕ
sigcontext_regs = 8

abbrev pub sigcontext_sp : ℕ
sigcontext_sp = 256

abbrev pub sigcontext_pc : ℕ
sigcontext_pc = 264

-- `SIGRETURN`
abbrev pub sigreturn_mov : ℕ
sigreturn_mov = 0xd2801168

abbrev pub sigreturn_svc : ℕ
sigreturn_svc = 0xd4000001

-- `Elf64_Phdr` of the vDSO: the fields read. `PF_X` is the lowest bit of `p_flags`.
pub record VdsoPhdr : Type 0 where
  pub p_type : ℕ
  pub p_flags : ℕ
  pub p_offset : ℕ
  pub p_filesz : ℕ

-- The vDSO, where `getauxval` finds one: its address and program headers.
pub record Vdso : Type 0 where
  pub base : ℕ
  pub phdrs : List VdsoPhdr

-- `code.windows(2).position(..)` over the `w` windows from an address on.
unfoldable pub find_code : (ℕ → ℕ) → ℕ → ℕ → Option ℕ
find_code word_at zero a = none
find_code word_at (suc w) a =
    let rest = find_code word_at w (a + 4) in
    if (word_at a == sigreturn_mov) && (word_at (a + 4) == sigreturn_svc) then some a else rest

abbrev pub or_next : Option ℕ → ℕ → ℕ
or_next none next = next
or_next (some a) next = a

unfoldable pub find_in : (ℕ → ℕ) → ℕ → List VdsoPhdr → ℕ
find_in word_at base [] = 0
find_in word_at base (ph ∷ l) =
    let rest = find_in word_at base l in
    if not (ph.p_type == 1) || (ph.p_flags % 2 == 0)
    then rest
    else or_next (find_code word_at (ph.p_filesz / 4 - 1) (base + ph.p_offset)) rest

unfoldable pub find_trampoline : (ℕ → ℕ) → Option Vdso → ℕ
find_trampoline word_at none = 0
find_trampoline word_at (some v) = find_in word_at v.base v.phdrs

-- TRAMPOLINE is `none` before `init`.
unfoldable pub is_trampoline : Option ℕ → ℕ → Bool
is_trampoline none ip = false
is_trampoline (some t) ip = not (t == 0) && t == ip

infixl 5 ◌>>=◌
abbrev ◌>>=◌ {ℓ κ} : {A : Type ℓ} {B : Type κ} → Option A → (A → Option B) → Option B
none >>= f = none
some a >>= f = f a

module _ (fh : Framehop) where
  -- The closure `field` of `restore`.
  unfoldable pub field_at : (ℕ → Option ℕ) → ℕ → ℕ → Option ℕ
  field_at read_stack sigcontext offset = read_stack (wrapping_add sigcontext offset)

  -- The interrupted pc, with the registers as they were interrupted.
  unfoldable pub restore : fh.UnwindRegs → (ℕ → Option ℕ) → Option (ℕ × fh.UnwindRegs)
  unfolding field_at
  restore regs read_stack = do
    sigcontext ← checked_add (fh.sp regs) sigcontext_offset
    fp ← field_at read_stack sigcontext (sigcontext_regs + 29 * 8)
    lr ← field_at read_stack sigcontext (sigcontext_regs + 30 * 8)
    sp ← field_at read_stack sigcontext sigcontext_sp
    pc ← field_at read_stack sigcontext sigcontext_pc
    some (pc, fh.set_sp sp (fh.set_lr lr (fh.set_fp fp regs)))
