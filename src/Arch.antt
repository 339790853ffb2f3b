-- ===== src/Arch.antt =====
-- arch.rs: the register snapshot of the C interface and framehop's registers.
use framehopunwind.Base.{ℕ}
use framehopunwind.Target.{Arch, x86_64, aarch64, other_arch}
use framehopunwind.Framehop.{Framehop}

-- `r: [u64; 5]`
pub record FhContext : Type 0 where
  pub r0 : ℕ
  pub r1 : ℕ
  pub r2 : ℕ
  pub r3 : ℕ
  pub r4 : ℕ

abbrev pub zeroed : FhContext
zeroed = record { r0 = 0; r1 = 0; r2 = 0; r3 = 0; r4 = 0 }

unfoldable pub context_ip : FhContext → ℕ
context_ip ctx = ctx.r0

unfoldable pub context_sp : FhContext → ℕ
context_sp ctx = ctx.r1

module _ (arch : Arch) (fh : Framehop) where
  -- The x86_64 version, and the aarch64 one for the rest (no other target compiles this module).
  unfoldable pub make_regs : FhContext → ℕ → fh.UnwindRegs
  make_regs ctx code_ptr_auth_mask = elim arch [
    | x86_64 ↦ fh.regs_x86_64 ctx.r0 ctx.r1 ctx.r2
    | aarch64 ↦ fh.regs_aarch64 code_ptr_auth_mask ctx.r3 ctx.r1 ctx.r2
    | other_arch ↦ fh.regs_aarch64 code_ptr_auth_mask ctx.r3 ctx.r1 ctx.r2
  ]

module _ (fh : Framehop) where
  unfoldable pub initial_frame_address : FhContext → fh.FrameAddress
  unfolding context_ip
  initial_frame_address ctx = fh.from_instruction_pointer (context_ip ctx)
