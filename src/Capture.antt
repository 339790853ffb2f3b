-- ===== src/Capture.antt =====
-- capture.rs: the register snapshot from what an operating system delivers to a signal handler or a
-- sampler.
pub mod Machine
pub mod Laws
pub mod Walks
pub mod Signals
mod Tests
use framehopunwind.Base.{ℕ, ◌+◌, ◌-◌, ◌%◌, ◌^◌, Option, none, some, ℤ, pos, negsuc}
use framehopunwind.Target.{Arch, x86_64, aarch64, other_arch}
use framehopunwind.Arch.{FhContext, zeroed}

-- `as u64` of a signed word
abbrev pub as_u64 : ℤ → ℕ
as_u64 (pos n) = n % 2 ^ 64
as_u64 (negsuc n) = 2 ^ 64 - 1 - n % 2 ^ 64

-- `__darwin_x86_thread_state64` and `__darwin_arm_thread_state64`, which a mach thread state is, and
-- which `uc_mcontext` points to: its words in their order.
pub record X86ThreadState : Type 0 where
  pub rax : ℕ
  pub rbx : ℕ
  pub rcx : ℕ
  pub rdx : ℕ
  pub rdi : ℕ
  pub rsi : ℕ
  pub rbp : ℕ
  pub rsp : ℕ
  pub r8_to_r15 : ℕ → ℕ
  pub rip : ℕ

pub record ArmThreadState : Type 0 where
  pub x : ℕ → ℕ
  pub fp : ℕ
  pub lr : ℕ
  pub sp : ℕ
  pub pc : ℕ

-- What the pointer points to on each system, by the fields that are read: signed words where the C
-- type is.
pub data OsContext : Type 0 where
  linux_x86_64 : (rip rsp rbp : ℤ) → OsContext
  linux_aarch64 : (pc sp : ℕ) (regs : ℕ → ℕ) → OsContext
  freebsd_x86_64 : (rip rsp rbp : ℤ) → OsContext
  freebsd_aarch64 : (elr sp : ℤ) (x : ℕ → ℤ) (lr : ℤ) → OsContext
  macos_x86_64 : X86ThreadState → OsContext
  macos_aarch64 : ArmThreadState → OsContext
  windows_x86_64 : (rip rsp rbp : ℕ) → OsContext
  unlisted : OsContext

unfoldable pub fill_from_os : FhContext → OsContext → FhContext
fill_from_os ctx (linux_x86_64 rip rsp rbp) = record ctx {
  r0 = as_u64 rip;
  r1 = as_u64 rsp;
  r2 = as_u64 rbp;
}
fill_from_os ctx (linux_aarch64 pc sp regs) = record ctx {
  r0 = pc;
  r1 = sp;
  r2 = regs 29;
  r3 = regs 30;
}
fill_from_os ctx (freebsd_x86_64 rip rsp rbp) = record ctx {
  r0 = as_u64 rip;
  r1 = as_u64 rsp;
  r2 = as_u64 rbp;
}
fill_from_os ctx (freebsd_aarch64 elr sp x lr) = record ctx {
  r0 = as_u64 elr;
  r1 = as_u64 sp;
  r2 = as_u64 (x 29);
  r3 = as_u64 lr;
}
fill_from_os ctx (macos_x86_64 ss) = record ctx { r0 = ss.rip; r1 = ss.rsp; r2 = ss.rbp }
fill_from_os ctx (macos_aarch64 ss) = record ctx { r0 = ss.pc; r1 = ss.sp; r2 = ss.fp; r3 = ss.lr }
fill_from_os ctx (windows_x86_64 rip rsp rbp) = record ctx { r0 = rip; r1 = rsp; r2 = rbp }
fill_from_os ctx unlisted = ctx

-- The first argument is what `*ctx` holds before; a null pointer is `none`.
unfoldable pub context_from_os : FhContext → Option OsContext → FhContext
unfolding fill_from_os
context_from_os ctx none = zeroed
context_from_os ctx (some os_ctx) = fill_from_os zeroed os_ctx

-- The words at `ts` are given by their index.
unfoldable pub fill_from_thread_state : Arch → FhContext → (ℕ → ℕ) → FhContext
fill_from_thread_state x86_64 ctx p = record ctx { r0 = p 16; r1 = p 7; r2 = p 6 }
fill_from_thread_state aarch64 ctx p = record ctx { r0 = p 32; r1 = p 31; r2 = p 29; r3 = p 30 }
fill_from_thread_state other_arch ctx p = ctx

unfoldable pub context_from_thread_state : Arch → FhContext → Option (ℕ → ℕ) → FhContext
unfolding fill_from_thread_state
context_from_thread_state arch ctx none = zeroed
context_from_thread_state arch ctx (some ts) = fill_from_thread_state arch zeroed ts
