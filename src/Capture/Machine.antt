-- ===== src/Capture/Machine.antt =====
-- capture.rs: the routines in assembly that capture the registers of their caller, and the machine
-- that they run on. Memory is words of 64 bits at byte addresses.
use framehopunwind.Base.{ℕ, ◌+◌, List, [], ◌∷◌, ◌==◌, if◌then◌else◌, wrapping_add}
use framehopunwind.Target.{Os, windows}
use framehopunwind.Arch.{FhContext}

-- The registers that the routines name.
pub data Reg : Type 0 where
  rax rcx rdi rsp rbp : Reg
  x0 x1 x29 x30 sp : Reg

abbrev pub index : Reg → ℕ
index rax = 0
index rcx = 1
index rdi = 2
index rsp = 3
index rbp = 4
index x0 = 5
index x1 = 6
index x29 = 7
index x30 = 8
index sp = 9

-- The instructions that they are made of, with a displacement where there is one.
pub data Instr : Type 0 where
  load : (dst base : Reg) (disp : ℕ) → Instr
  lea : (dst base : Reg) (disp : ℕ) → Instr
  move : (dst src : Reg) → Instr
  store : (base : Reg) (disp : ℕ) (src : Reg) → Instr
  store_zero : (base : Reg) (disp : ℕ) → Instr
  -- x86: to the address on the stack, which is popped; aarch64: to the address in `x30`.
  ret : Instr
  ret_x30 : Instr

pub record Machine : Type 0 where
  pub reg : Reg → ℕ
  pub mem : ℕ → ℕ
  pub pc : ℕ

abbrev pub set : Reg → ℕ → (Reg → ℕ) → Reg → ℕ
set r v regs q = if index q == index r then v else regs q

abbrev pub write : ℕ → ℕ → (ℕ → ℕ) → ℕ → ℕ
write a v mem b = if b == a then v else mem b

unfoldable pub exec : Instr → Machine → Machine
exec (load dst base disp) m = record m { reg = set dst (m.mem (m.reg base + disp)) m.reg }
exec (lea dst base disp) m = record m { reg = set dst (wrapping_add (m.reg base) disp) m.reg }
exec (move dst src) m = record m { reg = set dst (m.reg src) m.reg }
exec (store base disp src) m = record m { mem = write (m.reg base + disp) (m.reg src) m.mem }
exec (store_zero base disp) m = record m { mem = write (m.reg base + disp) 0 m.mem }
exec ret m = record m { reg = set rsp (wrapping_add (m.reg rsp) 8) m.reg; pc = m.mem (m.reg rsp) }
exec ret_x30 m = record m { pc = m.reg x30 }

unfoldable pub run : List Instr → Machine → Machine
unfolding exec
run [] m = m
run (i ∷ l) m = run l (exec i m)

-- The first argument of a call.
abbrev pub argument : Os → Reg
argument windows = rcx
argument _ = rdi

-- `fh_capture_context` on x86_64: the System V and the Win64 variant.
abbrev pub capture_x86_64 : Os → List Instr
capture_x86_64 os =
    load rax rsp 0
    ∷ store (argument os) 0 rax
    ∷ lea rax rsp 8
    ∷ store (argument os) 8 rax
    ∷ store (argument os) 16 rbp
    ∷ store_zero (argument os) 24
    ∷ store_zero (argument os) 32
    ∷ ret
    ∷ []

-- `fh_capture_context` on aarch64.
abbrev pub capture_aarch64 : List Instr
capture_aarch64 =
    store x0 0 x30
    ∷ move x1 sp
    ∷ store x0 8 x1
    ∷ store x0 16 x29
    ∷ store x0 24 x30
    ∷ store_zero x0 32
    ∷ ret_x30
    ∷ []

-- The structure in memory.
abbrev pub context_at : (ℕ → ℕ) → ℕ → FhContext
context_at mem a = record {
  r0 = mem a;
  r1 = mem (a + 8);
  r2 = mem (a + 16);
  r3 = mem (a + 24);
  r4 = mem (a + 32);
}
