-- ===== src/Capture/Laws.antt =====
-- capture.rs: what the captured registers are.
use framehopunwind.Base.{
  ℕ, ◌+◌, ◌-◌, ◌≤◌, ◌≡◌, ◌⊎◌, refl, sym, ◌∙◌, ap, some, ltb, ◌==◌, if◌then◌else◌, arith,
  wrapping_add,
}
use framehopunwind.Target.{Os, linux, freebsd, macos, windows, other_os, x86_64, aarch64}
use framehopunwind.Arch.{FhContext}
use framehopunwind.Capture.{
  X86ThreadState, ArmThreadState, macos_x86_64, macos_aarch64, fill_from_os, context_from_os,
  fill_from_thread_state, context_from_thread_state,
}
use framehopunwind.Capture.Machine.{
  rax, rcx, rdi, rsp, rbp, x0, x29, x30, sp, Machine, run, exec, argument, capture_x86_64,
  capture_aarch64, context_at, write, set,
}

-- The word at `a` is not part of the structure at `ctx`.
abbrev pub Outside : ℕ → ℕ → Type 0
Outside ctx a = (a + 8 ≤ ctx) ⊎ (ctx + 40 ≤ a)

-- The memory after the five words were stored.
abbrev stored : ℕ → FhContext → (ℕ → ℕ) → ℕ → ℕ
stored ctx c mem = write (ctx + 32) c.r4 (
    write (ctx + 24) c.r3 (write (ctx + 16) c.r2 (write (ctx + 8) c.r1 (write (ctx + 0) c.r0 mem))))

stored-kept : (ctx a : ℕ) (c : FhContext) (mem : ℕ → ℕ) → Outside ctx a → stored ctx c mem a ≡ mem a
stored-kept ctx a c mem out = ground (arith, out)

context_at-stored : (ctx : ℕ) (c : FhContext) (mem : ℕ → ℕ) → context_at (stored ctx c mem) ctx ≡ c
context_at-stored ctx c mem =
    let m = stored ctx c mem in
    let e0 : m ctx ≡ c.r0 = ground arith in
    let e1 : m (ctx + 8) ≡ c.r1 = ground arith in
    let e2 : m (ctx + 16) ≡ c.r2 = ground arith in
    let e3 : m (ctx + 24) ≡ c.r3 = ground arith in
    let e4 : m (ctx + 32) ≡ c.r4 = ground arith in
    λ i. record { r0 = e0 i; r1 = e1 i; r2 = e2 i; r3 = e3 i; r4 = e4 i }

-- What a routine leaves that captured `c` at `ctx` and returned to `caller`.
pub record Captures (m after : Machine) (ctx : ℕ) (c : FhContext) (caller : ℕ) : Type 0 where
  pub context : context_at after.mem ctx ≡ c
  pub returned : after.pc ≡ caller
  pub untouched : (a : ℕ) → Outside ctx a → after.mem a ≡ m.mem a

-- The words that the x86_64 routines store, and the machine after them.
abbrev words_x86_64 : Machine → FhContext
words_x86_64 m = record {
  r0 = m.mem (m.reg rsp + 0);
  r1 = wrapping_add (m.reg rsp) 8;
  r2 = m.reg rbp;
  r3 = 0;
  r4 = 0;
}

abbrev after_x86_64 : Machine → ℕ → Machine
after_x86_64 m ctx =
    let up = wrapping_add (m.reg rsp) 8 in
    record {
      reg = set rsp up (set rax up (set rax (m.mem (m.reg rsp + 0)) m.reg));
      mem = stored ctx (words_x86_64 m) m.mem;
      pc = stored ctx (words_x86_64 m) m.mem (m.reg rsp);
    }

-- The caller's registers once the call has returned.
abbrev pub caller_x86_64 : Machine → FhContext
caller_x86_64 m = record { r0 = m.pc; r1 = m.reg rsp; r2 = m.reg rbp; r3 = 0; r4 = 0 }

after_x86_64-Captures :
    (m : Machine) (ctx : ℕ)
    → Outside ctx (m.reg rsp)
    → Captures m (after_x86_64 m ctx) ctx (caller_x86_64 (after_x86_64 m ctx)) (m.mem (m.reg rsp))
      × ((after_x86_64 m ctx).reg rbp ≡ m.reg rbp)
after_x86_64-Captures m ctx out =
    let back = stored-kept ctx (m.reg rsp) (words_x86_64 m) m.mem out in
    let first : m.mem (m.reg rsp + 0) ≡ m.mem (m.reg rsp) = ap m.mem (omega arith) in
    (
      record {
        context =
            context_at-stored ctx (words_x86_64 m) m.mem
            ∙ ap (λ v. record (words_x86_64 m) { r0 = v }) (first ∙ sym back);
        returned = back;
        untouched = λ a apart. stored-kept ctx a (words_x86_64 m) m.mem apart;
      },
      refl,
    )

-- On x86_64, where the structure does not overlap the return address on the stack: the context is
-- the instruction pointer, the stack pointer and the frame pointer that the caller has when the call
-- has returned, and zeros; the call returns to its caller, and the frame pointer and all other
-- memory are as they were.
pub capture_x86_64-Captures :
    (os : Os) (m : Machine)
    → Outside (m.reg (argument os)) (m.reg rsp)
    → let after = run (capture_x86_64 os) m in
      Captures m after (m.reg (argument os)) (caller_x86_64 after) (m.mem (m.reg rsp))
      × (after.reg rbp ≡ m.reg rbp)
unfolding run exec
capture_x86_64-Captures linux m out = after_x86_64-Captures m (m.reg rdi) out
capture_x86_64-Captures freebsd m out = after_x86_64-Captures m (m.reg rdi) out
capture_x86_64-Captures macos m out = after_x86_64-Captures m (m.reg rdi) out
capture_x86_64-Captures windows m out = after_x86_64-Captures m (m.reg rcx) out
capture_x86_64-Captures other_os m out = after_x86_64-Captures m (m.reg rdi) out

-- On aarch64 the context is the program counter, the stack pointer, the frame pointer and the link
-- register that the caller has when the call has returned, and a zero; the call returns to its
-- caller, and all other memory is as it was.
pub capture_aarch64-Captures :
    (m : Machine)
    → let after = run capture_aarch64 m in
      Captures m after
        (m.reg x0)
        (record {
          r0 = after.pc;
          r1 = after.reg sp;
          r2 = after.reg x29;
          r3 = after.reg x30;
          r4 = 0;
        })
        (m.reg x30)
      × (after.reg sp ≡ m.reg sp)
      × (after.reg x29 ≡ m.reg x29)
unfolding run exec
capture_aarch64-Captures m =
    let c : FhContext = record {
      r0 = m.reg x30;
      r1 = m.reg sp;
      r2 = m.reg x29;
      r3 = m.reg x30;
      r4 = 0;
    } in
    (
      record {
        context = context_at-stored (m.reg x0) c m.mem;
        returned = refl;
        untouched = λ a apart. stored-kept (m.reg x0) a c m.mem apart;
      },
      refl,
      refl,
    )

-- The words of a thread state, in the order of its fields; those behind the ones named are 0 here.
abbrev pub words_of_x86 : X86ThreadState → ℕ → ℕ
words_of_x86 ss i =
    if i == 0
    then ss.rax
    else if i == 1
    then ss.rbx
    else if i == 2
    then ss.rcx
    else if i == 3
    then ss.rdx
    else if i == 4
    then ss.rdi
    else if i == 5
    then ss.rsi
    else if i == 6
    then ss.rbp
    else if i == 7
    then ss.rsp
    else if ltb i 16
    then ss.r8_to_r15 (i - 8)
    else if i == 16
    then ss.rip
    else 0

abbrev pub words_of_arm : ArmThreadState → ℕ → ℕ
words_of_arm ss i =
    if ltb i 29
    then ss.x i
    else if i == 29
    then ss.fp
    else if i == 30
    then ss.lr
    else if i == 31
    then ss.sp
    else if i == 32
    then ss.pc
    else 0

-- On macOS the thread state of an interrupted thread, read by its words, and the signal context with
-- the same thread state, read by its fields, give the same context, on either architecture and
-- whatever the context held before.
pub context_from_thread_state-context_from_os :
    (ctx ctx' : FhContext) (x86 : X86ThreadState) (arm : ArmThreadState)
    → (context_from_thread_state x86_64 ctx (some (words_of_x86 x86))
        ≡ context_from_os ctx' (some (macos_x86_64 x86)))
      × (context_from_thread_state aarch64 ctx (some (words_of_arm arm))
          ≡ context_from_os ctx' (some (macos_aarch64 arm)))
unfolding context_from_thread_state fill_from_thread_state context_from_os fill_from_os
context_from_thread_state-context_from_os ctx ctx' x86 arm = (refl, refl)
