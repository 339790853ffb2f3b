-- ===== src/Capture/Tests.antt =====
-- capture.rs: the theorems at a machine that calls the routines.
use framehopunwind.Base.{◌≡◌, inl, refl, some, ◌==◌, if◌then◌else◌, arith}
use framehopunwind.Target.{framehop_supported, linux, x86_64, aarch64}
use framehopunwind.Arch.{zeroed}
use framehopunwind.Capture.{
  X86ThreadState, ArmThreadState, macos_x86_64, macos_aarch64, context_from_os,
  context_from_thread_state,
}
use framehopunwind.Capture.Machine.{
  rdi, rsp, rbp, x29, x30, sp, index, Machine, run, exec, capture_x86_64, capture_aarch64,
  context_at,
}
use framehopunwind.Capture.Signals.{Interrupted, delivered, context_from_os-delivered}
use framehopunwind.Capture.Laws.{
  Captures, caller_x86_64, capture_x86_64-Captures, capture_aarch64-Captures, words_of_x86,
  words_of_arm, context_from_thread_state-context_from_os,
}

-- The structure is at 0x2000, above the stack pointer; the return address is 0x4100.
abbrev pub calling : Machine
calling = record {
  reg =
      λ r. if index r == index rdi then 0x2000 else if index r == index rsp then 0x1000 else 0x1010;
  mem = λ a. if a == 0x1000 then 0x4100 else 0;
  pc = 0x9000;
}

capture_x86_64-Captures_example :
    let after = run (capture_x86_64 linux) calling in
    Captures calling after 0x2000 (caller_x86_64 after) 0x4100 × (after.reg rbp ≡ 0x1010)
capture_x86_64-Captures_example = capture_x86_64-Captures linux calling (inl (omega arith))

captured_words :
    context_at (run (capture_x86_64 linux) calling).mem 0x2000
    ≡ record { r0 = 0x4100; r1 = 0x1008; r2 = 0x1010; r3 = 0; r4 = 0 }
unfolding run exec
captured_words = refl

capture_aarch64-Captures_example :
    let after = run capture_aarch64 calling in
    Captures calling after 0x1010
      (record { r0 = after.pc; r1 = after.reg sp; r2 = after.reg x29; r3 = after.reg x30; r4 = 0 })
      0x1010
    × (after.reg sp ≡ 0x1010)
    × (after.reg x29 ≡ 0x1010)
capture_aarch64-Captures_example = capture_aarch64-Captures calling

abbrev x86_state : X86ThreadState
x86_state = record {
  rax = 1;
  rbx = 2;
  rcx = 3;
  rdx = 4;
  rdi = 5;
  rsi = 6;
  rbp = 7;
  rsp = 8;
  r8_to_r15 = λ i. i;
  rip = 9;
}

abbrev arm_state : ArmThreadState
arm_state = record { x = λ i. i; fp = 29; lr = 30; sp = 31; pc = 32 }

context_from_thread_state-context_from_os_example :
    (context_from_thread_state x86_64 zeroed (some (words_of_x86 x86_state))
      ≡ context_from_os zeroed (some (macos_x86_64 x86_state)))
    × (context_from_thread_state aarch64 zeroed (some (words_of_arm arm_state))
        ≡ context_from_os zeroed (some (macos_aarch64 arm_state)))
context_from_thread_state-context_from_os_example =
    context_from_thread_state-context_from_os zeroed zeroed x86_state arm_state

-- A thread interrupted in the upper half of the address space.
abbrev interrupted : Interrupted
interrupted = record {
  ip = 0xffffffff81000000;
  sp = 0x7000;
  fp = 0x7010;
  lr = 0x4100;
  other = λ i. i;
  words = (omega arith, omega arith, omega arith, omega arith);
}

context_from_os-delivered_example :
    context_from_os zeroed (some (delivered linux x86_64 interrupted))
    ≡ record { r0 = 0xffffffff81000000; r1 = 0x7000; r2 = 0x7010; r3 = 0; r4 = 0 }
unfolding framehop_supported
context_from_os-delivered_example = context_from_os-delivered linux x86_64 interrupted zeroed refl
