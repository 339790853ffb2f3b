-- ===== src/Capture/Signals.antt =====
-- capture.rs: what is read from the context of an interrupted thread.
use framehopunwind.Base.{
  ℕ, ◌+◌, ◌-◌, ◌<◌, ◌^◌, ◌≡◌, refl, inl, inr, true, some, ltb, ◌==◌, if◌then◌else◌, Bool-cases, ℤ,
  pos, negsuc, arith,
}
use framehopunwind.Target.{
  Os, linux, freebsd, macos, windows, other_os, Arch, x86_64, aarch64, other_arch,
  framehop_supported,
}
use framehopunwind.Arch.{FhContext}
use framehopunwind.Capture.{
  OsContext, linux_x86_64, linux_aarch64, freebsd_x86_64, freebsd_aarch64, macos_x86_64,
  macos_aarch64, windows_x86_64, unlisted, as_u64, fill_from_os, context_from_os,
}

-- A word as the signed fields of C's structures hold it.
abbrev pub as_i64 : ℕ → ℤ
as_i64 w = if ltb w (2 ^ 63) then pos w else negsuc (2 ^ 64 - 1 - w)

as_u64-as_i64 : (w : ℕ) → w < 2 ^ 64 → as_u64 (as_i64 w) ≡ w
as_u64-as_i64 w fits = elim (Bool-cases (ltb w (2 ^ 63))) [
  | inl low ↦ rw low (omega (arith, fits))
  | inr high ↦ rw high (omega (arith, fits))
]

-- The registers of an interrupted thread: instruction pointer, stack pointer, frame pointer and link
-- register, each a word, and the other general registers, whatever they hold.
pub record Interrupted : Type 0 where
  pub ip : ℕ
  pub sp : ℕ
  pub fp : ℕ
  pub lr : ℕ
  pub other : ℕ → ℕ
  pub words : (ip < 2 ^ 64) × (sp < 2 ^ 64) × (fp < 2 ^ 64) × (lr < 2 ^ 64)

-- The context that each supported system delivers for the thread: on aarch64 x29 is the frame pointer
-- and x30 the link register. Signed fields hold the words so.
abbrev pub delivered : Os → Arch → Interrupted → OsContext
delivered linux x86_64 t = linux_x86_64 (as_i64 t.ip) (as_i64 t.sp) (as_i64 t.fp)
delivered freebsd x86_64 t = freebsd_x86_64 (as_i64 t.ip) (as_i64 t.sp) (as_i64 t.fp)
delivered windows x86_64 t = windows_x86_64 t.ip t.sp t.fp
delivered macos x86_64 t = macos_x86_64 (record {
  rax = t.other 0;
  rbx = t.other 1;
  rcx = t.other 2;
  rdx = t.other 3;
  rdi = t.other 4;
  rsi = t.other 5;
  rbp = t.fp;
  rsp = t.sp;
  r8_to_r15 = λ i. t.other (i + 6);
  rip = t.ip;
})
delivered linux aarch64 t =
    linux_aarch64 t.ip t.sp (λ i. if i == 29 then t.fp else if i == 30 then t.lr else t.other i)
delivered freebsd aarch64 t =
    freebsd_aarch64 (as_i64 t.ip) (as_i64 t.sp) (λ i. as_i64 (if i == 29 then t.fp else t.other i))
      (as_i64 t.lr)
delivered macos aarch64 t =
    macos_aarch64 (record { x = t.other; fp = t.fp; lr = t.lr; sp = t.sp; pc = t.ip })
delivered _ _ t = unlisted

abbrev pub link : Arch → Interrupted → ℕ
link x86_64 t = 0
link aarch64 t = t.lr
link other_arch t = 0

-- On every supported system, the context read from the one that the system delivers has the registers
-- of the interrupted thread, whether the system's fields are signed or not, and whatever it held
-- before.
pub context_from_os-delivered :
    (os : Os) (arch : Arch) (t : Interrupted) (ctx : FhContext)
    → framehop_supported os arch ≡ true
    → context_from_os ctx (some (delivered os arch t))
      ≡ record { r0 = t.ip; r1 = t.sp; r2 = t.fp; r3 = link arch t; r4 = 0 }
unfolding context_from_os fill_from_os framehop_supported
context_from_os-delivered linux x86_64 t ctx d =
    let (ip, sp, fp, lr) = t.words in
    rw (as_u64-as_i64 t.ip ip, as_u64-as_i64 t.sp sp, as_u64-as_i64 t.fp fp) refl
context_from_os-delivered freebsd x86_64 t ctx d =
    let (ip, sp, fp, lr) = t.words in
    rw (as_u64-as_i64 t.ip ip, as_u64-as_i64 t.sp sp, as_u64-as_i64 t.fp fp) refl
context_from_os-delivered windows x86_64 t ctx d = refl
context_from_os-delivered linux aarch64 t ctx d = refl
context_from_os-delivered freebsd aarch64 t ctx d =
    let (ip, sp, fp, lr) = t.words in
    rw (as_u64-as_i64 t.ip ip, as_u64-as_i64 t.sp sp, as_u64-as_i64 t.fp fp, as_u64-as_i64 t.lr lr)
      refl
context_from_os-delivered macos x86_64 t ctx d = refl
context_from_os-delivered macos aarch64 t ctx d = refl
context_from_os-delivered windows aarch64 t ctx d = absurd (ground (arith, d))
context_from_os-delivered linux other_arch t ctx d = absurd (ground (arith, d))
context_from_os-delivered freebsd other_arch t ctx d = absurd (ground (arith, d))
context_from_os-delivered macos other_arch t ctx d = absurd (ground (arith, d))
context_from_os-delivered windows other_arch t ctx d = absurd (ground (arith, d))
context_from_os-delivered other_os x86_64 t ctx d = absurd (ground (arith, d))
context_from_os-delivered other_os aarch64 t ctx d = absurd (ground (arith, d))
context_from_os-delivered other_os other_arch t ctx d = absurd (ground (arith, d))
