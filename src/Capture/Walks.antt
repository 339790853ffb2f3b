-- ===== src/Capture/Walks.antt =====
-- capture.rs and cursor.rs: a walk from a captured context.
use framehopunwind.Base.{true, some, ℕ, ◌≡◌, ◌⊎◌, ◌∙◌, ap, List, pos}
use framehopunwind.Target.{Os, Arch, framehop_supported}
use framehopunwind.Capture.{context_from_os}
use framehopunwind.Capture.Signals.{Interrupted, delivered, context_from_os-delivered}
use framehopunwind.Arch.{FhContext}
use framehopunwind.Framehop.{Framehop, SpLaws}
use framehopunwind.Slots.{Pool}
use framehopunwind.Cursor.Init.{FhCursor, Start, Process}
use framehopunwind.Cursor.Init.Laws.{Started}
use framehopunwind.Cursor.Walk.{step}
use framehopunwind.Cursor.Walk.First.{first_step}
use framehopunwind.Capture.Machine.{rsp, Machine, run, argument, capture_x86_64, context_at}
use framehopunwind.Capture.Laws.{Outside, capture_x86_64-Captures}

-- A thread on x86_64 that captures its context, where the structure does not overlap the return
-- address, and starts a walk from it: the first step gives out the instruction pointer and the stack
-- pointer that it has when the capture has returned, and returns 0 or 1.
pub capture_x86_64-first_step :
    {fh : Framehop} (laws : SpLaws fh) (env : Process fh) (os : Os) (m : Machine) (a : Start)
    (loads : List (ℕ × ℕ)) (pool pool' : Pool fh) (c : FhCursor)
    → Outside (m.reg (argument os)) (m.reg rsp)
    → a.ctx ≡ context_at (run (capture_x86_64 os) m).mem (m.reg (argument os))
    → Started env a loads pool c pool'
    → let after = run (capture_x86_64 os) m in
      ((step env c pool').1 ≡ after.pc)
      × ((step env c pool').2 ≡ after.reg rsp)
      × (((step env c pool').0 ≡ pos 0) ⊎ ((step env c pool').0 ≡ pos 1))
capture_x86_64-first_step laws env os m a loads pool pool' c out from started =
    let captured = from ∙ (capture_x86_64-Captures os m out).0.context in
    let (ip, stack, code) = first_step laws env a loads pool c pool' started in
    (ip ∙ ap (λ ctx. ctx.r0) captured, stack ∙ ap (λ ctx. ctx.r1) captured, code)

-- The walk of an interrupted thread on a supported system, from the context that the system delivers
-- for it: the first step gives out the instruction pointer and the stack pointer that it was
-- interrupted at, and returns 0 or 1.
pub delivered-first_step :
    {fh : Framehop} (laws : SpLaws fh) (env : Process fh) (os : Os) (arch : Arch) (t : Interrupted)
    (old : FhContext) (a : Start) (loads : List (ℕ × ℕ)) (pool pool' : Pool fh) (c : FhCursor)
    → framehop_supported os arch ≡ true
    → a.ctx ≡ context_from_os old (some (delivered os arch t))
    → Started env a loads pool c pool'
    → ((step env c pool').1 ≡ t.ip)
      × ((step env c pool').2 ≡ t.sp)
      × (((step env c pool').0 ≡ pos 0) ⊎ ((step env c pool').0 ≡ pos 1))
delivered-first_step laws env os arch t old a loads pool pool' c supported from started =
    let read = from ∙ context_from_os-delivered os arch t old supported in
    let (ip, stack, code) = first_step laws env a loads pool c pool' started in
    (ip ∙ ap (λ ctx. ctx.r0) read, stack ∙ ap (λ ctx. ctx.r1) read, code)
