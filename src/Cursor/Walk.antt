-- ===== src/Cursor/Walk.antt =====
-- cursor.rs: step, read the registers, release.
pub mod Laws
pub mod Release
pub mod First
use framehopunwind.Base.{
  ℕ, zero, suc, ◌+◌, ◌-◌, ◌*◌, ◌/◌, ◌%◌, ◌^◌, ◌≤◌, ◌<◌, ◌≡◌, ◌≢◌, ◌↔◌, ==_iff, ◌⊎◌, inl, inr, refl,
  sym, ◌∙◌, ap, Bool, true, false, not, ◌&&◌, ◌||◌, Option, none, some, List, [], ◌∷◌, ℤ, pos,
  negsuc, ltb, leb, ◌==◌, if◌then◌else◌, u64_max, saturating_add, Bool-cases, Option-cases, arith,
}
use framehopunwind.Target.{Os, Arch, linux, aarch64}
use framehopunwind.Framehop.{Framehop, Unwound, caller, root, failed}
use framehopunwind.Arch.{FhContext, context_ip, context_sp, make_regs, initial_frame_address}
use framehopunwind.Slots.{
  SlotInner, Slot, Pool, slot, update_slot, claim_slot, nonce_matches, release_slot,
}
use framehopunwind.Sigreturn.{is_trampoline, restore}
use framehopunwind.Cursor.Window.{read_stack}
use framehopunwind.Cursor.Init.{FhCursor, cursor_magic, dead, is_live, Process}

-- `cfg(all(target_os = "linux", target_arch = "aarch64"))`
unfoldable pub has_trampoline : Os → Arch → Bool
has_trampoline linux aarch64 = true
has_trampoline _ _ = false

module _ {fh : Framehop} where
  unfoldable pub finish : SlotInner fh → ℤ × SlotInner fh
  finish inner = (pos 0, record inner { done = true })

  -- `step` at the kernel's signal trampoline.
  unfoldable pub resume : SlotInner fh → Option (ℕ × fh.UnwindRegs) → ℤ × SlotInner fh
  unfolding finish
  resume inner none = finish inner
  resume inner (some (pc, regs)) = if pc == 0 then finish (record inner { regs = regs }) else (
    pos 1,
    record inner { regs = regs; cur_ip = pc; cur_addr = fh.from_instruction_pointer pc },
  )

  -- `step` after `unwind_frame_signal_aware`, whose changes `inner` has.
  unfoldable pub advance : SlotInner fh → Unwound → ℤ × SlotInner fh
  unfolding finish
  advance inner (caller ra interrupted) = if ra == 0 then finish inner else (
    pos 1,
    record inner {
      cur_ip = ra;
      cur_addr = if interrupted then fh.from_instruction_pointer ra else fh.return_address ra;
    },
  )
  advance inner root = finish inner
  advance inner failed = finish inner

  unfoldable pub unwound_inner :
      SlotInner fh → Unwound × fh.UnwindRegs × fh.Cache → ℤ × SlotInner fh
  unfolding advance
  unwound_inner inner (result, regs, cache) =
      advance (record inner { regs = regs; cache = cache }) result

module _ {fh : Framehop} (env : Process fh) where
  -- The part of `step` behind its outputs.
  unfoldable pub step_inner : SlotInner fh → ℤ × SlotInner fh
  unfolding resume unwound_inner has_trampoline
  step_inner inner =
      if has_trampoline env.os env.arch && is_trampoline env.trampoline inner.cur_ip
      then resume inner (restore fh inner.regs (read_stack inner env.mem))
      else unwound_inner inner (
          fh.unwind_frame (env.snapshot_at inner.snapshot).unw inner.cur_addr inner.regs inner.cache
            (read_stack inner env.mem))

  -- The result code, `*out_ip`, `*out_sp` and the pool.
  abbrev pub Stepped : Type 0
  Stepped = ℤ × ℕ × ℕ × Pool fh

  unfoldable pub step_slot : ℕ → Pool fh → Slot fh → Stepped
  step_slot idx pool s =
      if s.inner.done
      then (pos 0, 0, 0, pool)
      else if s.inner.snapshot == 0
      then (negsuc 0, 0, 0, pool)
      else (
        (step_inner s.inner).0,
        s.inner.cur_ip,
        fh.sp s.inner.regs,
        update_slot idx (λ t. record t { inner = (step_inner s.inner).1 }) pool,
      )

  unfoldable pub step_found : ℕ → Pool fh → Option (Slot fh) → Stepped
  unfolding step_slot
  step_found idx pool none = (negsuc 0, 0, 0, pool)
  step_found idx pool (some s) = step_slot idx pool s

  unfoldable pub step : FhCursor → Pool fh → Stepped
  unfolding step_found
  step c pool =
      if is_live c pool
      then step_found c.slot_index pool (slot c.slot_index pool)
      else (negsuc 0, 0, 0, pool)

module _ {fh : Framehop} where
  unfoldable pub regs_of : Option (Slot fh) → ℕ × ℕ
  regs_of none = (0, 0)
  regs_of (some s) = (s.inner.cur_ip, fh.sp s.inner.regs)

  -- `*out_ip` and `*out_sp`.
  unfoldable pub get_reg : FhCursor → Pool fh → ℕ × ℕ
  unfolding regs_of
  get_reg c pool = if is_live c pool then regs_of (slot c.slot_index pool) else (0, 0)

  -- The cursor written back and the pool.
  unfoldable pub cursor_fini : FhCursor → Pool fh → FhCursor × Pool fh
  cursor_fini c pool = (
    dead,
    if c.magic == cursor_magic && not (c.slot_index == u64_max)
        then release_slot c.slot_index c.nonce pool
        else pool,
  )
