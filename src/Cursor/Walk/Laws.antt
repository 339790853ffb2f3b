-- ===== src/Cursor/Walk/Laws.antt =====
-- cursor.rs: what a step, a register read and a release do to the walk and to the pool.
use framehopunwind.Base.{
  ℕ, ◌≡◌, ◌≢◌, ◌⊎◌, inl, inr, refl, sym, subst, ◌∙◌, ap, Bool, true, false, ◌&&◌, Option, none,
  some, ℤ, pos, negsuc, ◌==◌, if◌then◌else◌, Bool-cases, arith,
}
use framehopunwind.Framehop.{Framehop, Unwound, caller, root, failed}
use framehopunwind.Slots.{SlotInner, Slot, Pool, slot, update_slot, nonce_is, nonce_matches}
use framehopunwind.Slots.Layout.{IsPool, slot-update_slot, update_slot-IsPool}
use framehopunwind.Sigreturn.{restore, is_trampoline}
use framehopunwind.Cursor.Window.{read_stack}
use framehopunwind.Cursor.Init.{FhCursor, is_live, Process}
use framehopunwind.Cursor.Walk.{
  resume, advance, unwound_inner, step_inner, has_trampoline, Stepped, step_slot, step_found, step,
  regs_of, get_reg,
}

module _ {fh : Framehop} where
  -- A step's effect on the per-walk state: it ends the walk, where it stood, or goes to a caller
  -- with a non-null instruction pointer. What the walk reads from stays the same.
  pub record Moved (inner : SlotInner fh) (r : ℤ × SlotInner fh) : Type 0 where
    pub outcome :
        ((r.0 ≡ pos 0) × (r.1.done ≡ true) × (r.1.cur_ip ≡ inner.cur_ip))
        ⊎ ((r.0 ≡ pos 1) × (r.1.done ≡ false) × (r.1.cur_ip ≢ 0))
    pub same_snapshot : r.1.snapshot ≡ inner.snapshot
    pub same_window : (r.1.stack_lo ≡ inner.stack_lo) × (r.1.stack_hi ≡ inner.stack_hi)
    pub same_window2 : (r.1.stack_lo2 ≡ inner.stack_lo2) × (r.1.stack_hi2 ≡ inner.stack_hi2)

  advance-Moved :
      (inner : SlotInner fh) (regs : fh.UnwindRegs) (cache : fh.Cache) (result : Unwound)
      → inner.done ≡ false
      → Moved inner (advance (record inner { regs = regs; cache = cache }) result)
  unfolding advance
  advance-Moved inner regs cache (caller ra interrupted) going = ground arith
  advance-Moved inner regs cache root going = ground arith
  advance-Moved inner regs cache failed going = ground arith

  unwound_inner-Moved :
      (inner : SlotInner fh) (r : Unwound × fh.UnwindRegs × fh.Cache)
      → inner.done ≡ false
      → Moved inner (unwound_inner inner r)
  unfolding unwound_inner
  unwound_inner-Moved inner (result, regs, cache) going =
      advance-Moved inner regs cache result going

  resume-Moved :
      (inner : SlotInner fh) (r : Option (ℕ × fh.UnwindRegs))
      → inner.done ≡ false
      → Moved inner (resume inner r)
  unfolding resume
  resume-Moved inner none going = ground arith
  resume-Moved inner (some (pc, regs)) going = ground arith

  is_live_same :
      (c : FhCursor) (p q : Pool fh)
      → nonce_matches c.slot_index c.nonce q ≡ nonce_matches c.slot_index c.nonce p
      → is_live c p ≡ true
      → is_live c q ≡ true
  unfolding is_live
  is_live_same c p q e live = rw e live

module _ {fh : Framehop} (env : Process fh) where
  pub step_inner-Moved :
      (inner : SlotInner fh) → inner.done ≡ false → Moved inner (step_inner env inner)
  unfolding step_inner
  step_inner-Moved inner going =
      elim (Bool-cases
        (has_trampoline env.os env.arch && is_trampoline env.trampoline inner.cur_ip)) [
          | inl signal ↦
              rw signal
                (resume-Moved inner (restore fh inner.regs (read_stack inner env.mem)) going)
          | inr plain ↦ rw plain (
              unwound_inner-Moved inner
                (fh.unwind_frame (env.snapshot_at inner.snapshot).unw inner.cur_addr inner.regs
                  inner.cache (read_stack inner env.mem))
                going)
        ]

  -- A step by a live cursor whose walk is not over: it gives out the current frame's ip and sp, as
  -- `get_reg` would, then moves that slot's walk on, and leaves the cursor live.
  pub record StepsOn (c : FhCursor) (s : Slot fh) (pool : Pool fh) (r : Stepped env) : Type 0 where
    pub outputs : (r.1, r.2) ≡ get_reg c pool
    pub moved : Moved s.inner (step_inner env s.inner)
    pub code : r.0 ≡ (step_inner env s.inner).0
    pub after : slot c.slot_index r.3 ≡ some (record s { inner = (step_inner env s.inner).1 })
    pub others : (j : ℕ) → c.slot_index ≢ j → slot j r.3 ≡ slot j pool
    pub live : is_live c r.3 ≡ true
    pub valid : IsPool pool → IsPool r.3

  step_slot_lem :
      (i : ℕ) (pool : Pool fh) (s : Slot fh)
      → s.inner.done ≡ false
      → s.inner.snapshot ≢ 0
      → step_slot env i pool s ≡ (
        (step_inner env s.inner).0,
        s.inner.cur_ip,
        fh.sp s.inner.regs,
        update_slot i (λ t. record t { inner = (step_inner env s.inner).1 }) pool,
      )
  unfolding step_slot
  step_slot_lem i pool s going nonnull = ground arith

  StepsOn_lem :
      (c : FhCursor) (s : Slot fh) (pool : Pool fh)
      → is_live c pool ≡ true
      → slot c.slot_index pool ≡ some s
      → s.inner.done ≡ false
      → StepsOn c s pool (
        (step_inner env s.inner).0,
        s.inner.cur_ip,
        fh.sp s.inner.regs,
        update_slot c.slot_index (λ t. record t { inner = (step_inner env s.inner).1 }) pool,
      )
  unfolding get_reg is_live nonce_matches
  StepsOn_lem c s pool live e going = record {
    outputs = sym (rw (live, e, regs_of) refl);
    moved = step_inner-Moved s.inner going;
    code = refl;
    after = after;
    others = λ j ne. ground (arith, slot-update_slot pool c.slot_index j go_on);
    live = is_live_same c pool _ (ap (nonce_is c.nonce) after ∙ sym (ap (nonce_is c.nonce) e)) live;
    valid = update_slot-IsPool pool c.slot_index go_on;
  }
    where
      go_on : Slot fh → Slot fh
      go_on t = record t { inner = (step_inner env s.inner).1 }

      after : slot c.slot_index (update_slot c.slot_index go_on pool) ≡ some (go_on s)
      after = slot-update_slot pool c.slot_index c.slot_index go_on ∙ rw e (ground arith)

  -- A live cursor whose walk is not over steps on: see `StepsOn`.
  pub step_live :
      (c : FhCursor) (s : Slot fh) (pool : Pool fh)
      → is_live c pool ≡ true
      → slot c.slot_index pool ≡ some s
      → s.inner.done ≡ false
      → s.inner.snapshot ≢ 0
      → StepsOn c s pool (step env c pool)
  unfolding step
  step_live c s pool live e going nonnull =
      subst (StepsOn c s pool)
        (sym (rw (live, e, step_found) (step_slot_lem c.slot_index pool s going nonnull)))
        (StepsOn_lem c s pool live e going)

  -- The other branches of `step`: a cursor that is not live fails, one whose walk is over reports
  -- the end, both with null outputs and no change.
  pub step_ended :
      (c : FhCursor) (s : Slot fh) (pool : Pool fh)
      → slot c.slot_index pool ≡ some s
      → s.inner.done ≡ true
      → step env c pool ≡ ((if is_live c pool then pos 0 else negsuc 0), 0, 0, pool)
  unfolding step step_slot
  step_ended c s pool e over = elim (Bool-cases (is_live c pool)) [
    | inl live ↦ rw (live, e, step_found) (rw over refl)
    | inr stale ↦ rw stale refl
  ]

  if-IsPool :
      (b : Bool) (x y : Stepped env) → IsPool x.3 → IsPool y.3 → IsPool (if b then x else y).3
  if-IsPool true x y v w = v
  if-IsPool false x y v w = w

  step_slot-IsPool :
      (i : ℕ) (pool : Pool fh) (s : Slot fh) → IsPool pool → IsPool (step_slot env i pool s).3
  unfolding step_slot
  step_slot-IsPool i pool s v = if-IsPool s.inner.done _ _ v (
      if-IsPool (s.inner.snapshot == 0) _ _ v
        (update_slot-IsPool pool i (λ t. record t { inner = (step_inner env s.inner).1 }) v))

  step_found-IsPool :
      (i : ℕ) (pool : Pool fh) (r : Option (Slot fh))
      → IsPool pool
      → IsPool (step_found env i pool r).3
  unfolding step_found
  step_found-IsPool i pool none v = v
  step_found-IsPool i pool (some s) v = step_slot-IsPool i pool s v

  -- A step by any cursor leaves the pool well-formed.
  pub step-IsPool : (c : FhCursor) (pool : Pool fh) → IsPool pool → IsPool (step env c pool).3
  unfolding step
  step-IsPool c pool v = elim (Bool-cases (is_live c pool)) [
    | inl live ↦ rw live (step_found-IsPool c.slot_index pool (slot c.slot_index pool) v)
    | inr stale ↦ rw stale v
  ]
