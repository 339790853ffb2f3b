-- ===== src/Cursor/Walk/First.antt =====
-- cursor.rs: `get_reg`, and the first step of a walk.
use framehopunwind.Base.{ℕ, ◌≡◌, ◌⊎◌, refl, ◌∙◌, ap, true, some, List, pos, arith}
use framehopunwind.Target.{Arch, x86_64, aarch64, other_arch}
use framehopunwind.Framehop.{Framehop, SpLaws}
use framehopunwind.Arch.{FhContext, make_regs, context_ip}
use framehopunwind.Slots.{Slot, Pool, slot}
use framehopunwind.Cursor.Init.{FhCursor, is_live, Start, Process, start_inner}
use framehopunwind.Cursor.Init.Laws.{Started}
use framehopunwind.Cursor.Walk.{step, regs_of, get_reg}
use framehopunwind.Cursor.Walk.Laws.{step_live}

module _ {fh : Framehop} (laws : SpLaws fh) where
  sp-make_regs :
      (arch : Arch) (ctx : FhContext) (mask : ℕ) → fh.sp (make_regs arch fh ctx mask) ≡ ctx.r1
  unfolding make_regs
  sp-make_regs x86_64 ctx mask = laws.sp_x86_64 ctx.r0 ctx.r1 ctx.r2
  sp-make_regs aarch64 ctx mask = laws.sp_aarch64 mask ctx.r3 ctx.r1 ctx.r2
  sp-make_regs other_arch ctx mask = laws.sp_aarch64 mask ctx.r3 ctx.r1 ctx.r2

  get_reg_lem :
      (c : FhCursor) (pool : Pool fh) (s : Slot fh)
      → is_live c pool ≡ true
      → slot c.slot_index pool ≡ some s
      → get_reg c pool ≡ (s.inner.cur_ip, fh.sp s.inner.regs)
  unfolding get_reg
  get_reg_lem c pool s live e = rw (live, e, regs_of) refl

  -- After a successful initialisation the first step gives out the captured context's instruction
  -- and stack pointer, and returns 0 or 1.
  pub first_step :
      (env : Process fh) (a : Start) (loads : List (ℕ × ℕ)) (pool : Pool fh) (c : FhCursor)
      (pool' : Pool fh)
      → Started env a loads pool c pool'
      → ((step env c pool').1 ≡ a.ctx.r0)
        × ((step env c pool').2 ≡ a.ctx.r1)
        × (((step env c pool').0 ≡ pos 0) ⊎ ((step env c pool').0 ≡ pos 1))
  unfolding start_inner context_ip
  first_step env a loads pool c pool' st =
      let s : Slot fh = record (st.before) {
        in_use = true;
        seq = c.nonce;
        hazard = st.snap;
        inner = start_inner env a st.snap st.before.inner;
      } in
      let on = step_live env c s pool' st.live st.holds refl st.nonnull in
      let out = on.outputs ∙ get_reg_lem c pool' s st.live st.holds in
      (
        ap (λ o. o.0) out,
        ap (λ o. o.1) out ∙ sp-make_regs env.arch a.ctx _,
        ground (arith, on.code, on.moved.outcome),
      )
