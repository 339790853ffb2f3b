-- ===== src/Library/Stacks.antt =====
-- lib.rs, stackbounds.rs and cursor.rs: the walk of a registered thread stays on its stack.
use framehopunwind.Base.{ℕ, zero, suc, ◌≡◌, if◌then◌else◌}
use framehopunwind.Target.{Arch}
use framehopunwind.Framehop.{Framehop}
use framehopunwind.Slots.{SlotInner}
use framehopunwind.Cursor.Init.{Process}
use framehopunwind.Cursor.Walk.{step_inner}
use framehopunwind.Library.{Library}

module _ {fh : Framehop} (env : Process fh) where
  -- The per-walk state after so many calls of `step`: a walk that is over stays as it is.
  unfoldable pub walked : ℕ → SlotInner fh → SlotInner fh
  walked zero inner = inner
  walked (suc n) inner =
      let before = walked n inner in if before.done then before else (step_inner env before).1

  -- The windows that two states read from are the same.
  abbrev SameWindow : SlotInner fh → SlotInner fh → Type 0
  SameWindow inner w =
      (w.stack_lo ≡ inner.stack_lo)
      × (w.stack_hi ≡ inner.stack_hi)
      × (w.stack_hi2 ≡ inner.stack_hi2)
