-- ===== src/Cursor/Init.antt =====
-- cursor.rs: the cursor and its initialisation. A C out-parameter is a result, and the process's
-- snapshots, bounds and memory are read only.
pub mod Laws
use framehopunwind.Base.{
  ℕ, zero, suc, ◌+◌, ◌-◌, ◌*◌, ◌/◌, ◌%◌, ◌^◌, ◌≤◌, ◌<◌, ◌≡◌, ◌≢◌, ◌↔◌, ==_iff, ◌⊎◌, inl, inr, refl,
  sym, ◌∙◌, ap, Bool, true, false, not, ◌&&◌, ◌||◌, Option, none, some, List, [], ◌∷◌, ℤ, pos,
  negsuc, ltb, leb, ◌==◌, if◌then◌else◌, u64_max, saturating_add, Bool-cases, Option-cases, arith,
}
use framehopunwind.Target.{Os, Arch, linux, aarch64}
use framehopunwind.Framehop.{Framehop, Unwound, caller, root, failed}
use framehopunwind.Arch.{FhContext, context_ip, context_sp, make_regs, initial_frame_address}
use framehopunwind.Slots.{
  SlotInner, Slot, Pool, slot, update_slot, claim_slot, nonce_matches, release_slot,
}
use framehopunwind.Publish.{Snapshot}
use framehopunwind.Cursor.Window.{stack_window}
use framehopunwind.Cursor.Mask.{ptr_auth_mask}
use framehopunwind.Cursor.Acquire.{acquire_snapshot}

-- `CURSOR_MAGIC`
abbrev pub cursor_magic : ℕ
cursor_magic = 0x4648435552530001

-- The caller's cursor, without its reserved words, which are always 0.
pub record FhCursor : Type 0 where
  pub magic : ℕ
  pub slot_index : ℕ
  pub nonce : ℕ

abbrev pub dead : FhCursor
dead = record { magic = 0; slot_index = u64_max; nonce = 0 }

module _ {fh : Framehop} where
  unfoldable pub is_live : FhCursor → Pool fh → Bool
  unfolding nonce_matches
  is_live c pool =
      c.magic == cursor_magic
      && not (c.slot_index == u64_max)
      && nonce_matches c.slot_index c.nonce pool

-- The arguments of `cursor_init_bounds2`.
pub record Start : Type 0 where
  pub ctx : FhContext
  pub stack_lo : ℕ
  pub stack_hi : ℕ
  pub stack_lo2 : ℕ
  pub stack_hi2 : ℕ

-- What the process provides: the target, the snapshot behind each pointer, the registered stack
-- bounds of this thread, the trampoline (once looked for), and the memory.
pub record Process (fh : Framehop) : Type 0 where
  pub os : Os
  pub arch : Arch
  pub snapshot_at : ℕ → Snapshot fh
  pub bounds : ℕ × ℕ
  pub trampoline : Option ℕ
  pub mem : ℕ → ℕ

module _ {fh : Framehop} (env : Process fh) where
  unfoldable pub walk_window : Start → ℕ × ℕ
  unfolding stack_window
  walk_window a =
      if ltb a.stack_lo a.stack_hi
      then (a.stack_lo, a.stack_hi)
      else stack_window env.bounds (context_sp a.ctx)

  -- The slot's per-walk state; its cache is kept.
  unfoldable pub start_inner : Start → ℕ → SlotInner fh → SlotInner fh
  unfolding walk_window
  start_inner a snap inner =
      let has_second = ltb a.stack_lo2 a.stack_hi2 in
      record inner {
        regs =
            make_regs env.arch fh a.ctx
              (ptr_auth_mask env.arch (env.snapshot_at snap).max_code_addr);
        cur_addr = initial_frame_address fh a.ctx;
        cur_ip = context_ip a.ctx;
        done = false;
        snapshot = snap;
        stack_lo = (walk_window a).0;
        stack_hi = (walk_window a).1;
        stack_lo2 = if has_second then a.stack_lo2 else 0;
        stack_hi2 = if has_second then a.stack_hi2 else 0;
      }

  unfoldable pub init_slot : Start → ℕ → ℕ → ℕ → Pool fh → Option (Slot fh) → ℤ × FhCursor × Pool fh
  unfolding start_inner
  init_slot a i nonce snap pool none = (negsuc 2, dead, release_slot i nonce pool)
  init_slot a i nonce snap pool (some s) = (
    pos 0,
    record { magic = cursor_magic; slot_index = i; nonce = nonce },
    update_slot i (λ t. record t { inner = start_inner a snap t.inner }) pool,
  )

  unfoldable pub init_acquired :
      Start → ℕ → ℕ → Option (ℕ × Pool fh) → Option (ℤ × FhCursor × Pool fh)
  unfolding init_slot
  init_acquired a i nonce none = none
  init_acquired a i nonce (some (snap, pool)) =
      if snap == 0
      then some (negsuc 1, dead, release_slot i nonce pool)
      else some (init_slot a i nonce snap pool (slot i pool))

  unfoldable pub init_claimed :
      Start → List (ℕ × ℕ) → Option (ℕ × ℕ) × Pool fh → Option (ℤ × FhCursor × Pool fh)
  unfolding init_acquired
  init_claimed a loads (none, pool) = some (negsuc 0, dead, pool)
  init_claimed a loads (some (i, nonce), pool) =
      init_acquired a i nonce (acquire_snapshot i loads pool)

  -- The result code, the cursor written and the pool. `none`: still in `acquire_snapshot`.
  unfoldable pub cursor_init_bounds2 :
      Start → List (ℕ × ℕ) → Pool fh → Option (ℤ × FhCursor × Pool fh)
  unfolding init_claimed
  cursor_init_bounds2 a loads pool = init_claimed a loads (claim_slot pool)

  unfoldable pub cursor_init_bounds :
      FhContext → ℕ → ℕ → List (ℕ × ℕ) → Pool fh → Option (ℤ × FhCursor × Pool fh)
  unfolding cursor_init_bounds2
  cursor_init_bounds ctx lo hi =
      cursor_init_bounds2
        (record { ctx = ctx; stack_lo = lo; stack_hi = hi; stack_lo2 = 0; stack_hi2 = 0 })

  unfoldable pub cursor_init : FhContext → List (ℕ × ℕ) → Pool fh → Option (ℤ × FhCursor × Pool fh)
  unfolding cursor_init_bounds
  cursor_init ctx = cursor_init_bounds ctx 0 0
