-- ===== src/Cursor/Tests.antt =====
-- Walks at concrete inputs: three frames on a small stack.
use mathlib.Core.List.{flatten}
use framehopunwind.Base.{
  ℕ, ◌+◌, ◌-◌, ◌*◌, ◌^◌, ◌≤◌, ◌<◌, ◌≡◌, ◌≢◌, ◌⊎◌, ◌↔◌, inl, refl, true, false, Option, none, some,
  [], ◌∷◌, ◌==◌, ◌%◌, ℤ, pos, if◌then◌else◌, modify, arith,
}
use framehopunwind.Target.{framehop_supported, linux, x86_64, aarch64}
use framehopunwind.Fixture.{toy, toy-SpLaws}
use framehopunwind.Arch.{zeroed, make_regs, context_sp}
use framehopunwind.Slots.{
  Pool, Slot, ensure_slots, initial_pool, slot, slots, new_slot, claim_slot, take_first, first_free,
  release_slot, released, update_slot,
}
use framehopunwind.Slots.Layout.{IsPool}
use framehopunwind.Slots.Growth.{ensure_slots-Grows, initial_pool-IsPool}
use framehopunwind.Cursor.Window.{
  stack_window, stack_window_lem, read_stack, read_stack_exact, Within,
}
use framehopunwind.Cursor.Mask.{ptr_auth_mask, ptr_auth_mask_aarch64}
use framehopunwind.Cursor.Acquire.{acquire_snapshot, acquire_snapshot_lem, AcquireResult}
use framehopunwind.Cursor.Init.{
  FhCursor, cursor_magic, dead, is_live, Process, Start, start_inner, cursor_init_bounds2,
}
use framehopunwind.Cursor.Init.Laws.{InitResult, Started, cursor_init_bounds2_lem}
use framehopunwind.Cursor.Walk.{step, cursor_fini, step_inner}
use framehopunwind.Cursor.Walk.Laws.{StepsOn, step_live}
use framehopunwind.Cursor.Walk.Release.{cursor_fini_lem, stale_after_reuse}
use framehopunwind.Cursor.Refines.{Follows, acquire_snapshot-Follows}
use framehopunwind.Capture.Machine.{run, exec, capture_x86_64, rsp, rdi, index, Machine}
use framehopunwind.Capture.{context_from_os, fill_from_os}
use framehopunwind.Capture.Signals.{Interrupted}
use framehopunwind.Capture.Walks.{delivered-first_step, capture_x86_64-first_step}

stack_window_lem_example :
    ((stack_window (0x1000, 0x9000) 0x2345).0 ≤ 0x2345)
    × (0x2345 < (stack_window (0x1000, 0x9000) 0x2345).1)
    × (0 < 0x1000
        → 0x1000 ≤ 0x2345
        → 0x2345 < 0x9000
        → stack_window (0x1000, 0x9000) 0x2345 ≡ (0x1000, 0x9000))
    × ((stack_window (0x1000, 0x9000) 0x2345 ≡ (0x1000, 0x9000))
        ⊎ (((stack_window (0x1000, 0x9000) 0x2345).0 % 4096 ≡ 0)
            × (0x2345 < (stack_window (0x1000, 0x9000) 0x2345).0 + 4096)
            × ((stack_window (0x1000, 0x9000) 0x2345).1
                ≤ (stack_window (0x1000, 0x9000) 0x2345).0 + 16 * 1024 * 1024)))
stack_window_lem_example = stack_window_lem 0x1000 0x9000 0x2345 (omega arith)

ptr_auth_mask_aarch64_example :
    (k : ℕ) × (ptr_auth_mask aarch64 0x5000 ≡ 2 ^ k - 1)
    × (0x5000 ≤ 2 ^ k - 1)
    × (2 ^ k ≤ 2 * 0x5000)
ptr_auth_mask_aarch64_example = ptr_auth_mask_aarch64 0x5000 (omega arith) (omega arith)

-- The frame records at 0x1010 and 0x1030; the outer one ends the stack.
abbrev stack_memory : ℕ → ℕ
stack_memory a = if a == 0x1010 then 0x1030 else if a == 0x1018 then 0x4444 else 0

abbrev env : Process toy
env = record {
  os = linux;
  arch = x86_64;
  snapshot_at = λ p. record { unw = 0x4000 ∷ []; max_code_addr = 0x5000 };
  bounds = (0x1000, 0x2000);
  trampoline = none;
  mem = stack_memory;
}

abbrev context : Start
context = record {
  ctx = record { r0 = 0x4100; r1 = 0x1008; r2 = 0x1010; r3 = 0; r4 = 0 };
  stack_lo = 0;
  stack_hi = 0;
  stack_lo2 = 0;
  stack_hi2 = 0;
}

abbrev pool : Pool toy
pool = ensure_slots x86_64 toy 5 (initial_pool toy)

pool-IsPool : IsPool pool
pool-IsPool = (ensure_slots-Grows x86_64 toy 5 (initial_pool toy) (initial_pool-IsPool toy)).valid

acquire_snapshot_lem_example :
    AcquireResult 0
      ((7, 8) ∷ (8, 8) ∷ [])
      (new_slot x86_64 toy)
      pool
      (acquire_snapshot 0 ((7, 8) ∷ (8, 8) ∷ []) pool)
unfolding ensure_slots
acquire_snapshot_lem_example =
    acquire_snapshot_lem 0 ((7, 8) ∷ (8, 8) ∷ []) (new_slot x86_64 toy) pool
      ((ensure_slots-Grows x86_64 toy 5 (initial_pool toy) (initial_pool-IsPool toy)).kept 0)

acquire_snapshot-Follows_example :
    Follows 0
      ((7, 8) ∷ (8, 8) ∷ [])
      (new_slot x86_64 toy)
      0
      (acquire_snapshot 0 ((7, 8) ∷ (8, 8) ∷ []) pool)
unfolding ensure_slots new_slot
acquire_snapshot-Follows_example =
    acquire_snapshot-Follows 0 ((7, 8) ∷ (8, 8) ∷ []) (new_slot x86_64 toy) pool
      ((ensure_slots-Grows x86_64 toy 5 (initial_pool toy) (initial_pool-IsPool toy)).kept 0)

cursor_init_bounds2_lem_example :
    InitResult env context ((8, 8) ∷ []) pool (cursor_init_bounds2 env context ((8, 8) ∷ []) pool)
cursor_init_bounds2_lem_example = cursor_init_bounds2_lem env context ((8, 8) ∷ []) pool pool-IsPool

abbrev pool_of : Option (ℤ × FhCursor × Pool toy) → Pool toy
pool_of none = pool
pool_of (some (code, c, p)) = p

-- The cursor and the pool after `cursor_init`.
abbrev cursor : FhCursor
cursor = record { magic = cursor_magic; slot_index = 0; nonce = 1 }

abbrev walking : Pool toy
walking = pool_of (cursor_init_bounds2 env context ((8, 8) ∷ []) pool)

walking-Started : Started env context ((8, 8) ∷ []) pool cursor walking
unfolding cursor_init_bounds2 claim_slot slots ensure_slots new_slot take_first first_free flatten
    acquire_snapshot slot update_slot modify
walking-Started = cursor_init_bounds2_lem env context ((8, 8) ∷ []) pool pool-IsPool

-- A thread that captures `context`.
abbrev capturing : Machine
capturing = record {
  reg =
      λ r. if index r == index rdi then 0x2000 else if index r == index rsp then 0x1000 else 0x1010;
  mem = λ a. if a == 0x1000 then 0x4100 else 0;
  pc = 0x9000;
}

capture_x86_64-first_step_example :
    let after = run (capture_x86_64 linux) capturing in
    ((step env cursor walking).1 ≡ after.pc)
    × ((step env cursor walking).2 ≡ after.reg rsp)
    × (((step env cursor walking).0 ≡ pos 0) ⊎ ((step env cursor walking).0 ≡ pos 1))
unfolding run exec
capture_x86_64-first_step_example =
    capture_x86_64-first_step toy-SpLaws env linux capturing context ((8, 8) ∷ []) pool walking
      cursor (inl (omega arith)) refl walking-Started

-- A thread that was interrupted with `context`.
abbrev interrupted : Interrupted
interrupted = record {
  ip = 0x4100;
  sp = 0x1008;
  fp = 0x1010;
  lr = 0;
  other = λ i. i;
  words = (omega arith, omega arith, omega arith, omega arith);
}

delivered-first_step_example :
    ((step env cursor walking).1 ≡ 0x4100)
    × ((step env cursor walking).2 ≡ 0x1008)
    × (((step env cursor walking).0 ≡ pos 0) ⊎ ((step env cursor walking).0 ≡ pos 1))
unfolding framehop_supported context_from_os fill_from_os
delivered-first_step_example =
    delivered-first_step toy-SpLaws env linux x86_64 interrupted zeroed context ((8, 8) ∷ []) pool
      walking cursor refl refl walking-Started

abbrev walking_slot : Slot toy
walking_slot = record {
  in_use = true;
  seq = 1;
  hazard = 8;
  inner = start_inner env context 8 ((new_slot x86_64 toy).inner);
}

walking_slot_lem : slot 0 walking ≡ some walking_slot
unfolding cursor_init_bounds2 claim_slot slots ensure_slots new_slot take_first first_free flatten
    acquire_snapshot slot update_slot modify
walking_slot_lem = refl

step_live_example : StepsOn env cursor walking_slot walking (step env cursor walking)
unfolding start_inner
step_live_example =
    step_live env cursor walking_slot walking walking-Started.live walking_slot_lem refl
      (omega arith)

cursor_fini_lem_example :
    let after = (cursor_fini cursor walking).1 in
    ((cursor_fini cursor walking).0 ≡ dead)
    × (is_live cursor after ≡ false)
    × ((cursor_fini cursor after).1 ≡ after)
    × IsPool after
    × ((s : Slot toy)
        → slot 0 walking ≡ some s
        → is_live cursor walking ≡ true
        → (slot 0 after ≡ some (released 1 s)) × ((j : ℕ) → 0 ≢ j → slot j after ≡ slot j walking))
cursor_fini_lem_example = cursor_fini_lem cursor walking walking-Started.valid (omega arith)

abbrev claimed_again : Option (ℕ × ℕ) × Pool toy
claimed_again = claim_slot (cursor_fini cursor walking).1

stale_after_reuse_example : is_live cursor claimed_again.1 ≡ false
unfolding cursor_init_bounds2 claim_slot slots ensure_slots new_slot take_first first_free flatten
    acquire_snapshot slot update_slot modify cursor_fini release_slot
stale_after_reuse_example =
    stale_after_reuse cursor walking walking_slot 0 3 claimed_again.1 walking-Started.valid
      (omega arith) walking-Started.live walking_slot_lem refl

-- The second frame is the outermost.
second_step : (step env cursor (step env cursor walking).3).1 ≡ 0x4444
unfolding step cursor_init_bounds2 claim_slot slots ensure_slots new_slot take_first first_free
    flatten acquire_snapshot slot update_slot modify is_live step_inner read_stack context_sp
    make_regs
second_step = refl

read_stack_exact_example : (read_stack walking_slot.inner stack_memory 0x1018 ≡ some 0x4444) ↔ (
    (0x4444 ≡ stack_memory 0x1018)
    × (0x1018 % 8 ≡ 0)
    × (Within 0x1000 0x2000 0x1018 ⊎ Within 0 0 0x1018))
unfolding start_inner context_sp
read_stack_exact_example =
    read_stack_exact walking_slot.inner stack_memory 0x1018 0x4444 (omega arith) (omega arith)

-- The walk of the same cursor, at its end.
abbrev ended_slot : Slot toy
ended_slot = record {
  in_use = true;
  seq = 1;
  hazard = 8;
  inner = record (start_inner env context 8 ((new_slot x86_64 toy).inner)) { done = true };
}

abbrev ended : Pool toy
ended = update_slot 0 (λ t. record t { inner = record (t.inner) { done = true } }) walking

ended_slot_lem : slot 0 ended ≡ some ended_slot
unfolding cursor_init_bounds2 claim_slot slots ensure_slots new_slot take_first first_free flatten
    acquire_snapshot slot update_slot modify
ended_slot_lem = refl
