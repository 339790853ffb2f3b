-- ===== src/Slots/Tests.antt =====
-- A pool of 16 slots, and the theorems at it.
use mathlib.Core.List.{flatten}
use framehopunwind.Base.{◌≡◌, refl, some}
use framehopunwind.Target.{x86_64}
use framehopunwind.Fixture.{toy}
use framehopunwind.Slots.{
  Pool, init, ensure_slots, thread_registered, initial_pool, slots, new_slot, claim_slot,
  take_first, first_free,
}
use framehopunwind.Slots.Layout.{IsPool}
use framehopunwind.Slots.Growth.{Grows, ensure_slots-Grows, initial_pool-IsPool}
use framehopunwind.Slots.Claims.{ClaimResult, claim_slot_lem}

abbrev small_pool : Pool toy
small_pool = ensure_slots x86_64 toy 5 (initial_pool toy)

small_pool-IsPool : IsPool small_pool
small_pool-IsPool =
    (ensure_slots-Grows x86_64 toy 5 (initial_pool toy) (initial_pool-IsPool toy)).valid

ensure_slots-Grows_example : Grows x86_64 toy 5 (initial_pool toy) small_pool
ensure_slots-Grows_example =
    ensure_slots-Grows x86_64 toy 5 (initial_pool toy) (initial_pool-IsPool toy)

claim_slot_lem_example : ClaimResult small_pool (claim_slot small_pool)
claim_slot_lem_example = claim_slot_lem small_pool small_pool-IsPool

-- `init(0)` and two threads: two chunks.
two_threads :
    (thread_registered x86_64 toy
      (thread_registered x86_64 toy (init x86_64 toy 0 (initial_pool toy)))).slots_allocated
    ≡ 32
unfolding init thread_registered
two_threads = refl

first_claim : (claim_slot small_pool).0 ≡ some (0, 1)
unfolding claim_slot slots ensure_slots new_slot take_first first_free flatten
first_claim = refl
