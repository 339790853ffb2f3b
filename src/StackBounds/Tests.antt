-- ===== src/StackBounds/Tests.antt =====
-- The stack bounds of a thread with a 64 KiB stack.
use framehopunwind.Base.{◌≡◌, refl, true}
use framehopunwind.Target.{macos}
use framehopunwind.StackBounds.{Pthread, query_bounds}

abbrev small_stack : Pthread
small_stack = record {
  got = true;
  rc_is_zero = true;
  stackaddr = 0x7000;
  stacksize = 0x1000;
  base = 0x8000;
  size = 0x9000;
}

-- Darwin's range does not go below 0.
darwin_saturates : query_bounds macos small_stack ≡ (0, 0x8000)
unfolding query_bounds
darwin_saturates = refl
