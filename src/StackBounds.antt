-- ===== src/StackBounds.antt =====
-- stackbounds.rs: the stack range of the current thread, as pthread reports it.
mod Tests
use framehopunwind.Base.{
  ℕ, ◌+◌, ◌-◌, ◌≤◌, ◌<◌, ◌≡◌, ◌⊎◌, Bool, ◌||◌, not, true, false, ◌==◌, if◌then◌else◌, u64_max,
  saturating_add, saturating_sub, arith,
}
use framehopunwind.Target.{Os, linux, freebsd, macos, windows, other_os}

-- What the pthread functions report of the current thread: `got` is the success of
-- `pthread_getattr_np` or `pthread_attr_get_np`, the next three are the result of
-- `pthread_attr_getstack`, and the last two Darwin's `pthread_get_stackaddr_np` and
-- `pthread_get_stacksize_np`.
pub record Pthread : Type 0 where
  pub got : Bool
  pub rc_is_zero : Bool
  pub stackaddr : ℕ
  pub stacksize : ℕ
  pub base : ℕ
  pub size : ℕ

unfoldable pub query_attr : Bool → Pthread → ℕ × ℕ
query_attr got t =
    if not got
    then (0, 0)
    else if not t.rc_is_zero || t.stackaddr == 0 || t.stacksize == 0
    then (0, 0)
    else (t.stackaddr, saturating_add t.stackaddr t.stacksize)

unfoldable pub query_darwin : Pthread → ℕ × ℕ
query_darwin t =
    if t.base == 0 || t.size == 0 then (0, 0) else (saturating_sub t.base t.size, t.base)

unfoldable pub query_bounds : Os → Pthread → ℕ × ℕ
unfolding query_attr query_darwin
query_bounds linux t = query_attr t.got t
query_bounds freebsd t = query_attr t.got t
query_bounds macos t = query_darwin t
query_bounds windows t = (0, 0)
query_bounds other_os t = query_attr false t

-- The stack of a thread, as the platform describes it: it is below the top of the address space.
abbrev pub OnStack : Os → Pthread → ℕ → Type 0
OnStack linux t a = (t.stackaddr ≤ a) × (a < t.stackaddr + t.stacksize)
OnStack freebsd t a = (t.stackaddr ≤ a) × (a < t.stackaddr + t.stacksize)
OnStack macos t a = (t.base ≤ a + t.size) × (a < t.base)
OnStack windows t a = ⊥
OnStack other_os t a = ⊥

-- Every address in the bounds that are registered is on the thread's stack, on every platform.
pub query_bounds-OnStack :
    (os : Os) (t : Pthread) (a : ℕ)
    → (query_bounds os t).0 ≤ a
    → a < (query_bounds os t).1
    → OnStack os t a
unfolding query_bounds
query_bounds-OnStack linux t a lo hi = ground arith
query_bounds-OnStack freebsd t a lo hi = ground arith
query_bounds-OnStack macos t a lo hi = ground arith
query_bounds-OnStack windows t a lo hi = ground arith
query_bounds-OnStack other_os t a lo hi = ground arith
