-- ===== src/Cursor/Window.antt =====
-- cursor.rs: the stack window of a walk, and the bounded reads of the stack.
use framehopunwind.Base.{
  ℕ, ◌+◌, ◌*◌, ◌/◌, ◌%◌, ◌≤◌, ◌<◌, ◌≡◌, ◌↔◌, ◌⊎◌, Bool, not, ◌&&◌, ◌||◌, Option, none, some, ltb,
  leb, ◌==◌, if◌then◌else◌, u64_max, saturating_add, arith,
}
use framehopunwind.Framehop.{Framehop}
use framehopunwind.Slots.{SlotInner}

-- The `[lo, hi)` pair that `stack_window` chooses for a walk from `sp`.
unfoldable pub stack_window : ℕ × ℕ → ℕ → ℕ × ℕ
stack_window (lo, hi) sp =
    if not (lo == 0) && not (hi == 0) && leb lo sp && ltb sp hi
    then (lo, hi)
    else (sp / 4096 * 4096, saturating_add (sp / 4096 * 4096) (16 * 1024 * 1024))

-- The closure `read_stack` of `step` over the walk's windows; `mem` is the memory.
unfoldable pub in_window : ℕ → ℕ → ℕ → Bool
in_window lo hi addr = leb lo addr && leb (saturating_add addr 8) hi

module _ {fh : Framehop} where
  unfoldable pub read_stack : SlotInner fh → (ℕ → ℕ) → ℕ → Option ℕ
  unfolding in_window
  read_stack inner mem addr =
      if not (
          in_window inner.stack_lo inner.stack_hi addr
          || in_window inner.stack_lo2 inner.stack_hi2 addr)
        || not (addr % 8 == 0)
      then none
      else some (mem addr)

-- The eight bytes at `addr` lie in `[lo, hi)`.
abbrev pub Within : ℕ → ℕ → ℕ → Type 0
Within lo hi addr = (lo ≤ addr) × (addr + 8 ≤ hi)

-- For a stack pointer below the top of the address space the window holds it; it is either the
-- registered range, which is taken whenever it is known and holds the stack pointer, or starts at
-- the stack pointer's page and spans at most 16 MiB.
pub stack_window_lem :
    (lo hi sp : ℕ)
    → sp < u64_max
    → ((stack_window (lo, hi) sp).0 ≤ sp)
      × (sp < (stack_window (lo, hi) sp).1)
      × (0 < lo → lo ≤ sp → sp < hi → stack_window (lo, hi) sp ≡ (lo, hi))
      × ((stack_window (lo, hi) sp ≡ (lo, hi))
          ⊎ (((stack_window (lo, hi) sp).0 % 4096 ≡ 0)
              × (sp < (stack_window (lo, hi) sp).0 + 4096)
              × ((stack_window (lo, hi) sp).1 ≤ (stack_window (lo, hi) sp).0 + 16 * 1024 * 1024)))
unfolding stack_window
stack_window_lem lo hi sp h = (ground arith, ground arith, λ p q r. ground arith, ground arith)

module _ {fh : Framehop} where
  -- With windows that end below the last address, the reader returns a word exactly if the address
  -- is 8-aligned and its eight bytes lie in one of the two windows, and then it is memory's word.
  pub read_stack_exact :
      (inner : SlotInner fh) (mem : ℕ → ℕ) (addr v : ℕ)
      → inner.stack_hi < u64_max
      → inner.stack_hi2 < u64_max
      → (read_stack inner mem addr ≡ some v) ↔ (
          (v ≡ mem addr)
          × (addr % 8 ≡ 0)
          × (Within inner.stack_lo inner.stack_hi addr
              ⊎ Within inner.stack_lo2 inner.stack_hi2 addr))
  unfolding read_stack
  read_stack_exact inner mem addr v h h2 = (λ e. ground arith, λ e. ground arith)
