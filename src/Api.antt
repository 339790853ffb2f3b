-- ===== src/Api.antt =====
-- lib.rs: the C entry points on cursors and their null checks. A pointer is given by what it points
-- to, and a null one is `none`; output pointers are given by whether they are null.
use framehopunwind.Base.{ℕ, Bool, Option, none, some, List, ◌||◌, ℤ, negsuc, if◌then◌else◌}
use framehopunwind.Framehop.{Framehop}
use framehopunwind.Arch.{FhContext}
use framehopunwind.Slots.{Pool}
use framehopunwind.Cursor.Init.{
  FhCursor, Process, Start, cursor_init, cursor_init_bounds, cursor_init_bounds2,
}
use framehopunwind.Cursor.Walk.{step, get_reg, cursor_fini}

-- The result code, the cursor written, if any, and the pool.
abbrev pub Begun : Framehop → Type 0
Begun fh = Option (ℤ × Option FhCursor × Pool fh)

module _ {fh : Framehop} where
  abbrev refused : Pool fh → Begun fh
  refused pool = some (negsuc 99, none, pool)

  abbrev begun : Option (ℤ × FhCursor × Pool fh) → Begun fh
  begun none = none
  begun (some (code, c, pool)) = some (code, some c, pool)

module _ {fh : Framehop} (env : Process fh) where
  unfoldable pub fh_cursor_init : Bool → Option FhContext → List (ℕ × ℕ) → Pool fh → Begun fh
  fh_cursor_init cur_is_null none loads pool = refused pool
  fh_cursor_init cur_is_null (some ctx) loads pool =
      if cur_is_null then refused pool else begun (cursor_init env ctx loads pool)

  unfoldable pub fh_cursor_init_bounds :
      Bool → Option FhContext → ℕ → ℕ → List (ℕ × ℕ) → Pool fh → Begun fh
  fh_cursor_init_bounds cur_is_null none lo hi loads pool = refused pool
  fh_cursor_init_bounds cur_is_null (some ctx) lo hi loads pool =
      if cur_is_null then refused pool else begun (cursor_init_bounds env ctx lo hi loads pool)

  -- The context and the two windows are the fields of the argument.
  unfoldable pub fh_cursor_init_bounds2 : Bool → Option Start → List (ℕ × ℕ) → Pool fh → Begun fh
  fh_cursor_init_bounds2 cur_is_null none loads pool = refused pool
  fh_cursor_init_bounds2 cur_is_null (some a) loads pool =
      if cur_is_null then refused pool else begun (cursor_init_bounds2 env a loads pool)

  -- The result code, what is written to `*ip` and `*sp`, if anything, and the pool.
  unfoldable pub fh_step : Option FhCursor → Bool → Bool → Pool fh → ℤ × Option (ℕ × ℕ) × Pool fh
  fh_step none ip_is_null sp_is_null pool = (negsuc 99, none, pool)
  fh_step (some c) ip_is_null sp_is_null pool =
      if ip_is_null || sp_is_null
      then (negsuc 99, none, pool)
      else let r = step env c pool in (r.0, some (r.1, r.2), r.3)

module _ {fh : Framehop} where
  unfoldable pub fh_get_reg : Option FhCursor → Bool → Bool → Pool fh → Option (ℕ × ℕ)
  fh_get_reg none ip_is_null sp_is_null pool = none
  fh_get_reg (some c) ip_is_null sp_is_null pool =
      if ip_is_null || sp_is_null then none else some (get_reg c pool)

  unfoldable pub fh_cursor_fini : Option FhCursor → Pool fh → Option FhCursor × Pool fh
  fh_cursor_fini none pool = (none, pool)
  fh_cursor_fini (some c) pool = let r = cursor_fini c pool in (some r.0, r.1)
