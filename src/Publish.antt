-- ===== src/Publish.antt =====
-- state.rs: `with_writer`, as the one writer sees it. What readers see of the swap and when the old
-- snapshot is freed is the subject of the module Hazard.
use framehopunwind.Base.{ℕ, Option, none, some}
use framehopunwind.Framehop.{Framehop}

pub record Snapshot (fh : Framehop) : Type 0 where
  pub unw : fh.Unwinder
  pub max_code_addr : ℕ

module _ {fh : Framehop} where
  -- The module set that the writer starts from.
  unfoldable pub current_unw : Option (Snapshot fh) → fh.Unwinder
  current_unw none = fh.new_unwinder
  current_unw (some s) = s.unw

  unfoldable pub with_writer :
      (fh.Unwinder → fh.Unwinder) → Option (Snapshot fh) → Option (Snapshot fh)
  unfolding current_unw
  with_writer f cur =
      let new_unw : fh.Unwinder = f (current_unw cur) in
      some (record { unw = new_unw; max_code_addr = fh.max_known_code_address new_unw })
