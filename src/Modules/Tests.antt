-- ===== src/Modules/Tests.antt =====
-- modules/mod.rs: the theorems on modules at a small registry, with one module loaded from a file
-- and one JIT module.
use framehopunwind.Base.{
  ℕ, pos, List, ◌+◌, ◌≡◌, ◌≢◌, refl, true, false, none, some, [], ◌∷◌, get, contains, ◌==◌,
  if◌then◌else◌, arith,
}
use framehopunwind.Publish.{current_unw}
use framehopunwind.Modules.Jit.{
  Entry, cie, fde, Jit, Embedder, scan_fdes, scanned_range, fde_pc_range, register_parsed,
  register_jit_eh_frame, register_found, register_jit_eh_frame_auto,
}
use framehopunwind.Modules.Jit.Range.{RangeResult, fde_pc_range_lem}
use framehopunwind.Modules.Jit.Laws.{
  Outcome, AutoOutcome, register_jit_eh_frame_lem, register_jit_eh_frame_auto_lem,
}
use framehopunwind.Fixture.{toy, toy-ModuleLaws, count_of}
use framehopunwind.Modules.Registry.{Tracker, names, add_jit_module, remove_jit_module_by_eh_frame}
use framehopunwind.Modules.EhFrames.{Linked}
use framehopunwind.Modules.Published.{
  published_at, module_published, Tracked, add_jit_module-Tracked,
  remove_jit_module_by_eh_frame-Tracked,
}
use framehopunwind.Modules.Refresh.{EnumResult, apply_enum}
use framehopunwind.Modules.Counts.{Scanned}
use framehopunwind.Modules.Rescan.{refreshed_at, apply_enum-Tracked}

-- The module at 50 is loaded from a file, the one at 100 is a JIT module with its eh_frame at 7.
abbrev two_modules : Tracker toy
two_modules = record {
  reg = record {
    static_mods = (50, 9) ∷ [];
    jit_keys = 100 ∷ [];
    jit_by_eh_frame = (7, 100) ∷ [];
    jit_eh_frame_by_key = (100, 7) ∷ [];
    load_counts = none;
    batching = false;
    pending = [];
  };
  published = some (record { unw = 50 ∷ 100 ∷ []; max_code_addr = 150 });
}

two_modules-Linked : Linked (two_modules.reg)
unfolding get contains
two_modules-Linked = record {
  forward = λ e k. ground arith;
  backward = λ k e. ground arith;
  registered = λ k e. ground arith;
}

two_modules-count :
    (k : ℕ)
    → published_at toy-ModuleLaws two_modules k
      ≡ (if 50 == k then 1 else 0) + ((if 100 == k then 1 else 0) + 0)
unfolding toy-ModuleLaws count_of current_unw
two_modules-count k = refl

two_modules-Tracked : Tracked toy-ModuleLaws two_modules
unfolding get contains
two_modules-Tracked = record {
  disjoint = λ k. ground arith;
  jit_once = λ k. ground (arith, two_modules-count k);
  bounded = λ k. ground (arith, two_modules-count k);
  listed = λ k. ground (arith, two_modules-count k);
  distinct = (refl, tt);
  linked = two_modules-Linked;
}

add_jit_module-Tracked_example :
    let after = add_jit_module 100 8 100 two_modules in
    Tracked toy-ModuleLaws after
    × (published_at toy-ModuleLaws after 100 ≡ 1)
    × (module_published toy-ModuleLaws after 100 ≡ some 100)
    × ((k : ℕ)
        → 100 ≢ k
        → module_published toy-ModuleLaws after k ≡ module_published toy-ModuleLaws two_modules k)
    × (get 8 after.reg.jit_by_eh_frame ≡ some 100)
unfolding toy-ModuleLaws get
add_jit_module-Tracked_example =
    add_jit_module-Tracked toy-ModuleLaws 100 8 100 two_modules two_modules-Tracked refl refl

remove_jit_module_by_eh_frame-Tracked_example :
    Tracked toy-ModuleLaws (remove_jit_module_by_eh_frame 7 two_modules)
    × (get 7 (remove_jit_module_by_eh_frame 7 two_modules).reg.jit_by_eh_frame ≡ none)
    × ((k : ℕ)
        → published_at toy-ModuleLaws (remove_jit_module_by_eh_frame 7 two_modules) k ≡ (
            if names k (get 7 two_modules.reg.jit_by_eh_frame)
            then 0
            else published_at toy-ModuleLaws two_modules k))
remove_jit_module_by_eh_frame-Tracked_example =
    remove_jit_module_by_eh_frame-Tracked toy-ModuleLaws 7 two_modules two_modules-Tracked

-- The module at 50 was reloaded with another fingerprint, and one at 300 is new.
abbrev reloaded : EnumResult toy
reloaded = record { current = (50, 10) ∷ (300, 4) ∷ []; new_modules = (50, 50) ∷ (300, 300) ∷ [] }

reloaded-Scanned : Scanned toy-ModuleLaws reloaded two_modules
unfolding get contains toy-ModuleLaws
reloaded-Scanned = record {
  once = (refl, (refl, tt));
  fresh = λ k. ground arith;
  apart = λ k. ground arith;
}

apply_enum-Tracked_example :
    Tracked toy-ModuleLaws (apply_enum reloaded two_modules)
    × ((k : ℕ)
        → published_at toy-ModuleLaws (apply_enum reloaded two_modules) k
          ≡ refreshed_at toy-ModuleLaws k reloaded two_modules)
apply_enum-Tracked_example =
    apply_enum-Tracked toy-ModuleLaws reloaded two_modules two_modules-Tracked reloaded-Scanned

-- A section with two FDEs, wherever it lies.
abbrev two_fdes : List Entry
two_fdes = cie ∷ fde 0x420 32 ∷ fde 0x400 16 ∷ []

abbrev embedder : Embedder
embedder = record { bytes_at = λ ptr len. []; entries = λ bytes ptr. two_fdes }

abbrev session : Jit toy
session = record { tracker = two_modules; register_failures = 3 }

two_fdes_range : fde_pc_range two_fdes ≡ some (0x400, 0x440)
unfolding fde_pc_range scan_fdes scanned_range
two_fdes_range = refl

fde_pc_range_lem_example : RangeResult two_fdes (fde_pc_range two_fdes)
fde_pc_range_lem_example = fde_pc_range_lem two_fdes

register_jit_eh_frame_lem_example :
    Outcome toy-ModuleLaws embedder 0x7000 64 0x400 0x440 session
      (register_jit_eh_frame embedder 0x7000 64 0x400 0x440 session)
unfolding get
register_jit_eh_frame_lem_example =
    register_jit_eh_frame_lem toy-ModuleLaws embedder 0x7000 64 0x400 0x440 session
      two_modules-Tracked refl

two_fdes_free :
    (lo hi : ℕ) → fde_pc_range two_fdes ≡ some (lo, hi) → get lo two_modules.reg.static_mods ≡ none
unfolding get
two_fdes_free lo hi e = ground (arith, two_fdes_range)

register_jit_eh_frame_auto_lem_example :
    AutoOutcome toy-ModuleLaws embedder 0x7000 64 session
      (register_jit_eh_frame_auto embedder 0x7000 64 session)
register_jit_eh_frame_auto_lem_example =
    register_jit_eh_frame_auto_lem toy-ModuleLaws embedder 0x7000 64 session two_modules-Tracked
      two_fdes_free

registered_code : (register_jit_eh_frame_auto embedder 0x7000 64 session).0 ≡ pos 0
unfolding register_jit_eh_frame_auto register_found register_jit_eh_frame register_parsed
    fde_pc_range scan_fdes scanned_range
registered_code = refl

-- Two images were queued.
abbrev in_batch : Tracker toy
in_batch = record two_modules {
  reg = record (two_modules.reg) { batching = true; pending = (300, 1, 300) ∷ (400, 2, 400) ∷ [] };
}
