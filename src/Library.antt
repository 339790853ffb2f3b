-- ===== src/Library.antt =====
-- lib.rs: the entry points off the signal path, on the state that the library keeps, and what the
-- stubs of other architectures answer.
pub mod Calls
pub mod Stacks
mod Tests
use framehopunwind.Base.{
  ℕ, Bool, true, false, not, ◌||◌, Option, none, some, List, [], HashMap, get, insert, ℤ, pos,
  negsuc, if◌then◌else◌,
}
use framehopunwind.Target.{Os, Arch, framehop_supported}
use framehopunwind.Framehop.{Framehop}
use framehopunwind.Arch.{FhContext, zeroed}
use framehopunwind.Slots
use framehopunwind.Slots.{Pool, initial_pool, thread_registered}
use framehopunwind.StackBounds.{Pthread, query_bounds}
use framehopunwind.Capture.{OsContext, context_from_os, context_from_thread_state}
use framehopunwind.Modules.Registry.{Tracker, initial_tracker, jit_module_count}
use framehopunwind.Modules.MachO.{Callbacks}
use framehopunwind.Modules.Entry
use framehopunwind.Modules.Entry.{System}
use framehopunwind.Modules.Jit.{
  Jit, Embedder, register_jit_eh_frame, register_jit_eh_frame_auto, deregister_jit,
  deregister_jit_eh_frame,
}

-- The statics of state.rs, modules/, sigreturn.rs and stackbounds.rs; BOUNDS of each thread by the
-- thread's number, and whether the process has the library's panic hook.
pub record Library (fh : Framehop) : Type 0 where
  pub pool : Pool fh
  pub jit : Jit fh
  pub installed : Bool
  pub trampoline : Option ℕ
  pub bounds : HashMap (ℕ × ℕ)
  pub panic_hook : Bool

abbrev pub initial_library : (fh : Framehop) → Library fh
initial_library fh = record {
  pool = initial_pool fh;
  jit = record { tracker = initial_tracker fh; register_failures = 0 };
  installed = false;
  trampoline = none;
  bounds = List.[];
  panic_hook = false;
}

abbrev or_unknown : Option (ℕ × ℕ) → ℕ × ℕ
or_unknown none = (0, 0)
or_unknown (some b) = b

unfoldable pub fh_supported : Os → Arch → ℤ
unfolding framehop_supported
fh_supported os arch = pos (if framehop_supported os arch then 1 else 0)

module _ {fh : Framehop} where
  -- What modules/ keeps.
  abbrev pub callbacks : Library fh → Callbacks fh
  callbacks lib = record { installed = lib.installed; tracker = lib.jit.tracker }

  abbrev pub with_callbacks : Callbacks fh → Library fh → Library fh
  with_callbacks s lib = record lib {
    jit = record (lib.jit) { tracker = s.tracker };
    installed = s.installed;
  }

  abbrev pub with_tracker : Tracker fh → Library fh → Library fh
  with_tracker t lib = record lib { jit = record (lib.jit) { tracker = t } }

  -- `stackbounds::current` of a thread.
  unfoldable pub current : ℕ → Library fh → ℕ × ℕ
  current thread lib = or_unknown (get thread lib.bounds)

  unfoldable pub register_current_thread : Os → ℕ → Pthread → Library fh → Library fh
  unfolding query_bounds
  register_current_thread os thread t lib = record lib {
    bounds = insert thread (query_bounds os t) lib.bounds;
  }

  -- `aborts_on_unix` says that the build has `panic = "abort"` and is for a Unix system.
  unfoldable pub install_panic_hook : Bool → Library fh → Library fh
  install_panic_hook aborts_on_unix lib = record lib {
    panic_hook = if aborts_on_unix then true else lib.panic_hook;
  }

module _ {fh : Framehop} (os : Os) (arch : Arch) where
  unfoldable pub fh_init : Bool → System fh → ℕ → Library fh → ℤ × Library fh
  unfolding Slots.init Entry.init install_panic_hook
  fh_init aborts_on_unix sys num_slots lib =
      let r = Entry.init os arch sys (callbacks lib, lib.trampoline) in
      (
        pos 0,
        record (with_callbacks r.0 (install_panic_hook aborts_on_unix lib)) {
          pool = Slots.init arch fh num_slots lib.pool;
          trampoline = r.1;
        },
      )

  unfoldable pub fh_thread_register : ℕ → Pthread → Library fh → Library fh
  unfolding register_current_thread thread_registered
  fh_thread_register thread t lib = record (register_current_thread os thread t lib) {
    pool = thread_registered arch fh lib.pool;
  }

  unfoldable pub fh_modules_refresh : System fh → Library fh → Library fh
  unfolding Entry.refresh
  fh_modules_refresh sys lib = with_callbacks (Entry.refresh os sys (callbacks lib)) lib

module _ {fh : Framehop} where
  unfoldable pub fh_jit_module_count : Library fh → ℕ
  unfolding jit_module_count
  fh_jit_module_count lib = jit_module_count lib.jit.tracker

  unfoldable pub fh_jit_register_failures : Library fh → ℕ
  fh_jit_register_failures lib = lib.jit.register_failures

  abbrev jit_result : ℤ × Jit fh → Library fh → ℤ × Library fh
  jit_result r lib = (r.0, record lib { jit = r.1 })

  unfoldable pub fh_register_jit : Embedder → ℕ → ℕ → ℕ → ℕ → Library fh → ℤ × Library fh
  unfolding register_jit_eh_frame
  fh_register_jit env eh_frame eh_frame_len text_lo text_hi lib =
      jit_result (register_jit_eh_frame env eh_frame eh_frame_len text_lo text_hi lib.jit) lib

  unfoldable pub fh_register_jit_auto : Embedder → ℕ → ℕ → Library fh → ℤ × Library fh
  unfolding register_jit_eh_frame_auto
  fh_register_jit_auto env eh_frame eh_frame_len lib =
      jit_result (register_jit_eh_frame_auto env eh_frame eh_frame_len lib.jit) lib

  unfoldable pub fh_deregister_jit : ℕ → Library fh → Library fh
  unfolding deregister_jit
  fh_deregister_jit text_lo lib = record lib { jit = deregister_jit text_lo lib.jit }

  unfoldable pub fh_deregister_jit_eh_frame : ℕ → Library fh → Library fh
  unfolding deregister_jit_eh_frame
  fh_deregister_jit_eh_frame eh_frame lib = record lib {
    jit = deregister_jit_eh_frame eh_frame lib.jit;
  }

-- What `*ctx` holds afterwards; a null `ctx` is `none`.
unfoldable pub fh_context_from_ucontext : Option FhContext → Option OsContext → Option FhContext
unfolding context_from_os
fh_context_from_ucontext none os_ctx = none
fh_context_from_ucontext (some ctx) os_ctx = some (context_from_os zeroed os_ctx)

unfoldable pub fh_context_from_thread_state :
    Arch → Option FhContext → Option (ℕ → ℕ) → Option FhContext
unfolding context_from_thread_state
fh_context_from_thread_state arch none ts = none
fh_context_from_thread_state arch (some ctx) ts = some (context_from_thread_state arch zeroed ts)

-- The stubs that return a result. The others do nothing.
pub data Stub : Type 0 where
  stub_init stub_cursor_init stub_cursor_init_bounds stub_cursor_init_bounds2 stub_step : Stub
  stub_register_jit stub_register_jit_auto : Stub
  stub_jit_module_count stub_jit_register_failures : Stub

unfoldable pub stub : Stub → ℤ
stub stub_jit_module_count = pos 0
stub stub_jit_register_failures = pos 0
stub _ = negsuc 0
