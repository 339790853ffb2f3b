-- ===== src/Library/Tests.antt =====
-- lib.rs: the theorems after a few calls.
use framehopunwind.Base.{arith, refl, true, none, [], ◌∷◌, get}
use framehopunwind.Target.{linux, x86_64}
use framehopunwind.Fixture.{toy, toy-ModuleLaws}
use framehopunwind.StackBounds.{Pthread}
use framehopunwind.Modules.Jit.{Embedder, fde}
use framehopunwind.Modules.Entry
use framehopunwind.Modules.Entry.{System, refresh, load_counts}
use framehopunwind.Modules.Elf
use framehopunwind.Modules.Elf.{iterate, build_all}
use framehopunwind.Modules.Refresh.{refresh_elf, same_counts, apply_enum, keys_where, is_empty}
use framehopunwind.Library.{
  Library, initial_library, fh_init, fh_thread_register, register_current_thread, fh_register_jit,
}
use framehopunwind.Cursor.Init.{FhCursor, cursor_magic, Start, Process, cursor_init_bounds2}
use framehopunwind.Cursor.Init.Laws.{pool_after}
use framehopunwind.Cursor.Walk.{step, cursor_fini}
use framehopunwind.Library.Calls.{
  Reachable, start, after, init_call, thread_register, register_jit, cursor_inits, cursor_steps,
  cursor_finishes, Valid, Reachable-Valid,
}

-- No object is loaded, and the loader reports no counts.
abbrev system : System toy
system = record {
  first_entry = none;
  counts_end = 48;
  loader = record { bytes_at = λ ptr len. []; hasher = λ fed. 7; to_string_lossy = λ l. l };
  infos = [];
  win = record {
    process_modules = λ attempt. none;
    pin = λ h. none;
    information = λ p. none;
    mem = λ a. 0;
    hasher = λ fed. 7;
  };
  pe = record { new_module = λ name range base info. range.0 };
  mem = λ a. 0;
  images = [];
  vdso = none;
  vdso_word = λ a. 0;
}

abbrev embedder : Embedder
embedder = record { bytes_at = λ ptr len. 1 ∷ []; entries = λ bytes ptr. fde 0x500 16 ∷ [] }

abbrev thread : Pthread
thread = record {
  got = true;
  rc_is_zero = true;
  stackaddr = 0x1000;
  stacksize = 0x8000;
  base = 0;
  size = 0;
}

abbrev initialised : Library toy
initialised = (fh_init linux x86_64 true system 0 (initial_library toy)).1

abbrev registered : Library toy
registered = fh_thread_register linux x86_64 1 thread initialised

abbrev with_code : Library toy
with_code = (fh_register_jit embedder 0x100 8 0x500 0x510 registered).1

with_code-Reachable : Reachable toy-ModuleLaws linux x86_64 with_code
unfolding fh_init fh_thread_register register_current_thread Entry.init refresh refresh_elf
    same_counts load_counts Elf.enumerate iterate build_all apply_enum keys_where is_empty get
with_code-Reachable =
    after
      (after (after start (init_call true system 0 (tt, λ k jit. refl))) (thread_register 1 thread))
      (register_jit embedder 0x100 8 0x500 0x510 refl)

-- A walk of the registered thread, whose stack is from 0x1000 to 0x9000.
abbrev walk : Process toy
walk = record {
  os = linux;
  arch = x86_64;
  snapshot_at = λ p. record { unw = []; max_code_addr = 0 };
  bounds = (0x1000, 0x9000);
  trampoline = none;
  mem = λ a. a;
}

abbrev from_context : Start
from_context = record {
  ctx = record { r0 = 0x4100; r1 = 0x2000; r2 = 0x2010; r3 = 0; r4 = 0 };
  stack_lo = 0;
  stack_hi = 0;
  stack_lo2 = 0;
  stack_hi2 = 0;
}

-- Its cursor is initialised, takes a step and is released.
abbrev cursor : FhCursor
cursor = record { magic = cursor_magic; slot_index = 0; nonce = 1 }

abbrev walking : Library toy
walking = record with_code {
  pool =
      pool_after walk (cursor_init_bounds2 walk from_context ((8, 8) ∷ []) with_code.pool)
        with_code.pool;
}

abbrev stepped : Library toy
stepped = record walking { pool = (step walk cursor walking.pool).3 }

abbrev finished : Library toy
finished = record stepped { pool = (cursor_fini cursor stepped.pool).1 }

finished-Reachable : Reachable toy-ModuleLaws linux x86_64 finished
finished-Reachable =
    after
      (after (after with_code-Reachable (cursor_inits walk from_context ((8, 8) ∷ [])))
        (cursor_steps walk cursor))
      (cursor_finishes cursor (omega arith))

Reachable-Valid_example : Valid toy-ModuleLaws linux x86_64 finished
Reachable-Valid_example = Reachable-Valid toy-ModuleLaws linux x86_64 finished finished-Reachable
