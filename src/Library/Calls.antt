-- ===== src/Library/Calls.antt =====
-- lib.rs: what holds after any sequence of calls.
use framehopunwind.Base.{
  Bool, ℕ, List, ◌<◌, ◌^◌, ◌≡◌, refl, sym, subst, inl, inr, true, false, some, none, get, contains,
}
use framehopunwind.Target.{Os, macos, Arch}
use framehopunwind.Framehop.{Framehop, ModuleLaws}
use framehopunwind.Slots.{thread_registered}
use framehopunwind.Slots
use framehopunwind.Slots.Layout.{IsPool}
use framehopunwind.Slots.Growth.{ensure_slots-Grows, initial_pool-IsPool}
use framehopunwind.StackBounds.{Pthread}
use framehopunwind.Modules.Published.{
  Tracked, initial_tracker-Tracked, remove_jit_module-Tracked,
  remove_jit_module_by_eh_frame-Tracked,
}
use framehopunwind.Modules.Jit.{
  Jit, Embedder, fde_pc_range, deregister_jit, deregister_jit_eh_frame,
}
use framehopunwind.Modules.Jit.Laws.{
  Outcome, AutoOutcome, entries_of, register_jit_eh_frame_lem, register_jit_eh_frame_auto_lem,
}
use framehopunwind.Modules.Jit.Idle.{register_jit_eh_frame-Idle, register_jit_eh_frame_auto-Idle}
use framehopunwind.Modules.Idle.{
  Idle, remove_jit_module-Idle, remove_jit_module_by_eh_frame-Idle, on_add_image-Idle,
  on_remove_image-Idle,
}
use framehopunwind.Modules.MachO.{on_add_image, on_remove_image}
use framehopunwind.Modules.MachO.Unwind.{unwinds_at}
use framehopunwind.Modules.MachO.Laws.{on_add_image-Tracked, on_remove_image-Tracked}
use framehopunwind.Cursor.Init.{FhCursor, Start, Process, cursor_init_bounds2}
use framehopunwind.Cursor.Init.Laws.{pool_after, cursor_init_bounds2-IsPool}
use framehopunwind.Cursor.Walk.{step, cursor_fini}
use framehopunwind.Cursor.Walk.Laws.{step-IsPool}
use framehopunwind.Cursor.Walk.Release.{cursor_fini_lem}
use framehopunwind.Modules.Entry
use framehopunwind.Modules.Entry.{System}
use framehopunwind.Modules.Settled.{Settled, refresh-Sound}
use framehopunwind.Library.{
  Library, initial_library, callbacks, install_panic_hook, fh_init, fh_thread_register,
  fh_modules_refresh, fh_register_jit, fh_register_jit_auto, fh_deregister_jit,
  fh_deregister_jit_eh_frame, with_tracker,
}

module _ {fh : Framehop} (laws : ModuleLaws fh) (os : Os) (arch : Arch) where
  -- One call of an entry point that changes the library's state, those of a cursor included (whatever
  -- the cursor's words are), or one of dyld's callbacks once they are installed, and what is asked of
  -- the arguments: code is not registered or loaded at an address where a module of the other kind
  -- starts. `env` is the process as the walk meets it.
  pub data Call : Library fh → Library fh → Type 0 where
    init_call :
        {lib : Library fh} (aborts_on_unix : Bool) (sys : System fh) (num_slots : ℕ)
        → Settled laws os sys (callbacks lib)
        → Call lib (fh_init os arch aborts_on_unix sys num_slots lib).1
    thread_register :
        {lib : Library fh} (thread : ℕ) (t : Pthread)
        → Call lib (fh_thread_register os arch thread t lib)
    modules_refresh :
        {lib : Library fh} (sys : System fh)
        → Settled laws os sys (callbacks lib)
        → Call lib (fh_modules_refresh os arch sys lib)
    register_jit :
        {lib : Library fh} (env : Embedder) (eh_frame len text_lo text_hi : ℕ)
        → get text_lo lib.jit.tracker.reg.static_mods ≡ none
        → Call lib (fh_register_jit env eh_frame len text_lo text_hi lib).1
    register_jit_auto :
        {lib : Library fh} (env : Embedder) (eh_frame len : ℕ)
        → ((lo hi : ℕ)
            → fde_pc_range (entries_of laws env eh_frame len) ≡ some (lo, hi)
            → get lo lib.jit.tracker.reg.static_mods ≡ none)
        → Call lib (fh_register_jit_auto env eh_frame len lib).1
    deregister : {lib : Library fh} (text_lo : ℕ) → Call lib (fh_deregister_jit text_lo lib)
    deregister_eh_frame :
        {lib : Library fh} (eh_frame : ℕ) → Call lib (fh_deregister_jit_eh_frame eh_frame lib)
    image_added :
        {lib : Library fh} (sys : System fh) (header slide : ℕ)
        → os ≡ macos
        → lib.installed ≡ true
        → ((k : ℕ)
            → unwinds_at sys.mem k (header, slide) ≡ true
            → contains k lib.jit.tracker.reg.jit_keys ≡ false)
        → Call lib (with_tracker (on_add_image sys.mem header slide lib.jit.tracker) lib)
    image_removed :
        {lib : Library fh} (sys : System fh) (header slide : ℕ)
        → os ≡ macos
        → lib.installed ≡ true
        → Call lib (with_tracker (on_remove_image sys.mem header slide lib.jit.tracker) lib)
    cursor_inits :
        {lib : Library fh} (env : Process fh) (a : Start) (loads : List (ℕ × ℕ))
        → Call lib (record lib {
          pool = pool_after env (cursor_init_bounds2 env a loads lib.pool) lib.pool;
        })
    cursor_steps :
        {lib : Library fh} (env : Process fh) (c : FhCursor)
        → Call lib (record lib { pool = (step env c lib.pool).3 })
    cursor_finishes :
        {lib : Library fh} (c : FhCursor)
        → c.nonce < 2 ^ 64
        → Call lib (record lib { pool = (cursor_fini c lib.pool).1 })

  -- Any sequence of calls from the start of the process.
  pub data Reachable : Library fh → Type 0 where
    start : Reachable (initial_library fh)
    after : {lib lib' : Library fh} → Reachable lib → Call lib lib' → Reachable lib'

  -- The slot pool is well-formed, the registry is consistent with what is published, and no batch runs.
  pub record Valid (lib : Library fh) : Type 0 where
    pub pool : IsPool lib.pool
    pub tracked : Tracked laws lib.jit.tracker
    pub idle : Idle lib.jit.tracker

  Outcome-Tracked :
      (env : Embedder) (ptr len lo hi : ℕ) (j : Jit fh) (r : _)
      → Tracked laws j.tracker
      → Outcome laws env ptr len lo hi j r
      → Tracked laws r.1.tracker
  Outcome-Tracked env ptr len lo hi j r v (inl (code, done)) = done.tracked
  Outcome-Tracked env ptr len lo hi j r v (inr refused) = subst (Tracked laws) (sym refused.same) v

  AutoOutcome-Tracked :
      (env : Embedder) (ptr len : ℕ) (j : Jit fh) (r : _)
      → Tracked laws j.tracker
      → AutoOutcome laws env ptr len j r
      → Tracked laws r.1.tracker
  AutoOutcome-Tracked env ptr len j r v (inl (code, done)) = done.whole.tracked
  AutoOutcome-Tracked env ptr len j r v (inr refused) = subst (Tracked laws) (sym refused.same) v

  Call-Valid : {lib lib' : Library fh} → Call lib lib' → Valid lib → Valid lib'
  unfolding install_panic_hook Slots.init thread_registered Entry.init fh_init fh_thread_register
      fh_modules_refresh fh_register_jit fh_register_jit_auto fh_deregister_jit
      fh_deregister_jit_eh_frame deregister_jit deregister_jit_eh_frame
  Call-Valid {lib = lib} (init_call aborts_on_unix sys n settled) v =
      let sound = refresh-Sound laws os sys (callbacks lib) settled (v.tracked, v.idle) in
      record {
        pool = (ensure_slots-Grows arch fh _ lib.pool v.pool).valid;
        tracked = sound.0;
        idle = sound.1;
      }
  Call-Valid {lib = lib} (thread_register thread t) v = record {
    pool =
        (ensure_slots-Grows arch fh _ (record (lib.pool) { registered_threads = _ })
          (record {
            whole = v.pool.whole;
            published = v.pool.published;
            table = v.pool.table;
          })).valid;
    tracked = v.tracked;
    idle = v.idle;
  }
  Call-Valid {lib = lib} (modules_refresh sys settled) v =
      let sound = refresh-Sound laws os sys (callbacks lib) settled (v.tracked, v.idle) in
      record { pool = v.pool; tracked = sound.0; idle = sound.1 }
  Call-Valid {lib = lib} (register_jit env ptr len lo hi free) v = record {
    pool = v.pool;
    tracked =
        Outcome-Tracked env ptr len lo hi lib.jit _ v.tracked
          (register_jit_eh_frame_lem laws env ptr len lo hi lib.jit v.tracked free);
    idle = register_jit_eh_frame-Idle env ptr len lo hi lib.jit v.idle;
  }
  Call-Valid {lib = lib} (register_jit_auto env ptr len free) v = record {
    pool = v.pool;
    tracked =
        AutoOutcome-Tracked env ptr len lib.jit _ v.tracked
          (register_jit_eh_frame_auto_lem laws env ptr len lib.jit v.tracked free);
    idle = register_jit_eh_frame_auto-Idle env ptr len lib.jit v.idle;
  }
  Call-Valid {lib = lib} (deregister text_lo) v = record {
    pool = v.pool;
    tracked = (remove_jit_module-Tracked laws text_lo lib.jit.tracker v.tracked).0;
    idle = remove_jit_module-Idle text_lo lib.jit.tracker v.idle;
  }
  Call-Valid {lib = lib} (deregister_eh_frame ptr) v = record {
    pool = v.pool;
    tracked = (remove_jit_module_by_eh_frame-Tracked laws ptr lib.jit.tracker v.tracked).0;
    idle = remove_jit_module_by_eh_frame-Idle ptr lib.jit.tracker v.idle;
  }
  Call-Valid {lib = lib} (image_added sys header slide mac installed free) v = record {
    pool = v.pool;
    tracked =
        (on_add_image-Tracked laws sys.mem header slide lib.jit.tracker v.tracked v.idle.0 free).0;
    idle = on_add_image-Idle sys.mem header slide lib.jit.tracker v.idle;
  }
  Call-Valid {lib = lib} (image_removed sys header slide mac installed) v = record {
    pool = v.pool;
    tracked = on_remove_image-Tracked laws sys.mem header slide lib.jit.tracker v.tracked v.idle.0;
    idle = on_remove_image-Idle sys.mem header slide lib.jit.tracker v.idle;
  }
  Call-Valid {lib = lib} (cursor_inits env a loads) v = record {
    pool = cursor_init_bounds2-IsPool env a loads lib.pool v.pool;
    tracked = v.tracked;
    idle = v.idle;
  }
  Call-Valid {lib = lib} (cursor_steps env c) v = record {
    pool = step-IsPool env c lib.pool v.pool;
    tracked = v.tracked;
    idle = v.idle;
  }
  Call-Valid {lib = lib} (cursor_finishes c word) v = record {
    pool = (cursor_fini_lem c lib.pool v.pool word).3;
    tracked = v.tracked;
    idle = v.idle;
  }

  initial_library-Valid : Valid (initial_library fh)
  initial_library-Valid = record {
    pool = initial_pool-IsPool fh;
    tracked = initial_tracker-Tracked laws;
    idle = (refl, refl);
  }

  -- After any sequence of calls, on and off the signal path, that asks for no two modules at one
  -- address: the slot pool is well-formed, with its slots in whole chunks, which are those published
  -- in its table of 64. Each JIT module is published once, no address has two modules, none has a
  -- module that the registry does not list, and the two maps of eh_frame addresses agree (`Tracked`).
  -- No batch of images is left open.
  pub Reachable-Valid : (lib : Library fh) → Reachable lib → Valid lib
  Reachable-Valid lib start = initial_library-Valid
  Reachable-Valid lib (after before call) = Call-Valid call (Reachable-Valid _ before)
