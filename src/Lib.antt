-- ===== src/Lib.antt =====
-- framehopunwind: a signal-safe stack unwinder with a C interface, on top of the framehop library.
--
-- A snapshot holds an unwinder with the modules that are loaded. Writers clone the current one,
-- change the clone, swap it in and free old ones that no reader uses; readers protect theirs with
-- the hazard cell of a slot. A cursor claims a slot, acquires a snapshot, and walks a stack frame
-- by frame. The registry keeps track of the modules that are published: those that a scan of the
-- loaded objects finds, and those registered by a JIT compiler.
--
-- The files, and the code that they are about:
--   Base          lists, maps, sets, machine words and names in fields, which the others share
--   Target        the architectures and systems (src/lib.rs: FRAMEHOP_SUPPORTED); a value chooses
--                 where the source uses cfg
--   Framehop      the framehop library as a parameter: its types, the operations called, and as
--                 SpLaws and ModuleLaws what the crate relies on; Fixture has a small instance
--   Arch          src/arch.rs
--   Hazard        src/state.rs: acquire_snapshot, release_slot, with_writer and reclaim as steps of
--                 one atomic access each. Reader and Writer say where a slot's cursor and the owner
--                 of the mutex stand; Step lets any of them move. Invariant, Safety and Reclaim
--                 have the proofs
--   Slots         src/state.rs: the chunk table, ensure_slots, claim_slot, nonce_matches,
--                 release_slot as functions on the pool; Layout, Growth and Claims have the proofs
--   Publish       src/state.rs: with_writer as its caller sees it
--   StackBounds   src/stackbounds.rs: query_bounds of each system
--   Sigreturn     src/sigreturn.rs: find_trampoline, is_trampoline and restore
--   Cursor        src/cursor.rs: Window (stack_window and the stack reader of step), Mask
--                 (ptr_auth_mask), Acquire (acquire_snapshot of src/state.rs, given the values that
--                 CURRENT has at its loads), Refines (that function and the steps of
--                 Hazard), Init (cursor_init and its two siblings), Walk (step, get_reg,
--                 cursor_fini), with the proofs in its Laws, Release and First
--   Modules       src/modules/mod.rs: Registry (JIT modules), Refresh (refresh), MacOs (the image
--                 callbacks), Entry (init, refresh and enumerate_static of each platform);
--                 EhFrames, Published, Counts, Rescan, Images, Batch, Idle and Settled have the
--                 proofs, Scanning what every scan adds to its result, and Loaded what a refresh
--                 is to publish, said of the loaded images
--   Modules.Jit   src/modules/jit.rs: Range (fde_pc_range on the entries that gimli parses), Laws,
--                 Idle
--   Modules.Elf   src/modules/elf.rs: Decode (the pointer in .eh_frame_hdr), Segments (the bound of
--                 a section), Collect and Scan (what the scan promises to refresh, and
--                 the two together)
--   Modules.Pe    src/modules/pe.rs: the scan; Image (headers, section table, section info), Listing
--                 (the attempts to list the modules), Scan (the scan with refresh), Sections (what
--                 framehop is given)
--   Modules.MachO src/modules/macho.rs: the callbacks; Image (load commands and sections), Keys (the
--                 two scans of an image), Replay (init_callbacks), Unwind (which images have unwind
--                 information), Laws (images that come and go)
--   Capture       src/capture.rs: the contexts of each system; Machine (fh_capture_context, as lists
--                 of instructions), Laws, Signals (the context of an interrupted thread),
--                 and Walks (a walk from a captured context)
--   Api           src/lib.rs: the entry points on cursors, with their null checks
--   Library       src/lib.rs: the other entry points, on the state of the whole library, and the
--                 stubs; Calls (any sequence of calls, those on cursors included) and
--                 Stacks (the walk of a registered thread)
--
-- Numbers. Machine words are natural numbers; additions wrap where the source's do, by `% 2 ^ 64`,
-- and saturate where they do. A pointer is its address, and null is 0.
--
-- Memory is a function from addresses, read byte by byte in object files and by words of 64 bits
-- where registers are stored.
--
-- Loops. `list_modules` runs down the 8 attempts that the source allows. `ensure_slots_loop` has
-- fuel for 64 rounds: a round fills one entry of the table of 64. `bit_length` has fuel for the 64
-- bits of a word. `acquire_loop` runs down the list of the pairs of values that its two loads return
-- in each round, and returns nothing if the list ends first.
--
-- Assumed. The accesses of src/state.rs that must be are sequentially consistent, so that they
-- happen in one order; the weaker first load of CURRENT may return any pointer.
-- Objects that the loader lists start at different addresses, and none where a JIT module does; so
-- do the modules of Windows and the images of dyld. An image's memory does not change while it is
-- read.
--
-- Not modelled: framehop itself, which is a third-party library; the calls of the operating system
-- and of the loader, whose results are inputs; what the panic hook writes; the variants of
-- capture.rs for other architectures, where the file is not compiled.
mod Base
pub mod Target
pub mod Framehop
pub mod Arch
pub mod Hazard
pub mod Slots
pub mod StackBounds
pub mod Sigreturn
pub mod Publish
mod Fixture
pub mod Cursor
pub mod Capture
pub mod Modules
pub mod Api
pub mod Library
