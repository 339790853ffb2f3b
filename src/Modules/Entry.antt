-- ===== src/Modules/Entry.antt =====
-- modules/mod.rs, and load_counts of modules/elf.rs: how `init` and `refresh` choose by the platform.
use framehopunwind.Base.{ℕ, Option, none, some, List, [], HashMap, leb, if◌then◌else◌}
use framehopunwind.Target.{Os, linux, freebsd, macos, windows, other_os, Arch, aarch64}
use framehopunwind.Framehop.{Framehop}
use framehopunwind.Sigreturn.{Vdso, find_trampoline}
use framehopunwind.Modules.Refresh.{EnumResult, refresh_elf, refresh_other}
use framehopunwind.Modules.Elf.{ObjectInfo, Loader}
use framehopunwind.Modules.Elf
use framehopunwind.Modules.Pe
use framehopunwind.Modules.Pe.{Windows}
use framehopunwind.Modules.Pe.Image.{PeBackend}
use framehopunwind.Modules.MachO.{Callbacks, init_callbacks}

-- What the system answers during one call. `first_entry` is what the loader's first callback gets:
-- the size of the structure, and its two counts, which it has if the size reaches `counts_end`.
-- `images` are the loaded Mach-O images, by header and slide, and `vdso_word` reads the vDSO.
pub record System (fh : Framehop) : Type 0 where
  pub first_entry : Option (ℕ × ℕ × ℕ)
  pub counts_end : ℕ
  pub loader : Loader
  pub infos : List ObjectInfo
  pub win : Windows
  pub pe : PeBackend fh
  pub mem : ℕ → ℕ
  pub images : List (ℕ × ℕ)
  pub vdso : Option Vdso
  pub vdso_word : ℕ → ℕ

unfoldable pub load_counts : ℕ → Option (ℕ × ℕ × ℕ) → Option (ℕ × ℕ)
load_counts counts_end none = none
load_counts counts_end (some (size, adds, subs)) =
    if leb counts_end size then some (adds, subs) else none

-- `get_or_init`
unfoldable pub sigreturn_init : (ℕ → ℕ) → Option Vdso → Option ℕ → Option ℕ
unfolding find_trampoline
sigreturn_init word_at vdso none = some (find_trampoline word_at vdso)
sigreturn_init word_at vdso (some t) = some t

module _ {fh : Framehop} where
  -- Not on macOS.
  unfoldable pub enumerate_static : Os → System fh → HashMap ℕ → Option (EnumResult fh)
  unfolding Elf.enumerate Pe.enumerate
  enumerate_static linux sys known = some (Elf.enumerate fh sys.loader known sys.infos)
  enumerate_static freebsd sys known = some (Elf.enumerate fh sys.loader known sys.infos)
  enumerate_static windows sys known = Pe.enumerate sys.pe sys.win known
  enumerate_static _ sys known = some (record { current = []; new_modules = [] })

  unfoldable pub refresh : Os → System fh → Callbacks fh → Callbacks fh
  unfolding refresh_elf refresh_other init_callbacks
  refresh linux sys s = record s {
    tracker =
        refresh_elf (load_counts sys.counts_end sys.first_entry)
          (Elf.enumerate fh sys.loader s.tracker.reg.static_mods sys.infos) s.tracker;
  }
  refresh freebsd sys s = record s {
    tracker =
        refresh_elf (load_counts sys.counts_end sys.first_entry)
          (Elf.enumerate fh sys.loader s.tracker.reg.static_mods sys.infos) s.tracker;
  }
  refresh macos sys s = init_callbacks sys.mem sys.images s
  refresh windows sys s = record s {
    tracker = refresh_other (enumerate_static windows sys s.tracker.reg.static_mods) s.tracker;
  }
  refresh other_os sys s = record s {
    tracker = refresh_other (enumerate_static other_os sys s.tracker.reg.static_mods) s.tracker;
  }

  -- The trampoline is looked for on Linux arm64; then the callbacks are installed on macOS, and
  -- everywhere else the modules are refreshed.
  unfoldable pub init_trampoline : Os → Arch → System fh → Option ℕ → Option ℕ
  unfolding sigreturn_init
  init_trampoline linux aarch64 sys trampoline = sigreturn_init sys.vdso_word sys.vdso trampoline
  init_trampoline _ _ sys trampoline = trampoline

  unfoldable pub init : Os → Arch → System fh → Callbacks fh × Option ℕ → Callbacks fh × Option ℕ
  unfolding refresh init_trampoline
  init os arch sys (s, trampoline) = (refresh os sys s, init_trampoline os arch sys trampoline)
