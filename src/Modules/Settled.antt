-- ===== src/Modules/Settled.antt =====
-- modules/mod.rs: what a refresh keeps, on every platform.
use framehopunwind.Base.{
  ℕ, ◌≡◌, ◌⊎◌, inl, inr, refl, sym, subst, true, false, none, [], get, contains, Bool-cases, arith,
}
use framehopunwind.Target.{Os, linux, freebsd, macos, windows, other_os}
use framehopunwind.Framehop.{Framehop, ModuleLaws}
use framehopunwind.Modules.Published.{Tracked}
use framehopunwind.Modules.Counts.{Scanned}
use framehopunwind.Modules.Rescan.{apply_enum-Tracked}
use framehopunwind.Modules.Refresh.{refresh_other, refresh_with}
use framehopunwind.Modules.Elf.Collect.{has_key, KeysDiffer}
use framehopunwind.Modules.Elf.Scan.{refresh_elf-Tracked}
use framehopunwind.Modules.Pe.{list_modules}
use framehopunwind.Modules.Pe.Image.{PeLaws}
use framehopunwind.Modules.Pe.Scan.{Separate, refresh_windows-Tracked}
use framehopunwind.Modules.MachO.{Callbacks, init_callbacks}
use framehopunwind.Modules.MachO.Replay.{ImagesDiffer}
use framehopunwind.Modules.MachO.Unwind.{any_unwinds_at}
use framehopunwind.Modules.MachO.Laws.{init_callbacks-Tracked}
use framehopunwind.Modules.Idle.{Idle, refresh_elf-Idle, refresh_other-Idle}
use framehopunwind.Modules.Entry.{System, load_counts, enumerate_static, refresh}

module _ {fh : Framehop} (laws : ModuleLaws fh) where
  -- What is asked of the system at a refresh: that loaded objects are at different addresses, and
  -- none at that of a JIT module; on macOS, of the images loaded when the callbacks are installed.
  abbrev pub Settled : Os → System fh → Callbacks fh → Type 0
  Settled linux sys s =
      KeysDiffer sys.infos
      × ((k : ℕ) → contains k s.tracker.reg.jit_keys ≡ true → has_key k sys.infos ≡ false)
  Settled freebsd sys s =
      KeysDiffer sys.infos
      × ((k : ℕ) → contains k s.tracker.reg.jit_keys ≡ true → has_key k sys.infos ≡ false)
  Settled macos sys s =
      (s.installed ≡ true)
      ⊎ (ImagesDiffer laws sys.mem sys.images
          × ((k : ℕ)
              → any_unwinds_at sys.mem k sys.images ≡ true
              → get k s.tracker.reg.static_mods ≡ none)
          × ((k : ℕ)
              → any_unwinds_at sys.mem k sys.images ≡ true
              → contains k s.tracker.reg.jit_keys ≡ false))
  Settled windows sys s =
      PeLaws laws sys.pe × Separate sys.win s.tracker (list_modules sys.win 8 0 0)
  Settled other_os sys s = Unit

  abbrev Sound : Callbacks fh → Type 0
  Sound s = Tracked laws s.tracker × Idle s.tracker

  installed-same :
      (sys : System fh) (s : Callbacks fh)
      → s.installed ≡ true
      → init_callbacks sys.mem sys.images s ≡ s
  unfolding init_callbacks
  installed-same sys s e = rw e refl

  init_callbacks-Sound :
      (sys : System fh) (s : Callbacks fh)
      → Settled macos sys s
      → Sound s
      → Sound (init_callbacks sys.mem sys.images s)
  init_callbacks-Sound sys s (inl done) (v, i) =
      subst Sound (sym (installed-same sys s done)) (v, i)
  init_callbacks-Sound sys s (inr (differ, new, free)) (v, i) = elim (Bool-cases (s.installed)) [
    | inl done ↦ subst Sound (sym (installed-same sys s done)) (v, i)
    | inr first ↦
        let (tracked, _, empty, over, _) =
          init_callbacks-Tracked laws sys.mem sys.images [] s first i.1 v differ new free in
        (tracked, (over, empty))
  ]

  other_os-Scanned :
      (s : Callbacks fh) → Scanned laws (record { current = []; new_modules = [] }) s.tracker
  unfolding get
  other_os-Scanned s = record { once = tt; fresh = λ k. omega arith; apart = λ k jit. refl }

  pub refresh-Sound :
      (os : Os) (sys : System fh) (s : Callbacks fh)
      → Settled os sys s
      → Sound s
      → Sound (refresh os sys s)
  unfolding refresh enumerate_static refresh_other refresh_with
  refresh-Sound linux sys s (differ, apart) (v, i) =
      let counts = load_counts sys.counts_end sys.first_entry in
      (
        (refresh_elf-Tracked laws sys.loader counts sys.infos s.tracker v differ apart).0,
        refresh_elf-Idle counts _ s.tracker i,
      )
  refresh-Sound freebsd sys s (differ, apart) (v, i) =
      let counts = load_counts sys.counts_end sys.first_entry in
      (
        (refresh_elf-Tracked laws sys.loader counts sys.infos s.tracker v differ apart).0,
        refresh_elf-Idle counts _ s.tracker i,
      )
  refresh-Sound macos sys s settled sound = init_callbacks-Sound sys s settled sound
  refresh-Sound windows sys s (pe_laws, separate) (v, i) = (
    (refresh_windows-Tracked laws sys.pe pe_laws sys.win s.tracker v separate).0,
    refresh_other-Idle _ s.tracker i,
  )
  refresh-Sound other_os sys s settled (v, i) = (
    (apply_enum-Tracked laws _ s.tracker v (other_os-Scanned s)).0,
    refresh_other-Idle (enumerate_static other_os sys s.tracker.reg.static_mods) s.tracker i,
  )
