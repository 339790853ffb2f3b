-- ===== src/Modules/Pe/Scan.antt =====
-- modules/pe.rs: what a scan promises to `refresh`, and the two together.
use framehopunwind.Base.{
  ℕ, ◌≡◌, inl, inr, refl, ◌∙◌, ap, Bool, true, false, ◌||◌, Option, none, some, map_option, List,
  [], ◌∷◌, HashMap, get, get-insert, contains, ◌==◌, if◌then◌else◌, Bool-cases, arith, wrapping_add,
}
use framehopunwind.Framehop.{Framehop, ModuleLaws}
use framehopunwind.Modules.Registry.{Tracker}
use framehopunwind.Modules.Published.{published_at, Tracked}
use framehopunwind.Modules.Refresh.{fingerprint_of, EnumResult, refresh_other, refresh_with}
use framehopunwind.Modules.Counts.{Scanned}
use framehopunwind.Modules.Rescan.{refreshed_at, apply_enum-Tracked}
use framehopunwind.Modules.Scanning.{StartsAt, Fine, add_image-Fine}
use framehopunwind.Modules.Loaded.{
  Image, Starts, AllStart, add_one, add_images, loaded_at, refreshed_at-loaded_at,
}
use framehopunwind.Modules.Pe.Image.{
  pe_name, PeBackend, PeLaws, PeSectionInfo, pe_timestamp, build_pe_module, pe_sections,
  section_table,
}
use framehopunwind.Modules.Pe.{
  Windows, PeScan, list_modules, scan_image, scan_pinned, scan_handles, scan_listed, free_library,
  enumerate,
}

-- The image that a handle stands for: its base and size, if it can be pinned and asked.
abbrev based : Option (ℕ × ℕ) → Option (ℕ × ℕ)
based none = none
based (some (base, size)) = if base == 0 then none else some (base, size)

abbrev pinned_image : Windows → Option ℕ → Option (ℕ × ℕ)
pinned_image win none = none
pinned_image win (some p) = if p == 0 then none else based (win.information p)

abbrev pub image_of : Windows → ℕ → Option (ℕ × ℕ)
image_of win h = pinned_image win (win.pin h)

abbrev pub is_at : ℕ → Option (ℕ × ℕ) → Bool
is_at k none = false
is_at k (some (base, size)) = base == k

-- Whether some handle's image is at `k`.
abbrev pub has_base : Windows → ℕ → List ℕ → Bool
has_base win k [] = false
has_base win k (h ∷ l) = is_at k (image_of win h) || has_base win k l

abbrev pub NotIn : Windows → List ℕ → Option (ℕ × ℕ) → Type 0
NotIn win l none = Unit
NotIn win l (some (base, size)) = has_base win base l ≡ false

-- No two handles are of images at the same address.
abbrev pub BasesDiffer : Windows → List ℕ → Type 0
BasesDiffer win [] = Unit
BasesDiffer win (h ∷ l) = NotIn win l (image_of win h) × BasesDiffer win l

module _ {fh : Framehop} (pe : PeBackend fh) (win : Windows) where
  -- An image as the system has it: its base, its fingerprint, and the module that its headers
  -- describe.
  abbrev pub pe_image : Option (ℕ × ℕ) → Image fh.Module
  pe_image none = none
  pe_image (some (base, size)) = some (
    base,
    fingerprint_of win.hasher (size ∷ pe_timestamp win.mem base ∷ []) [],
    build_pe_module pe win.mem base size,
  )

  abbrev pub pe_images : List ℕ → List (Image fh.Module)
  pe_images [] = []
  pe_images (h ∷ l) = pe_image (image_of win h) ∷ pe_images l

module _ {fh : Framehop} (laws : ModuleLaws fh) (pe : PeBackend fh) (pe_laws : PeLaws laws pe)
    (win : Windows) (known : HashMap ℕ) where
  -- What one image adds to the result.
  abbrev add_at : Option (ℕ × ℕ) → EnumResult fh → EnumResult fh
  add_at i res = add_one known (pe_image pe win i) res

  scan_image-add_at :
      (i : Option (ℕ × ℕ)) (s : PeScan fh)
      → scan_image pe win known i s ≡ record { result = add_at (based i) s.result; held = s.held }
  unfolding scan_image
  scan_image-add_at none s = refl
  scan_image-add_at (some (base, size)) s = elim (Bool-cases (base == 0)) [
    | inl z ↦ rw z refl
    | inr nz ↦ rw nz refl
  ]

  -- The pin is released before the next handle.
  scan_pinned-add_at :
      (p : Option ℕ) (s : PeScan fh)
      → scan_pinned pe win known p s
        ≡ record { result = add_at (pinned_image win p) s.result; held = s.held }
  unfolding scan_pinned free_library
  scan_pinned-add_at none s = refl
  scan_pinned-add_at (some p) s = elim (Bool-cases (p == 0)) [
    | inl z ↦ rw z refl
    | inr nz ↦
        let e = scan_image-add_at (win.information p) (record s { held = p ∷ s.held }) in
        let same : (p == p) ≡ true = ground arith in rw (nz, e, same) refl
  ]

  built-StartsAt-sections :
      (base size : ℕ) (o : Option PeSectionInfo)
      → StartsAt laws base
          (map_option (pe.new_module (pe_name base) (base, wrapping_add base size) base) o)
  built-StartsAt-sections base size none = tt
  built-StartsAt-sections base size (some info) =
      pe_laws.start-new_module (pe_name base) base (wrapping_add base size) base info

  built-StartsAt : (base size : ℕ) → StartsAt laws base (build_pe_module pe win.mem base size)
  unfolding build_pe_module
  built-StartsAt base size =
      built-StartsAt-sections base size (pe_sections win.mem base size (section_table win.mem base))

  add_at-Fine :
      (i : Option (ℕ × ℕ)) (res : EnumResult fh)
      → ((k : ℕ) → is_at k i ≡ true → get k res.current ≡ none)
      → Fine laws known res
      → Fine laws known (add_at i res)
        × ((k : ℕ) → is_at k i ≡ false → get k (add_at i res).current ≡ get k res.current)
  add_at-Fine none res new fine = (fine, λ k absent. refl)
  add_at-Fine (some (base, size)) res new fine =
      let fp = fingerprint_of win.hasher (size ∷ pe_timestamp win.mem base ∷ []) [] in
      (
        add_image-Fine laws known base fp (build_pe_module pe win.mem base size) res
            (built-StartsAt base size) (new base (ground arith)) fine,
        λ k absent. ground (arith, absent, get-insert base k fp res.current),
      )

  later-absent :
      (i : Option (ℕ × ℕ)) (l : List ℕ) (k : ℕ)
      → NotIn win l i
      → has_base win k l ≡ true
      → is_at k i ≡ false
  later-absent none l k apart later = refl
  later-absent (some (base, size)) l k apart later = elim (Bool-cases (base == k)) [
    | inl same ↦
        let e : has_base win base l ≡ has_base win k l =
          ap (λ x. has_base win x l) (ground (arith, same)) in
        absurd (ground (arith, apart, later, e))
    | inr differ ↦ differ
  ]

  -- The loop over handles of images at different addresses. It holds no pin at its end that it did
  -- not hold before.
  pub scan_handles-Fine :
      (l : List ℕ) (s : PeScan fh)
      → BasesDiffer win l
      → ((k : ℕ) → has_base win k l ≡ true → get k s.result.current ≡ none)
      → Fine laws known s.result
      → Fine laws known (scan_handles pe win known l s).result
        × ((k : ℕ)
            → has_base win k l ≡ false
            → get k (scan_handles pe win known l s).result.current ≡ get k s.result.current)
        × ((scan_handles pe win known l s).held ≡ s.held)
  unfolding scan_handles
  scan_handles-Fine [] s differ new fine = (fine, λ k absent. refl, refl)
  scan_handles-Fine (h ∷ l) s (here, differ) new fine =
      let i = image_of win h in
      let next : PeScan fh = record { result = add_at i s.result; held = s.held } in
      let is = scan_pinned-add_at (win.pin h) s in
      let (fine', kept) = add_at-Fine i s.result (λ k at. new k (ground (arith, at))) fine in
      let rest =
        scan_handles-Fine l next differ
          (λ k later. kept k (later-absent i l k here later) ∙ new k (ground (arith, later)))
          fine' in
      rw (scan_handles, is)
        (
          rest.0,
          λ k absent. rest.1 k (ground (arith, absent)) ∙ kept k (ground (arith, absent)),
          rest.2,
        )

  pub scan_handles-add_images :
      (l : List ℕ) (s : PeScan fh)
      → (scan_handles pe win known l s).result ≡ add_images known (pe_images pe win l) s.result
  unfolding scan_handles
  scan_handles-add_images [] s = refl
  scan_handles-add_images (h ∷ l) s =
      ap (λ s'. (scan_handles pe win known l s').result) (scan_pinned-add_at (win.pin h) s)
      ∙ scan_handles-add_images l
          (record { result = add_at (image_of win h) s.result; held = s.held })

  pe_image-Starts : (i : Option (ℕ × ℕ)) → Starts laws (pe_image pe win i)
  pe_image-Starts none = tt
  pe_image-Starts (some (base, size)) = built-StartsAt base size

  pub pe_images-AllStart : (l : List ℕ) → AllStart laws (pe_images pe win l)
  pe_images-AllStart [] = tt
  pe_images-AllStart (h ∷ l) = (pe_image-Starts (image_of win h), pe_images-AllStart l)

-- No listed image is at the address of a JIT module.
abbrev pub Apart : {fh : Framehop} → Windows → Tracker fh → List ℕ → Type 0
Apart win t l = (k : ℕ) → contains k t.reg.jit_keys ≡ true → has_base win k l ≡ false

-- What is asked of the handles, if they could be listed.
abbrev pub Separate : {fh : Framehop} → Windows → Tracker fh → Option (List ℕ) → Type 0
Separate win t none = Unit
Separate win t (some l) = BasesDiffer win l × Apart win t l

module _ {fh : Framehop} (laws : ModuleLaws fh) (pe : PeBackend fh) (pe_laws : PeLaws laws pe)
    (win : Windows) where
  abbrev scanned : HashMap ℕ → List ℕ → EnumResult fh
  scanned known l =
      (scan_handles pe win known l
        (record { result = record { current = []; new_modules = [] }; held = [] })).result

  scanned-Scanned :
      (t : Tracker fh) (l : List ℕ)
      → BasesDiffer win l
      → Apart win t l
      → Scanned laws (scanned t.reg.static_mods l) t
  unfolding get
  scanned-Scanned t l differ apart =
      let (fine, kept, _) =
        scan_handles-Fine laws pe pe_laws win t.reg.static_mods l
          (record { result = record { current = []; new_modules = [] }; held = [] }) differ
          (λ k h. refl) (record { once = tt; fresh = λ k. omega arith }) in
      record { once = fine.once; fresh = fine.fresh; apart = λ k jit. kept k (apart k jit) }

  -- How often a key is to be published after a refresh with the handles listed, or without.
  abbrev pub published_after : Tracker fh → Option (List ℕ) → ℕ → ℕ
  published_after t none k = published_at laws t k
  published_after t (some l) k = loaded_at laws k (pe_images pe win l) t

  refresh_listed-Tracked :
      (t : Tracker fh) (o : Option (List ℕ))
      → Tracked laws t
      → Separate win t o
      → let after = refresh_other (scan_listed pe win t.reg.static_mods o) t in
        Tracked laws after × ((k : ℕ) → published_at laws after k ≡ published_after t o k)
  unfolding refresh_other refresh_with
  refresh_listed-Tracked t none v _ = (v, λ k. refl)
  refresh_listed-Tracked t (some l) v (differ, apart) =
      let res = scanned t.reg.static_mods l in
      let (tracked, cnt) = apply_enum-Tracked laws res t v (scanned-Scanned t l differ apart) in
      (
        tracked,
        λ k.
            cnt k
            ∙ ap (λ r. refreshed_at laws k r t)
                (scan_handles-add_images laws pe pe_laws win t.reg.static_mods l
                  (record { result = record { current = []; new_modules = [] }; held = [] }))
            ∙ refreshed_at-loaded_at laws k (pe_images pe win l) t
                (pe_images-AllStart laws pe pe_laws win t.reg.static_mods l),
      )

  pub refresh_windows-Tracked :
      (t : Tracker fh)
      → Tracked laws t
      → Separate win t (list_modules win 8 0 0)
      → let after = refresh_other (enumerate pe win t.reg.static_mods) t in
        Tracked laws after
        × ((k : ℕ) → published_at laws after k ≡ published_after t (list_modules win 8 0 0) k)
  unfolding enumerate
  refresh_windows-Tracked t v separate =
      refresh_listed-Tracked t (list_modules win 8 0 0) v separate
