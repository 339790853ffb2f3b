-- ===== src/Modules/Elf/Scan.antt =====
-- modules/elf.rs: what a scan promises to `refresh`, and the two together.
use framehopunwind.Base.{
  ℕ, ◌≡◌, inl, inr, refl, sym, ◌∙◌, ap, subst, true, false, Option, none, some, map_option, List,
  [], ◌∷◌, HashMap, get, insert, contains, if◌then◌else◌, Bool-cases, arith,
}
use framehopunwind.Framehop.{Framehop, ModuleLaws}
use framehopunwind.Modules.Registry.{Tracker}
use framehopunwind.Modules.Published.{published_at, Tracked}
use framehopunwind.Modules.Refresh.{
  EnumResult, is_known, same_counts, set_counts, refresh_elf, apply_enum,
}
use framehopunwind.Modules.Counts.{Scanned}
use framehopunwind.Modules.Rescan.{refreshed_at, apply_enum-Tracked}
use framehopunwind.Modules.Loaded.{
  Image, Starts, AllStart, add_one, add_images, loaded_at, refreshed_at-loaded_at,
}
use framehopunwind.Modules.Elf.{
  ObjectInfo, Loader, Collector, object_geometry, loadable, object_fingerprint, spec_of,
  build_module, callback, iterate, enum_result, build_all, enumerate,
}
use framehopunwind.Modules.Elf.Collect.{
  has_key, KeysDiffer, iterate-Gathered, spec_of-ForKey, built-if, built-StartsAt,
}

abbrev listed : {fh : Framehop} → HashMap ℕ → List (ℕ × fh.Module) → EnumResult fh
listed current new_modules = record { current = current; new_modules = new_modules }

module _ {fh : Framehop} (laws : ModuleLaws fh) where
  -- A scan of objects that start at different addresses, none of them that of a JIT module, is one
  -- that `refresh` can rely on.
  pub enumerate-Scanned :
      (loader : Loader) (infos : List ObjectInfo) (t : Tracker fh)
      → KeysDiffer infos
      → ((k : ℕ) → contains k t.reg.jit_keys ≡ true → has_key k infos ≡ false)
      → Scanned laws (enumerate fh loader t.reg.static_mods infos) t
  unfolding enumerate get build_all
  enumerate-Scanned loader infos t differ apart =
      let (fine, kept) =
        iterate-Gathered laws loader t.reg.static_mods infos (record { current = []; specs = [] })
          differ (λ k h. refl) (record { once = tt; fresh = λ k. omega arith }) in
      record { once = fine.once; fresh = fine.fresh; apart = λ k jit. kept k (apart k jit) }

  with_counts :
      (counts : Option (ℕ × ℕ)) (t : Tracker fh)
      → Tracked laws t
      → Tracked laws (set_counts counts t)
  with_counts counts t v = record {
    disjoint = v.disjoint;
    jit_once = v.jit_once;
    bounded = v.bounded;
    listed = v.listed;
    distinct = v.distinct;
    linked = record {
      forward = v.linked.forward;
      backward = v.linked.backward;
      registered = v.linked.registered;
    };
  }

  -- What the loader lists of an object: the address of its first segment, its fingerprint, and the
  -- module that its program headers describe.
  abbrev pub object_image : Loader → ObjectInfo → Image fh.Module
  object_image loader info =
      let g = object_geometry info in
      if loadable g
      then some (
        g.avma_lo,
        object_fingerprint loader info g,
        map_option (build_module fh) (spec_of loader info g g.hdr_phdr),
      )
      else none

  abbrev pub object_images : Loader → List ObjectInfo → List (Image fh.Module)
  object_images loader [] = []
  object_images loader (info ∷ l) = object_image loader info ∷ object_images loader l

  object_image-Starts :
      (loader : Loader) (info : ObjectInfo) → Starts laws (object_image loader info)
  object_image-Starts loader info =
      let g = object_geometry info in
      elim (Bool-cases (loadable g)) [
        | inl can ↦ rw can (
            built-StartsAt laws g.avma_lo (spec_of loader info g g.hdr_phdr)
              (spec_of-ForKey loader info g g.hdr_phdr))
        | inr cannot ↦ rw cannot tt
      ]

  object_images-AllStart :
      (loader : Loader) (l : List ObjectInfo) → AllStart laws (object_images loader l)
  object_images-AllStart loader [] = tt
  object_images-AllStart loader (info ∷ l) =
      (object_image-Starts loader info, object_images-AllStart loader l)

  callback-add_one :
      (loader : Loader) (known : HashMap ℕ) (info : ObjectInfo) (c : Collector)
      → enum_result fh (callback loader known info c)
        ≡ add_one known (object_image loader info) (enum_result fh c)
  unfolding callback
  callback-add_one loader known info c =
      let g = object_geometry info in
      let fp = object_fingerprint loader info g in
      elim (Bool-cases (loadable g)) [
        | inl can ↦ rw can (
            ap (λ l. listed (insert g.avma_lo fp c.current) l)
              (built-if laws (is_known (get g.avma_lo known) fp) g.avma_lo
                (spec_of loader info g g.hdr_phdr) c.specs
                (spec_of-ForKey loader info g g.hdr_phdr)))
        | inr cannot ↦ rw cannot refl
      ]

  iterate-add_images :
      (loader : Loader) (known : HashMap ℕ) (l : List ObjectInfo) (c : Collector)
      → enum_result fh (iterate loader known l c)
        ≡ add_images known (object_images loader l) (enum_result fh c)
  unfolding iterate
  iterate-add_images loader known [] c = refl
  iterate-add_images loader known (info ∷ l) c =
      iterate-add_images loader known l (callback loader known info c)
      ∙ ap (add_images known (object_images loader l)) (callback-add_one loader known info c)

  enumerate-add_images :
      (loader : Loader) (known : HashMap ℕ) (l : List ObjectInfo)
      → enumerate fh loader known l
        ≡ add_images known (object_images loader l) (record { current = []; new_modules = [] })
  unfolding enumerate build_all
  enumerate-add_images loader known l =
      iterate-add_images loader known l (record { current = []; specs = [] })

  pub refresh_elf-Tracked :
      (loader : Loader) (counts : Option (ℕ × ℕ)) (infos : List ObjectInfo) (t : Tracker fh)
      → Tracked laws t
      → KeysDiffer infos
      → ((k : ℕ) → contains k t.reg.jit_keys ≡ true → has_key k infos ≡ false)
      → let after = refresh_elf counts (enumerate fh loader t.reg.static_mods infos) t in
        Tracked laws after
        × (same_counts counts t.reg.load_counts ≡ true → after ≡ t)
        × (same_counts counts t.reg.load_counts ≡ false
            → (k : ℕ) → published_at laws after k ≡ loaded_at laws k (object_images loader infos) t)
  unfolding refresh_elf
  refresh_elf-Tracked loader counts infos t v differ apart =
      let res = enumerate fh loader t.reg.static_mods infos in
      let after = apply_enum res (set_counts counts t) in
      let ok = enumerate-Scanned loader infos t differ apart in
      let done =
        apply_enum-Tracked laws res (set_counts counts t) (with_counts counts t v)
          (record { once = ok.once; fresh = ok.fresh; apart = ok.apart }) in
      let by_image : (k : ℕ)
          → refreshed_at laws k res t ≡ loaded_at laws k (object_images loader infos) t =
        λ k.
          ap (λ r. refreshed_at laws k r t) (enumerate-add_images loader t.reg.static_mods infos)
          ∙ refreshed_at-loaded_at laws k (object_images loader infos) t
              (object_images-AllStart loader infos) in
      elim (Bool-cases (same_counts counts t.reg.load_counts)) [
        | inl same ↦
            let is : refresh_elf counts res t ≡ t =
              subst (λ b. (if b then t else after) ≡ t) (sym same) refl in
            (
              subst (Tracked laws) (sym is) v,
              λ _. is,
              λ changed k. absurd (ground (arith, same, changed)),
            )
        | inr changed ↦
            let is : refresh_elf counts res t ≡ after =
              subst (λ b. (if b then t else after) ≡ after) (sym changed) refl in
            (
              subst (Tracked laws) (sym is) done.0,
              λ same. absurd (ground (arith, same, changed)),
              λ _ k. ap (λ t'. published_at laws t' k) is ∙ done.1 k ∙ by_image k,
            )
      ]
