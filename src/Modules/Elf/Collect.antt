-- ===== src/Modules/Elf/Collect.antt =====
-- modules/elf.rs: what the collector holds between two calls of `callback`.
use framehopunwind.Base.{
  ℕ, map_option, ◌≡◌, inl, inr, refl, sym, ◌∙◌, ap, subst, Bool, true, false, ◌&&◌, ◌||◌, Option,
  none, some, List, [], ◌∷◌, HashMap, get, insert, get-insert, ◌==◌, if◌then◌else◌, Bool-cases, ltb,
  wrapping_add, arith,
}
use framehopunwind.Modules.Elf.Decode.{decode_eh_frame_start}
use framehopunwind.Framehop.{Framehop, ModuleLaws}
use framehopunwind.Modules.Refresh.{is_known}
use framehopunwind.Modules.Scanning.{push_module, StartsAt, Fine, add_image-Fine}
use framehopunwind.Modules.Elf.{
  enum_result, ObjectInfo, Loader, RawSpec, Collector, Geometry, Phdr, object_geometry, loadable,
  object_fingerprint, spec_at, spec_decoded, spec_of, push_spec, make_spec, callback, iterate,
  build_module, build_all,
}

-- Whether some loadable object's first segment starts at `k`.
abbrev pub has_key : ℕ → List ObjectInfo → Bool
has_key k [] = false
has_key k (info ∷ l) =
    (loadable (object_geometry info) && (object_geometry info).avma_lo == k) || has_key k l

-- No two loadable objects start at the same address.
abbrev pub KeysDiffer : List ObjectInfo → Type 0
KeysDiffer [] = Unit
KeysDiffer (info ∷ l) =
    (loadable (object_geometry info) ≡ true → has_key (object_geometry info).avma_lo l ≡ false)
    × KeysDiffer l

-- A spec is for the module at `key`.
abbrev pub ForKey : ℕ → Option RawSpec → Type 0
ForKey key none = Unit
ForKey key (some s) = (s.key ≡ key) × (s.avma.0 ≡ key)

ForKey-if :
    (b : Bool) (key : ℕ) (x y : Option RawSpec)
    → ForKey key x
    → ForKey key y
    → ForKey key (if b then x else y)
ForKey-if true key x y f f' = f
ForKey-if false key x y f f' = f'

spec_at-ForKey :
    (loader : Loader) (info : ObjectInfo) (g : Geometry) (hdr : Phdr) (a : ℕ) (r : Option ℕ)
    → ForKey g.avma_lo (spec_at loader info g hdr a r)
unfolding spec_at
spec_at-ForKey loader info g hdr a none = tt
spec_at-ForKey loader info g hdr a (some e) =
    ForKey-if (ltb a e) g.avma_lo (some (make_spec loader info g hdr a e)) none (refl, refl) tt

spec_decoded-ForKey :
    (loader : Loader) (info : ObjectInfo) (g : Geometry) (hdr : Phdr) (r : Option ℕ)
    → ForKey g.avma_lo (spec_decoded loader info g hdr r)
unfolding spec_decoded
spec_decoded-ForKey loader info g hdr none = tt
spec_decoded-ForKey loader info g hdr (some a) = spec_at-ForKey loader info g hdr a _

pub spec_of-ForKey :
    (loader : Loader) (info : ObjectInfo) (g : Geometry) (r : Option Phdr)
    → ForKey g.avma_lo (spec_of loader info g r)
unfolding spec_of
spec_of-ForKey loader info g none = tt
spec_of-ForKey loader info g (some hdr) =
    let hdr_avma = wrapping_add info.dlpi_addr hdr.p_vaddr in
    let decoded = decode_eh_frame_start hdr_avma (loader.bytes_at hdr_avma hdr.p_memsz) in
    ForKey-if (ltb hdr.p_memsz 4) g.avma_lo none (spec_decoded loader info g hdr decoded) tt
      (spec_decoded-ForKey loader info g hdr decoded)

module _ {fh : Framehop} (laws : ModuleLaws fh) where
  open laws use {start, start-new_module}

  start-build_module : (s : RawSpec) → start (build_module fh s) ≡ s.avma.0
  unfolding build_module
  start-build_module s = start-new_module s.name s.avma.0 s.avma.1 s.base_avma _

  built-push :
      (key : ℕ) (r : Option RawSpec) (specs : List RawSpec)
      → ForKey key r
      → build_all fh (push_spec r specs)
        ≡ push_module key (map_option (build_module fh) r) (build_all fh specs)
  unfolding build_all
  built-push key none specs f = refl
  built-push key (some s) [] f = ap (λ k. (k, build_module fh s) ∷ []) f.0
  built-push key (some s) (x ∷ specs) f =
      ap (λ l. (x.key, build_module fh x) ∷ l) (built-push key (some s) specs f)

  pub built-if :
      (b : Bool) (key : ℕ) (r : Option RawSpec) (specs : List RawSpec)
      → ForKey key r
      → build_all fh (if b then specs else push_spec r specs) ≡ (
          if b
          then build_all fh specs
          else push_module key (map_option (build_module fh) r) (build_all fh specs))
  built-if true key r specs f = refl
  built-if false key r specs f = built-push key r specs f

  pub built-StartsAt :
      (key : ℕ) (r : Option RawSpec)
      → ForKey key r
      → StartsAt laws key (map_option (build_module fh) r)
  built-StartsAt key none f = tt
  built-StartsAt key (some s) f = start-build_module s ∙ f.1

  -- What holds of the collector between two calls of `callback`.
  abbrev pub Gathered : HashMap ℕ → Collector → Type 0
  Gathered known c = Fine laws known (enum_result fh c)

  added-Gathered :
      (known : HashMap ℕ) (key fp : ℕ) (r : Option RawSpec) (c : Collector)
      → ForKey key r
      → get key c.current ≡ none
      → Gathered known c
      → Gathered known (record {
        current = insert key fp c.current;
        specs = if is_known (get key known) fp then c.specs else push_spec r c.specs;
      })
  added-Gathered known key fp r c f new fine =
      subst (λ l. Fine laws known (record { current = insert key fp c.current; new_modules = l }))
        (sym (built-if (is_known (get key known) fp) key r c.specs f))
        (add_image-Fine laws known key fp (map_option (build_module fh) r) (enum_result fh c)
          (built-StartsAt key r f) new fine)

  callback-Gathered :
      (loader : Loader) (known : HashMap ℕ) (info : ObjectInfo) (c : Collector)
      → (loadable (object_geometry info) ≡ true
          → get (object_geometry info).avma_lo c.current ≡ none)
      → Gathered known c
      → Gathered known (callback loader known info c)
        × ((k : ℕ)
            → has_key k (info ∷ []) ≡ false
            → get k (callback loader known info c).current ≡ get k c.current)
  unfolding callback
  callback-Gathered loader known info c new fine =
      elim (Bool-cases (loadable (object_geometry info))) [
        | inl can ↦
            let g = object_geometry info in
            let fp = object_fingerprint loader info g in
            rw can (
              added-Gathered known g.avma_lo fp (spec_of loader info g g.hdr_phdr) c
                  (spec_of-ForKey loader info g g.hdr_phdr) (new can) fine,
              λ k absent. ground (arith, get-insert g.avma_lo k fp c.current),
            )
        | inr cannot ↦ rw cannot (fine, λ k none_here. refl)
      ]

  pub iterate-Gathered :
      (loader : Loader) (known : HashMap ℕ) (l : List ObjectInfo) (c : Collector)
      → KeysDiffer l
      → ((k : ℕ) → has_key k l ≡ true → get k c.current ≡ none)
      → Gathered known c
      → Gathered known (iterate loader known l c)
        × ((k : ℕ)
            → has_key k l ≡ false
            → get k (iterate loader known l c).current ≡ get k c.current)
  unfolding iterate
  iterate-Gathered loader known [] c differ new fine = (fine, λ k absent. refl)
  iterate-Gathered loader known (info ∷ l) c (here, differ) new fine =
      let g = object_geometry info in
      let (fine', kept) =
        callback-Gathered loader known info c (λ can. new g.avma_lo (ground (arith, can))) fine in
      let rest =
        iterate-Gathered loader known l (callback loader known info c) differ
          (λ k later.
            let same : g.avma_lo ≡ k → has_key g.avma_lo l ≡ has_key k l =
              λ e. ap (λ x. has_key x l) e in
            kept k (ground (arith, here, later, same)) ∙ new k (ground (arith, later)))
          fine' in
      (rest.0, λ k absent. rest.1 k (ground (arith, absent)) ∙ kept k (ground (arith, absent)))
