-- ===== src/Modules/MachO/Keys.antt =====
-- modules/macho.rs: the two scans of an image find the same key.
use framehopunwind.Base.{
  ℕ, zero, suc, ◌+◌, ◌≤◌, ◌≡◌, inl, inr, refl, sym, ◌∙◌, Bool, true, false, Option, none, some,
  is_some, not, ◌&&◌, map_option, if◌then◌else◌, Bool-cases, arith, wrapping_add,
}
use framehopunwind.Framehop.{Framehop, ModuleLaws}
use framehopunwind.Modules.Scanning.{StartsAt}
use framehopunwind.Modules.MachO.Image.{
  image_name, ImageSections, header_size, ncmds, cmdsize, segment_at, is_text, first_text,
  image_key, text_pass, built, build_with, image_info, build_image,
}

-- How many of `n` load commands from `p` on are of the segment `__TEXT`.
unfoldable pub texts : (ℕ → ℕ) → ℕ → ℕ → ℕ
texts mem zero p = 0
texts mem (suc n) p = (if is_text mem p then 1 else 0) + texts mem n (p + cmdsize mem p)

-- The image has no second segment `__TEXT`.
abbrev pub OneText : (ℕ → ℕ) → ℕ → Type 0
OneText mem header = texts mem (ncmds mem header) (header + header_size) ≤ 1

abbrev avma_of : ℕ → Option (ℕ × ℕ) → Option ℕ
avma_of slide o = map_option (λ x. wrapping_add x.0 slide) o

text_pass-kept :
    (mem : ℕ → ℕ) (n p : ℕ) (found : Option (ℕ × ℕ))
    → texts mem n p ≡ 0
    → text_pass mem n p found ≡ found
unfolding texts text_pass
text_pass-kept mem zero p found none_left = refl
text_pass-kept mem (suc n) p found none_left = elim (Bool-cases (is_text mem p)) [
  | inl here ↦ absurd (ground (arith, here, none_left))
  | inr other ↦
      rw other (text_pass-kept mem n (p + cmdsize mem p) found (ground (arith, other, none_left)))
]

first_text-text_pass :
    (mem : ℕ → ℕ) (slide n p : ℕ)
    → texts mem n p ≤ 1
    → first_text mem slide n p ≡ avma_of slide (text_pass mem n p none)
unfolding texts text_pass first_text
first_text-text_pass mem slide zero p one = refl
first_text-text_pass mem slide (suc n) p one =
    let next = p + cmdsize mem p in
    elim (Bool-cases (is_text mem p)) [
      | inl here ↦
          rw
            (
              here,
              text_pass-kept mem n next
                  (some ((segment_at mem p).vmaddr, (segment_at mem p).vmsize))
                  (ground (arith, here, one)),
            )
            refl
      | inr other ↦ rw other (first_text-text_pass mem slide n next (ground (arith, other, one)))
    ]

module _ (fh : Framehop) (mem : ℕ → ℕ) where
  -- The key of an image that was built, and its module.
  abbrev pub key_of : Option (ℕ × ℕ × Option fh.Module) → Option ℕ
  key_of o = map_option (λ x. x.0) o

  build_with-key :
      (header slide : ℕ) (o : Option (ℕ × ℕ))
      → key_of (build_with fh mem header slide o) ≡ avma_of slide o
  unfolding build_with
  build_with-key header slide none = refl
  build_with-key header slide (some (v, s)) = refl

  -- For an image with at most one segment `__TEXT`, the key that its removal looks for is the one
  -- under which it was added.
  pub image_key-build_image :
      (header slide : ℕ)
      → OneText mem header
      → image_key mem header slide ≡ key_of (build_image fh mem header slide)
  unfolding image_key build_image
  image_key-build_image header slide one =
      let found = text_pass mem (ncmds mem header) (header + header_size) none in
      first_text-text_pass mem slide (ncmds mem header) (header + header_size) one
      ∙ sym (build_with-key header slide found)

  module _ (laws : ModuleLaws fh) where
    -- A module that was built starts at its key.
    abbrev pub KeyedStart : Option (ℕ × ℕ × Option fh.Module) → Type 0
    KeyedStart none = Unit
    KeyedStart (some (key, fp, m)) = StartsAt laws key m

    useful-StartsAt :
        (b : Bool) (key : ℕ) (m : fh.Module)
        → laws.start m ≡ key
        → StartsAt laws key (if b then none else some m)
    useful-StartsAt true key m e = tt
    useful-StartsAt false key m e = e

    built-StartsAt :
        (v size slide : ℕ) (s : ImageSections)
        → StartsAt laws (wrapping_add v slide) (built fh v size slide s)
    unfolding built
    built-StartsAt v size slide s =
        let base = wrapping_add v slide in
        useful-StartsAt (not (is_some s.unwind_info) && not (is_some s.eh_frame)) base _ (
          laws.start-new_module (image_name base) base (wrapping_add base size) base
            (image_info v s))

    build_with-KeyedStart :
        (header slide : ℕ) (o : Option (ℕ × ℕ)) → KeyedStart (build_with fh mem header slide o)
    unfolding build_with
    build_with-KeyedStart header slide none = tt
    build_with-KeyedStart header slide (some (v, size)) = built-StartsAt v size slide _

    pub build_image-KeyedStart : (header slide : ℕ) → KeyedStart (build_image fh mem header slide)
    unfolding build_image
    build_image-KeyedStart header slide =
        build_with-KeyedStart header slide
          (text_pass mem (ncmds mem header) (header + header_size) none)
