-- ===== src/Modules/MachO/Unwind.antt =====
-- modules/macho.rs: which images have unwind information, said of their load commands.
use framehopunwind.Base.{
  ℕ, zero, suc, ◌+◌, ◌≡◌, inl, inr, refl, ◌∙◌, ap, Bool, true, false, not, ◌&&◌, ◌||◌, Option, none,
  some, is_some, map_option, List, [], ◌∷◌, ◌==◌, if◌then◌else◌, field_eq, Bool-cases, bit_xor,
  rotate_left, wrapping_add, arith,
}
use framehopunwind.Framehop.{Framehop, ModuleLaws}
use framehopunwind.Modules.MachO.Image.{
  lc_segment_64, header_size, segment_size, section_size, ncmds, cmd, cmdsize, Segment, Section64,
  segment_at, section_64_at, name_eq, text_segment_name, text_name, unwind_info_name, eh_frame_name,
  text_pass, is_text, ImageSections, no_sections, add_section, add_sections, add_text, section_pass,
  built, build_with, build_image,
}
use framehopunwind.Modules.Loaded.{or_else, or_else_assoc, or_else-none}
use framehopunwind.Modules.MachO.Replay.{adds_at, parsed, has_image}

abbrev pub is_unwind_name : List ℕ → Bool
is_unwind_name n = name_eq n unwind_info_name || name_eq n eh_frame_name

-- Whether one of `n` sections from `q` on is `__unwind_info` or `__eh_frame`.
unfoldable pub sections_unwind : (ℕ → ℕ) → ℕ → ℕ → Bool
sections_unwind mem zero q = false
sections_unwind mem (suc n) q =
    is_unwind_name (section_64_at mem q).sectname || sections_unwind mem n (q + section_size)

-- Whether one of `n` load commands from `p` on is of a segment with such a section.
unfoldable pub commands_unwind : (ℕ → ℕ) → ℕ → ℕ → Bool
commands_unwind mem zero p = false
commands_unwind mem (suc n) p =
    (cmd mem p == lc_segment_64 && sections_unwind mem (segment_at mem p).nsects (p + segment_size))
    || commands_unwind mem n (p + cmdsize mem p)

-- Whether the load command at `p` is of the segment `__TEXT`.
abbrev names_text : (ℕ → ℕ) → ℕ → Bool
names_text mem p =
    (cmd mem p == lc_segment_64) && name_eq (segment_at mem p).segname text_segment_name

-- The linked address of the last segment `__TEXT` among `n` load commands from `p` on.
unfoldable pub last_text : (ℕ → ℕ) → ℕ → ℕ → Option ℕ
last_text mem zero p = none
last_text mem (suc n) p =
    or_else (last_text mem n (p + cmdsize mem p))
      (if names_text mem p then some (segment_at mem p).vmaddr else none)

abbrev based_at : ℕ → ℕ → Option ℕ → Bool
based_at k slide none = false
based_at k slide (some vmaddr) = wrapping_add vmaddr slide == k

-- Whether an image, given by its header and slide, stands at `k` (where its last segment `__TEXT`
-- is loaded) and has unwind information of either kind.
abbrev pub unwinds_at : (ℕ → ℕ) → ℕ → ℕ × ℕ → Bool
unwinds_at mem k (header, slide) =
    not (header == 0)
    && (based_at k slide (last_text mem (ncmds mem header) (header + header_size))
        && commands_unwind mem (ncmds mem header) (header + header_size))

-- Whether one of the images does.
abbrev pub any_unwinds_at : (ℕ → ℕ) → ℕ → List (ℕ × ℕ) → Bool
any_unwinds_at mem k [] = false
any_unwinds_at mem k (i ∷ l) = unwinds_at mem k i || any_unwinds_at mem k l

abbrev third : List ℕ → ℕ
third (a ∷ b ∷ c ∷ l) = c
third _ = 0

third_of : (n : List ℕ) (x y z : ℕ) (r : List ℕ) → name_eq n (x ∷ y ∷ z ∷ r) ≡ true → third n ≡ z
unfolding name_eq field_eq
third_of [] x y z r e = ground (arith, e)
third_of (a ∷ []) x y z r e = ground (arith, e)
third_of (a ∷ b ∷ []) x y z r e = ground (arith, e)
third_of (a ∷ b ∷ c ∷ l) x y z r e = ground (arith, e)

-- A section with code is neither.
text-plain : (n : List ℕ) → name_eq n text_name ≡ true → is_unwind_name n ≡ false
text-plain n e =
    let t = third_of n _ _ _ _ e in
    elim (Bool-cases (name_eq n unwind_info_name)) [
      | inl u ↦ absurd (omega (arith, t, third_of n _ _ _ _ u))
      | inr no_info ↦ elim (Bool-cases (name_eq n eh_frame_name)) [
        | inl h ↦ absurd (omega (arith, t, third_of n _ _ _ _ h))
        | inr no_frame ↦ rw (no_info, no_frame) refl
      ]
    ]

abbrev found : ImageSections → Bool
found s = is_some s.unwind_info || is_some s.eh_frame

add_section-found :
    (slide : ℕ) (sec : Section64) (s : ImageSections)
    → found (add_section slide sec s) ≡ (is_unwind_name sec.sectname || found s)
unfolding add_section
add_section-found slide sec s = elim (Bool-cases (name_eq sec.sectname text_name)) [
  | inl code ↦ ground (arith, code, text-plain sec.sectname code)
  | inr other ↦ ground (arith, other)
]

add_sections-found :
    (mem : ℕ → ℕ) (slide n q : ℕ) (s : ImageSections)
    → found (add_sections mem slide n q s) ≡ (sections_unwind mem n q || found s)
unfolding add_sections sections_unwind
add_sections-found mem slide zero q s = refl
add_sections-found mem slide (suc n) q s =
    let sec = section_64_at mem q in
    add_sections-found mem slide n (q + section_size) (add_section slide sec s)
    ∙ ground (arith, add_section-found slide sec s)

or-rotate : (a b c : Bool) → (a || (b || c)) ≡ ((b || a) || c)
or-rotate true true c = refl
or-rotate true false c = refl
or-rotate false true c = refl
or-rotate false false c = refl

choose-found :
    (b u : Bool) (x s : ImageSections)
    → found x ≡ (u || found s)
    → found (if b then x else s) ≡ ((b && u) || found s)
choose-found true u x s e = ground (arith, e)
choose-found false u x s e = refl

text-found :
    (b : Bool) (slide : ℕ) (seg : Segment) (s : ImageSections)
    → found (if b then add_text slide seg s else s) ≡ found s
unfolding add_text
text-found true slide seg s = refl
text-found false slide seg s = refl

section_pass-found :
    (mem : ℕ → ℕ) (slide n p : ℕ) (s : ImageSections)
    → found (section_pass mem slide n p s) ≡ (commands_unwind mem n p || found s)
unfolding section_pass commands_unwind
section_pass-found mem slide zero p s = refl
section_pass-found mem slide (suc n) p s =
    let seg = segment_at mem p in
    let texts : ImageSections =
      if name_eq seg.segname text_segment_name then add_text slide seg s else s in
    let b = cmd mem p == lc_segment_64 in
    let u = sections_unwind mem seg.nsects (p + segment_size) in
    let x = add_sections mem slide seg.nsects (p + segment_size) texts in
    let more : found x ≡ (u || found s) =
      add_sections-found mem slide seg.nsects (p + segment_size) texts
      ∙ ap (λ f. u || f) (text-found (name_eq seg.segname text_segment_name) slide seg s) in
    section_pass-found mem slide n (p + cmdsize mem p) (if b then x else s)
    ∙ ap (λ f. commands_unwind mem n (p + cmdsize mem p) || f) (choose-found b u x s more)
    ∙ or-rotate (commands_unwind mem n (p + cmdsize mem p)) (b && u) (found s)

abbrev first_of : Option (ℕ × ℕ) → Option ℕ
first_of o = map_option (λ x. x.0) o

one_text :
    (b : Bool) (x : ℕ × ℕ) (found : Option (ℕ × ℕ))
    → first_of (if b then some x else found)
      ≡ or_else (if b then some x.0 else none) (first_of found)
one_text true x found = refl
one_text false x found = refl

text_pass-last_text :
    (mem : ℕ → ℕ) (n p : ℕ) (found : Option (ℕ × ℕ))
    → first_of (text_pass mem n p found) ≡ or_else (last_text mem n p) (first_of found)
unfolding text_pass last_text is_text
text_pass-last_text mem zero p found = refl
text_pass-last_text mem (suc n) p found =
    let seg = segment_at mem p in
    let here : Option (ℕ × ℕ) = if names_text mem p then some (seg.vmaddr, seg.vmsize) else found in
    text_pass-last_text mem n (p + cmdsize mem p) here
    ∙ (ap (or_else (last_text mem n (p + cmdsize mem p)))
          (one_text (names_text mem p) (seg.vmaddr, seg.vmsize) found)
        ∙ or_else_assoc (last_text mem n (p + cmdsize mem p))
            (if names_text mem p then some seg.vmaddr else none) (first_of found))

module _ (fh : Framehop) (mem : ℕ → ℕ) where
  built-adds_at :
      (k vmaddr vmsize slide fp : ℕ) (s : ImageSections)
      → adds_at k (some (wrapping_add vmaddr slide, fp, built fh vmaddr vmsize slide s))
        ≡ ((wrapping_add vmaddr slide == k) && found s)
  unfolding built
  built-adds_at k vmaddr vmsize slide fp s = elim (Bool-cases (found s)) [
    | inl yes_there ↦ ground (arith, yes_there)
    | inr missing ↦ ground (arith, missing)
  ]

  build_with-adds_at :
      (header slide k : ℕ) (o : Option (ℕ × ℕ))
      → adds_at k (build_with fh mem header slide o) ≡ (
          based_at k slide (first_of o)
          && commands_unwind mem (ncmds mem header) (header + header_size))
  unfolding build_with
  build_with-adds_at header slide k none = refl
  build_with-adds_at header slide k (some (vmaddr, vmsize)) =
      let p = header + header_size in
      let s = section_pass mem slide (ncmds mem header) p no_sections in
      built-adds_at k vmaddr vmsize slide (bit_xor vmaddr (rotate_left vmsize 32)) s
      ∙ ground (arith, section_pass-found mem slide (ncmds mem header) p no_sections)

module _ {fh : Framehop} (mem : ℕ → ℕ) where
  -- What is built from an image is a module exactly if it has unwind information.
  pub adds_at-unwinds_at :
      (laws : ModuleLaws fh) (k : ℕ) (i : ℕ × ℕ)
      → adds_at k (parsed laws mem i) ≡ unwinds_at mem k i
  unfolding build_image
  adds_at-unwinds_at laws k (header, slide) =
      let n = ncmds mem header in
      let p = header + header_size in
      let last = text_pass-last_text mem n p none ∙ or_else-none (last_text mem n p) in
      elim (Bool-cases (header == 0)) [
        | inl null ↦ rw null refl
        | inr there ↦ rw there (
            build_with-adds_at fh mem header slide k (text_pass mem n p none)
            ∙ ap (λ o. based_at k slide o && commands_unwind mem n p) last)
      ]

  pub has_image-any_unwinds_at :
      (laws : ModuleLaws fh) (k : ℕ) (l : List (ℕ × ℕ))
      → has_image laws mem k l ≡ any_unwinds_at mem k l
  has_image-any_unwinds_at laws k [] = refl
  has_image-any_unwinds_at laws k (i ∷ l) =
      rw (adds_at-unwinds_at laws k i, has_image-any_unwinds_at laws k l) refl
