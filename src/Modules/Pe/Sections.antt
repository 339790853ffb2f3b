-- ===== src/Modules/Pe/Sections.antt =====
-- modules/pe.rs: which sections framehop is given, and what of them.
use framehopunwind.Base.{
  ℕ, zero, suc, ◌+◌, ◌≤◌, ◌<◌, ◌^◌, ◌≡◌, read_bytes, c_string, no_nul, field_eq, field_eq-c_string,
  inl, inr, refl, sym, subst, Bool, true, false, Option, none, some, is_some, map_option, List,
  ◌==◌, if◌then◌else◌, Bool-cases, arith, saturating_sub, min,
}
use framehopunwind.Framehop.{Bytes, owned, mapped}
use framehopunwind.Modules.Pe.Image.{
  PeSectionInfo, section_at, find_section, section_table, pe_sections, pe_info, slot_of, take_slot,
  section_svma_range, section_data, pdata_name, xdata_name, rdata_name, text_name, list_eq,
  svma_range_of, data_of, read_u32, section_header_size, section_name_eq,
}

-- A section of the image at `base` of `size` bytes, read in place and not beyond the image.
abbrev pub Inside : ℕ → ℕ → Option (ℕ × Bytes) → Type 0
Inside base size none = Unit
Inside base size (some (rva, owned bytes)) = ⊥
Inside base size (some (rva, mapped address len)) =
    (address ≡ base + rva) × (0 < len) × (rva + len ≤ size)

Inside-if :
    (b : Bool) (base size : ℕ) (x y : Option (ℕ × Bytes))
    → (b ≡ true → Inside base size x)
    → (b ≡ false → Inside base size y)
    → Inside base size (if b then x else y)
Inside-if true base size x y f g = f refl
Inside-if false base size x y f g = g refl

section_at-Inside :
    (mem : ℕ → ℕ) (base size sh : ℕ) → Inside base size (section_at mem base size sh)
unfolding section_at
section_at-Inside mem base size sh =
    let virtual_size = read_u32 mem (base + (sh + 8)) in
    let rva = read_u32 mem (base + (sh + 12)) in
    let len = min virtual_size (saturating_sub size rva) in
    Inside-if (len == 0) base size none (some (rva, mapped (base + rva) len)) (λ e. tt)
      (λ e. (refl, ground (arith, e), ground (arith, e)))

find_section-Inside :
    (mem : ℕ → ℕ) (base size : ℕ) (want : List ℕ) (n sh : ℕ)
    → Inside base size (find_section mem base size want n sh)
unfolding find_section
find_section-Inside mem base size want zero sh = tt
find_section-Inside mem base size want (suc n) sh =
    Inside-if (section_name_eq (read_bytes mem (base + sh) 8) want) base size
      (section_at mem base size sh) _ (λ e. section_at-Inside mem base size sh)
      (λ e. find_section-Inside mem base size want n (sh + section_header_size))

-- All four sections of an image are inside it.
abbrev pub AllInside : ℕ → PeSectionInfo → Type 0
AllInside size info =
    Inside info.base_svma size info.pdata
    × Inside info.base_svma size info.xdata
    × Inside info.base_svma size info.rdata
    × Inside info.base_svma size info.text

-- What framehop is given for one name: a range and the bytes in it, or neither.
abbrev pub Given : ℕ → ℕ → Option (ℕ × ℕ) → Option Bytes → Type 0
Given base size none none = Unit
Given base size (some (lo, hi)) (some (mapped address len)) =
    (lo ≡ address) × (hi ≡ address + len) × (0 < len) × (base ≤ lo) × (hi ≤ base + size)
Given base size _ _ = ⊥

slot_of-Given :
    (base size : ℕ) (o : Option (ℕ × Bytes))
    → base + size < 2 ^ 64
    → Inside base size o
    → Given base size (svma_range_of base (some o)) (data_of (some o))
slot_of-Given base size none fits inside = tt
slot_of-Given base size (some (rva, owned bytes)) fits inside = absurd inside
slot_of-Given base size (some (rva, mapped address len)) fits (at, some_bytes, inside) = (
  omega (arith, fits, at, inside),
  omega (arith, fits, at, inside),
  some_bytes,
  omega (arith, fits, inside),
  omega (arith, fits, inside),
)

named-Given :
    (b : Bool) (base size : ℕ) (x y : Option (Option (ℕ × Bytes)))
    → Given base size (svma_range_of base x) (data_of x)
    → Given base size (svma_range_of base y) (data_of y)
    → let z = if b then x else y in Given base size (svma_range_of base z) (data_of z)
named-Given true base size x y f g = f
named-Given false base size x y f g = g

sections-Given :
    (size : ℕ) (name : List ℕ) (info : PeSectionInfo)
    → info.base_svma + size < 2 ^ 64
    → AllInside size info
    → Given info.base_svma size (section_svma_range name info) (section_data name info).0
unfolding section_svma_range section_data slot_of
sections-Given size name info fits (p, x, r, t) =
    let base = info.base_svma in
    named-Given (list_eq name pdata_name) base size (some info.pdata) _
      (slot_of-Given base size info.pdata fits p)
      (named-Given (list_eq name xdata_name) base size (some info.xdata) _
        (slot_of-Given base size info.xdata fits x)
        (named-Given (list_eq name rdata_name) base size (some info.rdata) _
          (slot_of-Given base size info.rdata fits r)
          (named-Given (list_eq name text_name) base size (some info.text) none
            (slot_of-Given base size info.text fits t) tt)))

-- The bytes of a section are given once.
section_data-once :
    (name : List ℕ) (info : PeSectionInfo) → (section_data name (section_data name info).1).0 ≡ none
unfolding section_data slot_of take_slot
section_data-once name info = elim (Bool-cases (list_eq name pdata_name)) [
  | inl e ↦ rw e refl
  | inr e1 ↦ elim (Bool-cases (list_eq name xdata_name)) [
    | inl e ↦ rw (e1, e) refl
    | inr e2 ↦ elim (Bool-cases (list_eq name rdata_name)) [
      | inl e ↦ rw (e1, e2, e) refl
      | inr e3 ↦ elim (Bool-cases (list_eq name text_name)) [
        | inl e ↦ rw (e1, e2, e3, e) refl
        | inr e ↦ rw (e1, e2, e3, e) refl
      ]
    ]
  ]
]

-- What holds of the sections of an image at `base` of `size` bytes, if they are found.
abbrev Found : ℕ → ℕ → Option PeSectionInfo → Type 0
Found base size none = Unit
Found base size (some info) =
    AllInside size info × (info.base_svma ≡ base) × (is_some info.pdata ≡ true)

Found-map :
    (mem : ℕ → ℕ) (base size n sh : ℕ) (o : Option (ℕ × Bytes))
    → Inside base size o
    → Found base size (map_option (pe_info mem base size n sh) o)
Found-map mem base size n sh none inside = tt
Found-map mem base size n sh (some s) inside = (
  (
    inside,
    find_section-Inside mem base size xdata_name n sh,
    find_section-Inside mem base size rdata_name n sh,
    find_section-Inside mem base size text_name n sh,
  ),
  refl,
  refl,
)

pe_sections-Found :
    (mem : ℕ → ℕ) (base size : ℕ) (table : Option (ℕ × ℕ))
    → Found base size (pe_sections mem base size table)
unfolding pe_sections
pe_sections-Found mem base size none = tt
pe_sections-Found mem base size (some (n, sh)) =
    Found-map mem base size n sh _ (find_section-Inside mem base size pdata_name n sh)

-- The section information of an image whose addresses do not wrap has unwind data, and answers for
-- every name either nothing, or a range that is not empty and inside the image, and the bytes in
-- memory at just that range; asked for the bytes again, it has none.
pub pe_sections-Given :
    (mem : ℕ → ℕ) (base size : ℕ) (info : PeSectionInfo) (name : List ℕ)
    → base + size < 2 ^ 64
    → pe_sections mem base size (section_table mem base) ≡ some info
    → let (bytes, after) = section_data name info in
      Given base size (section_svma_range name info) bytes
      × ((section_data name after).0 ≡ none)
      × (is_some info.pdata ≡ true)
pe_sections-Given mem base size info name fits found =
    let (inside, at, unwind) =
      subst (Found base size) found (pe_sections-Found mem base size (section_table mem base)) in
    (
      subst (λ b. Given b size (section_svma_range name info) (section_data name info).0) at
          (sections-Given size name info (omega (arith, fits, at)) inside),
      section_data-once name info,
      unwind,
    )

-- The name of the section whose header is at `sh`, up to its NUL.
abbrev pub name_at : (ℕ → ℕ) → ℕ → ℕ → List ℕ
name_at mem base sh = c_string (read_bytes mem (base + sh) 8)

-- The first header of `n` with the name, if there is one.
pub data FirstNamed (mem : ℕ → ℕ) (base : ℕ) (want : List ℕ) : ℕ → ℕ → Option ℕ → Type 0 where
  no_header : {sh : ℕ} → FirstNamed mem base want zero sh none
  this_header :
      {n sh : ℕ} → name_at mem base sh ≡ want → FirstNamed mem base want (suc n) sh (some sh)
  later_header :
      {n sh : ℕ} {o : Option ℕ}
      → ¬ (name_at mem base sh ≡ want)
      → FirstNamed mem base want n (sh + section_header_size) o
      → FirstNamed mem base want (suc n) sh o

abbrev pub read_at : (ℕ → ℕ) → ℕ → ℕ → Option ℕ → Option (ℕ × Bytes)
read_at mem base size none = none
read_at mem base size (some sh) = section_at mem base size sh

-- The search finds the first header whose name, up to its NUL or the field's end, is the one sought,
-- and reads the section there.
pub find_section_lem :
    (mem : ℕ → ℕ) (base size : ℕ) (want : List ℕ) (n sh : ℕ)
    → no_nul want ≡ true
    → (o : Option ℕ) × FirstNamed mem base want n sh o
      × (find_section mem base size want n sh ≡ read_at mem base size o)
unfolding find_section section_name_eq
find_section_lem mem base size want zero sh pure = (none, no_header, refl)
find_section_lem mem base size want (suc n) sh pure =
    let field = read_bytes mem (base + sh) 8 in
    let rest = find_section mem base size want n (sh + section_header_size) in
    let (o, first, is) = find_section_lem mem base size want n (sh + section_header_size) pure in
    let (is_name, is_equal) = field_eq-c_string field want pure in
    elim (Bool-cases (field_eq 8 field want)) [
      | inl e ↦ (
        some sh,
        this_header (is_name e),
        subst (λ b. (if b then section_at mem base size sh else rest) ≡ section_at mem base size sh)
            (sym e) refl,
      )
      | inr e ↦ (
        o,
        later_header (λ h. absurd (ground (arith, e, is_equal h))) first,
        subst (λ b. (if b then section_at mem base size sh else rest) ≡ read_at mem base size o)
            (sym e) is,
      )
    ]
