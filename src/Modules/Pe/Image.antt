-- ===== src/Modules/Pe/Image.antt =====
-- modules/pe.rs: a PE image in memory, and the sections that framehop asks for.
use framehopunwind.Base.{
  lower_hex, ◌++◌, ℕ, zero, suc, ◌+◌, min, Bool, true, false, not, Option, none, some, map_option,
  List, [], ◌∷◌, length, ◌==◌, if◌then◌else◌, field_eq, from_le_bytes, read_bytes, saturating_sub,
  wrapping_add, ◌≡◌,
}
use framehopunwind.Framehop.{Framehop, ModuleLaws, Bytes, owned, mapped}

abbrev pub section_header_size : ℕ
section_header_size = 40

unfoldable pub read_u16 : (ℕ → ℕ) → ℕ → ℕ
read_u16 mem a = from_le_bytes (read_bytes mem a 2)

unfoldable pub read_u32 : (ℕ → ℕ) → ℕ → ℕ
read_u32 mem a = from_le_bytes (read_bytes mem a 4)

unfoldable pub section_name_eq : List ℕ → List ℕ → Bool
unfolding field_eq
section_name_eq field name = field_eq 8 field name

-- `b".pdata"` and the others.
abbrev pub pdata_name : List ℕ
pdata_name = b'.' ∷ b'p' ∷ b'd' ∷ b'a' ∷ b't' ∷ b'a' ∷ []

abbrev pub xdata_name : List ℕ
xdata_name = b'.' ∷ b'x' ∷ b'd' ∷ b'a' ∷ b't' ∷ b'a' ∷ []

abbrev pub rdata_name : List ℕ
rdata_name = b'.' ∷ b'r' ∷ b'd' ∷ b'a' ∷ b't' ∷ b'a' ∷ []

abbrev pub text_name : List ℕ
text_name = b'.' ∷ b't' ∷ b'e' ∷ b'x' ∷ b't' ∷ []

-- `pe_timestamp`
unfoldable pub pe_timestamp : (ℕ → ℕ) → ℕ → ℕ
unfolding read_u16 read_u32
pe_timestamp mem base =
    if not (read_u16 mem base == 0x5a4d)
    then 0
    else let e_lfanew = read_u32 mem (base + 0x3c) in
      if not (read_u32 mem (base + e_lfanew) == 0x4550)
      then 0
      else read_u32 mem (base + (e_lfanew + 4 + 4))

-- The section of a header that has the name: its relative address, and its bytes, clamped to the
-- image of `size` bytes.
unfoldable pub section_at : (ℕ → ℕ) → ℕ → ℕ → ℕ → Option (ℕ × Bytes)
section_at mem base size sh_off =
    let virtual_size = read_u32 mem (base + (sh_off + 8)) in
    let rva = read_u32 mem (base + (sh_off + 12)) in
    let len = min virtual_size (saturating_sub size rva) in
    if len == 0 then none else some (rva, mapped (base + rva) len)

-- The closure `sec`, over `n` headers from `sh_off` on.
unfoldable pub find_section : (ℕ → ℕ) → ℕ → ℕ → List ℕ → ℕ → ℕ → Option (ℕ × Bytes)
unfolding section_at section_name_eq
find_section mem base size want zero sh_off = none
find_section mem base size want (suc n) sh_off =
    let rest = find_section mem base size want n (sh_off + section_header_size) in
    if section_name_eq (read_bytes mem (base + sh_off) 8) want
    then section_at mem base size sh_off
    else rest

pub record PeSectionInfo : Type 0 where
  pub base_svma : ℕ
  pub pdata : Option (ℕ × Bytes)
  pub xdata : Option (ℕ × Bytes)
  pub rdata : Option (ℕ × Bytes)
  pub text : Option (ℕ × Bytes)

abbrev pub list_eq : List ℕ → List ℕ → Bool
list_eq [] [] = true
list_eq (a ∷ l) (b ∷ m) = if a == b then list_eq l m else false
list_eq _ _ = false

-- `slot`, read: `none` for a name that is not one of the four.
unfoldable pub slot_of : List ℕ → PeSectionInfo → Option (Option (ℕ × Bytes))
slot_of name info =
    if list_eq name pdata_name
    then some info.pdata
    else if list_eq name xdata_name
    then some info.xdata
    else if list_eq name rdata_name
    then some info.rdata
    else if list_eq name text_name
    then some info.text
    else none

-- `slot.take()`
unfoldable pub take_slot : List ℕ → PeSectionInfo → PeSectionInfo
take_slot name info =
    if list_eq name pdata_name
    then record info { pdata = none }
    else if list_eq name xdata_name
    then record info { xdata = none }
    else if list_eq name rdata_name
    then record info { rdata = none }
    else if list_eq name text_name
    then record info { text = none }
    else info

abbrev pub bytes_len : Bytes → ℕ
bytes_len (owned bytes) = length bytes
bytes_len (mapped address len) = len

abbrev pub svma_range_of : ℕ → Option (Option (ℕ × Bytes)) → Option (ℕ × ℕ)
svma_range_of base none = none
svma_range_of base (some none) = none
svma_range_of base (some (some (rva, bytes))) =
    some (wrapping_add base rva, wrapping_add (wrapping_add base rva) (bytes_len bytes))

unfoldable pub section_svma_range : List ℕ → PeSectionInfo → Option (ℕ × ℕ)
unfolding slot_of
section_svma_range name info = svma_range_of info.base_svma (slot_of name info)

abbrev pub data_of : Option (Option (ℕ × Bytes)) → Option Bytes
data_of none = none
data_of (some none) = none
data_of (some (some (rva, bytes))) = some bytes

-- The bytes, and the info that is left.
unfoldable pub section_data : List ℕ → PeSectionInfo → Option Bytes × PeSectionInfo
unfolding slot_of take_slot
section_data name info = (data_of (slot_of name info), take_slot name info)

-- `format!("<pe:{base:#x}>")`
unfoldable pub pe_name : ℕ → List ℕ
unfolding lower_hex
pe_name base = b'<' ∷ b'p' ∷ b'e' ∷ b':' ∷ (lower_hex base ++ (b'>' ∷ []))

-- What `Module::new` makes of this kind of section info.
pub record PeBackend (fh : Framehop) : Type 0 where
  pub new_module : List ℕ → ℕ × ℕ → ℕ → PeSectionInfo → fh.Module

-- As for the other kind of section info: a module starts where its address range does.
pub record PeLaws {fh : Framehop} (laws : ModuleLaws fh) (pe : PeBackend fh) : Type 0 where
  pub start-new_module :
      (name : List ℕ) (lo hi base : ℕ) (info : PeSectionInfo)
      → laws.start (pe.new_module name (lo, hi) base info) ≡ lo

abbrev pub pe_info : (ℕ → ℕ) → ℕ → ℕ → ℕ → ℕ → ℕ × Bytes → PeSectionInfo
pe_info mem base size n table pdata = record {
  base_svma = base;
  pdata = some pdata;
  xdata = find_section mem base size xdata_name n table;
  rdata = find_section mem base size rdata_name n table;
  text = find_section mem base size text_name n table;
}

-- The section table of an image whose headers validate: the number of headers, and its offset.
unfoldable pub section_table : (ℕ → ℕ) → ℕ → Option (ℕ × ℕ)
unfolding read_u16 read_u32
section_table mem base =
    if not (read_u16 mem base == 0x5a4d)
    then none
    else let e_lfanew = read_u32 mem (base + 0x3c) in
      if not (read_u32 mem (base + e_lfanew) == 0x4550)
      then none
      else let file_header = e_lfanew + 4 in
        some (
          read_u16 mem (base + (file_header + 2)),
          file_header + 20 + read_u16 mem (base + (file_header + 16)),
        )

-- `None` without `.pdata`.
unfoldable pub pe_sections : (ℕ → ℕ) → ℕ → ℕ → Option (ℕ × ℕ) → Option PeSectionInfo
unfolding find_section
pe_sections mem base size none = none
pe_sections mem base size (some (n, table)) =
    map_option (pe_info mem base size n table) (find_section mem base size pdata_name n table)

module _ {fh : Framehop} (pe : PeBackend fh) where
  unfoldable pub build_pe_module : (ℕ → ℕ) → ℕ → ℕ → Option fh.Module
  unfolding section_table pe_sections
  build_pe_module mem base size =
      map_option (pe.new_module (pe_name base) (base, wrapping_add base size) base)
        (pe_sections mem base size (section_table mem base))
