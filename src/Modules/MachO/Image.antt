-- ===== src/Modules/MachO/Image.antt =====
-- modules/macho.rs: an image in memory, and the module built from it. Memory is read byte by byte;
-- the offsets are those of the C structs.
use framehopunwind.Base.{
  lower_hex, ◌++◌, ℕ, zero, suc, ◌+◌, Bool, not, ◌&&◌, Option, none, some, is_some, map_option,
  List, [], ◌∷◌, ◌==◌, if◌then◌else◌, field_eq, from_le_bytes, read_bytes, wrapping_add,
  rotate_left, bit_xor,
}
use framehopunwind.Framehop.{Framehop, SectionInfo, default_info, Bytes, mapped}

abbrev pub lc_segment_64 : ℕ
lc_segment_64 = 0x19

-- Sizes of `mach_header_64`, `segment_command_64` and `Section64`.
abbrev pub header_size : ℕ
header_size = 32

abbrev pub segment_size : ℕ
segment_size = 72

abbrev pub section_size : ℕ
section_size = 80

abbrev word : (ℕ → ℕ) → ℕ → ℕ → ℕ
word mem n a = from_le_bytes (read_bytes mem a n)

unfoldable pub ncmds : (ℕ → ℕ) → ℕ → ℕ
ncmds mem header = word mem 4 (header + 16)

-- `load_command`
unfoldable pub cmd : (ℕ → ℕ) → ℕ → ℕ
cmd mem p = word mem 4 p

unfoldable pub cmdsize : (ℕ → ℕ) → ℕ → ℕ
cmdsize mem p = word mem 4 (p + 4)

-- `segment_command_64` and `Section64`: the fields read.
pub record Segment : Type 0 where
  pub segname : List ℕ
  pub vmaddr : ℕ
  pub vmsize : ℕ
  pub nsects : ℕ

unfoldable pub segment_at : (ℕ → ℕ) → ℕ → Segment
segment_at mem p = record {
  segname = read_bytes mem (p + 8) 16;
  vmaddr = word mem 8 (p + 24);
  vmsize = word mem 8 (p + 32);
  nsects = word mem 4 (p + 64);
}

pub record Section64 : Type 0 where
  pub sectname : List ℕ
  pub addr : ℕ
  pub size : ℕ

unfoldable pub section_64_at : (ℕ → ℕ) → ℕ → Section64
section_64_at mem p = record {
  sectname = read_bytes mem p 16;
  addr = word mem 8 (p + 32);
  size = word mem 8 (p + 40);
}

-- `name_eq`
unfoldable pub name_eq : List ℕ → List ℕ → Bool
unfolding field_eq
name_eq field name = field_eq 16 field name

abbrev pub text_segment_name : List ℕ
text_segment_name = b'_' ∷ b'_' ∷ b'T' ∷ b'E' ∷ b'X' ∷ b'T' ∷ []

abbrev pub text_name : List ℕ
text_name = b'_' ∷ b'_' ∷ b't' ∷ b'e' ∷ b'x' ∷ b't' ∷ []

abbrev pub unwind_info_name : List ℕ
unwind_info_name =
    b'_' ∷ b'_' ∷ b'u' ∷ b'n' ∷ b'w' ∷ b'i' ∷ b'n' ∷ b'd' ∷ b'_' ∷ b'i' ∷ b'n' ∷ b'f' ∷ b'o' ∷ []

abbrev pub eh_frame_name : List ℕ
eh_frame_name = b'_' ∷ b'_' ∷ b'e' ∷ b'h' ∷ b'_' ∷ b'f' ∷ b'r' ∷ b'a' ∷ b'm' ∷ b'e' ∷ []

abbrev pub stubs_name : List ℕ
stubs_name = b'_' ∷ b'_' ∷ b's' ∷ b't' ∷ b'u' ∷ b'b' ∷ b's' ∷ []

abbrev pub stub_helper_name : List ℕ
stub_helper_name =
    b'_' ∷ b'_' ∷ b's' ∷ b't' ∷ b'u' ∷ b'b' ∷ b'_' ∷ b'h' ∷ b'e' ∷ b'l' ∷ b'p' ∷ b'e' ∷ b'r' ∷ []

abbrev pub got_name : List ℕ
got_name = b'_' ∷ b'_' ∷ b'g' ∷ b'o' ∷ b't' ∷ []

-- Whether the load command at `p` is of the segment `__TEXT`.
unfoldable pub is_text : (ℕ → ℕ) → ℕ → Bool
unfolding cmd segment_at name_eq
is_text mem p = (cmd mem p == lc_segment_64) && name_eq (segment_at mem p).segname text_segment_name

-- The loop of `image_key`, over `n` load commands from `p` on.
unfoldable pub first_text : (ℕ → ℕ) → ℕ → ℕ → ℕ → Option ℕ
unfolding is_text cmdsize
first_text mem slide zero p = none
first_text mem slide (suc n) p =
    let rest = first_text mem slide n (p + cmdsize mem p) in
    if is_text mem p then some (wrapping_add (segment_at mem p).vmaddr slide) else rest

unfoldable pub image_key : (ℕ → ℕ) → ℕ → ℕ → Option ℕ
unfolding first_text ncmds
image_key mem header slide = first_text mem slide (ncmds mem header) (header + header_size)

-- The first pass of `build_image`: `text_vmaddr` with `text_vmsize`, once the former is set.
unfoldable pub text_pass : (ℕ → ℕ) → ℕ → ℕ → Option (ℕ × ℕ) → Option (ℕ × ℕ)
text_pass mem zero p found = found
text_pass mem (suc n) p found =
    text_pass mem n (p + cmdsize mem p)
      (if is_text mem p then some ((segment_at mem p).vmaddr, (segment_at mem p).vmsize) else found)

-- The variables of the second pass.
pub record ImageSections : Type 0 where
  pub unwind_info : Option Bytes
  pub eh_frame : Option (Bytes × (ℕ × ℕ))
  pub text_segment : Option (Bytes × (ℕ × ℕ))
  pub stubs_svma : Option (ℕ × ℕ)
  pub stub_helper_svma : Option (ℕ × ℕ)
  pub got_svma : Option (ℕ × ℕ)
  pub text_svma : Option (ℕ × ℕ)

abbrev pub no_sections : ImageSections
no_sections = record {
  unwind_info = none;
  eh_frame = none;
  text_segment = none;
  stubs_svma = none;
  stub_helper_svma = none;
  got_svma = none;
  text_svma = none;
}

unfoldable pub add_section : ℕ → Section64 → ImageSections → ImageSections
add_section slide sec s =
    let svma : ℕ × ℕ = (sec.addr, wrapping_add sec.addr sec.size) in
    let bytes = mapped (wrapping_add sec.addr slide) sec.size in
    if name_eq sec.sectname text_name
    then record s { text_svma = some svma }
    else if name_eq sec.sectname unwind_info_name
    then record s { unwind_info = some bytes }
    else if name_eq sec.sectname eh_frame_name
    then record s { eh_frame = some (bytes, svma) }
    else if name_eq sec.sectname stubs_name
    then record s { stubs_svma = some svma }
    else if name_eq sec.sectname stub_helper_name
    then record s { stub_helper_svma = some svma }
    else if name_eq sec.sectname got_name
    then record s { got_svma = some svma }
    else s

-- The loop over `n` sections from `q` on.
unfoldable pub add_sections : (ℕ → ℕ) → ℕ → ℕ → ℕ → ImageSections → ImageSections
unfolding add_section section_64_at
add_sections mem slide zero q s = s
add_sections mem slide (suc n) q s =
    add_sections mem slide n (q + section_size) (add_section slide (section_64_at mem q) s)

unfoldable pub add_text : ℕ → Segment → ImageSections → ImageSections
add_text slide seg s = record s {
  text_segment = some (
    mapped (wrapping_add seg.vmaddr slide) seg.vmsize,
    (seg.vmaddr, wrapping_add seg.vmaddr seg.vmsize),
  );
}

-- The second pass.
unfoldable pub section_pass : (ℕ → ℕ) → ℕ → ℕ → ℕ → ImageSections → ImageSections
unfolding add_sections add_text
section_pass mem slide zero p s = s
section_pass mem slide (suc n) p s =
    let seg = segment_at mem p in
    section_pass mem slide n (p + cmdsize mem p) (
      if cmd mem p == lc_segment_64
      then add_sections mem slide seg.nsects (p + segment_size)
          (if name_eq seg.segname text_segment_name then add_text slide seg s else s)
      else s)

abbrev first_of {ℓ} : {A B : Type ℓ} → Option (A × B) → Option A
first_of o = map_option (λ x. x.0) o

abbrev second_of {ℓ} : {A B : Type ℓ} → Option (A × B) → Option B
second_of o = map_option (λ x. x.1) o

abbrev pub image_info : ℕ → ImageSections → SectionInfo
image_info text_vmaddr s = record default_info {
  base_svma = text_vmaddr;
  text_svma = s.text_svma;
  unwind_info = s.unwind_info;
  eh_frame = first_of s.eh_frame;
  eh_frame_svma = second_of s.eh_frame;
  text_segment = first_of s.text_segment;
  text_segment_svma = second_of s.text_segment;
  stubs_svma = s.stubs_svma;
  stub_helper_svma = s.stub_helper_svma;
  got_svma = s.got_svma;
}

-- `format!("<image:{key:#x}>")`
unfoldable pub image_name : ℕ → List ℕ
unfolding lower_hex
image_name key = b'<' ∷ b'i' ∷ b'm' ∷ b'a' ∷ b'g' ∷ b'e' ∷ b':' ∷ (lower_hex key ++ (b'>' ∷ []))

module _ (fh : Framehop) where
  unfoldable pub built : ℕ → ℕ → ℕ → ImageSections → Option fh.Module
  built text_vmaddr text_vmsize slide s =
      let base_avma = wrapping_add text_vmaddr slide in
      if not (is_some s.unwind_info) && not (is_some s.eh_frame)
      then none
      else some (
          fh.new_module (image_name base_avma) (base_avma, wrapping_add base_avma text_vmsize)
            base_avma (image_info text_vmaddr s))

  unfoldable pub build_with : (ℕ → ℕ) → ℕ → ℕ → Option (ℕ × ℕ) → Option (ℕ × ℕ × Option fh.Module)
  unfolding section_pass built ncmds
  build_with mem header slide none = none
  build_with mem header slide (some (text_vmaddr, text_vmsize)) = some (
    wrapping_add text_vmaddr slide,
    bit_xor text_vmaddr (rotate_left text_vmsize 32),
    built text_vmaddr text_vmsize slide
        (section_pass mem slide (ncmds mem header) (header + header_size) no_sections),
  )

  -- The key, the fingerprint, and the module if there is unwind information.
  unfoldable pub build_image : (ℕ → ℕ) → ℕ → ℕ → Option (ℕ × ℕ × Option fh.Module)
  unfolding build_with text_pass
  build_image mem header slide =
      build_with mem header slide (text_pass mem (ncmds mem header) (header + header_size) none)
