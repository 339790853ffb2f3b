-- ===== src/Modules/Elf.antt =====
-- modules/elf.rs: the scan of the objects that the dynamic loader lists. Sums of addresses wrap, as
-- they do in a release build.
pub mod Decode
pub mod Collect
pub mod Scan
pub mod Segments
mod Tests
use framehopunwind.Base.{
  ℕ, ◌+◌, ◌%◌, Bool, true, false, not, ◌&&◌, ◌||◌, Option, none, some, is_some, List, [], ◌∷◌, ◌++◌,
  HashMap, get, insert, ltb, leb, ◌==◌, if◌then◌else◌, u64_max, wrapping_add, wrapping_sub,
}
use framehopunwind.Framehop.{Framehop, SectionInfo, default_info, Bytes, mapped}
use framehopunwind.Modules.Refresh.{EnumResult, Fed, fingerprint_of, is_known}
use framehopunwind.Modules.Elf.Decode.{decode_eh_frame_start}

-- `PT_LOAD`, `PT_GNU_EH_FRAME` and `PF_X`, which is the lowest bit.
abbrev pub pt_load : ℕ
pt_load = 1

abbrev pub pt_gnu_eh_frame : ℕ
pt_gnu_eh_frame = 0x6474e550

-- `Elf64_Phdr` and `dl_phdr_info`: the fields read. Without program headers the list is empty.
pub record Phdr : Type 0 where
  pub p_type : ℕ
  pub p_flags : ℕ
  pub p_vaddr : ℕ
  pub p_memsz : ℕ

pub record ObjectInfo : Type 0 where
  pub dlpi_addr : ℕ
  pub dlpi_phdr : List Phdr
  pub dlpi_name : Option (List ℕ)

-- Memory, the standard library's hasher, and `to_string_lossy`.
pub record Loader : Type 0 where
  pub bytes_at : ℕ → ℕ → List ℕ
  pub hasher : List Fed → ℕ
  pub to_string_lossy : List ℕ → List ℕ

pub record RawSpec : Type 0 where
  pub key : ℕ
  pub name : List ℕ
  pub base_avma : ℕ
  pub avma : ℕ × ℕ
  pub eh_frame_hdr : Bytes
  pub eh_frame_hdr_svma : ℕ × ℕ
  pub eh_frame : Bytes
  pub eh_frame_svma : ℕ × ℕ
  pub text_svma : Option (ℕ × ℕ)

pub record Collector : Type 0 where
  pub current : HashMap ℕ
  pub specs : List RawSpec

-- The variables of the loop over the program headers.
pub record Geometry : Type 0 where
  pub avma_lo : ℕ
  pub avma_hi : ℕ
  pub text_svma : Option (ℕ × ℕ)
  pub hdr_phdr : Option Phdr

abbrev pub no_geometry : Geometry
no_geometry = record { avma_lo = u64_max; avma_hi = 0; text_svma = none; hdr_phdr = none }

unfoldable pub add_segment : ℕ → Phdr → Geometry → Geometry
add_segment bias ph g =
    let lo = wrapping_add bias ph.p_vaddr in
    let hi = wrapping_add lo ph.p_memsz in
    record g {
      avma_lo = if ltb lo g.avma_lo then lo else g.avma_lo;
      avma_hi = if ltb g.avma_hi hi then hi else g.avma_hi;
      text_svma =
          if (ph.p_flags % 2 == 1) && not (is_some g.text_svma)
          then some (ph.p_vaddr, wrapping_add ph.p_vaddr ph.p_memsz)
          else g.text_svma;
    }

unfoldable pub geometry : ℕ → List Phdr → Geometry → Geometry
geometry bias [] g = g
geometry bias (ph ∷ l) g = geometry bias l (
    if ph.p_type == pt_load
    then add_segment bias ph g
    else if ph.p_type == pt_gnu_eh_frame
    then record g { hdr_phdr = some ph }
    else g)

unfoldable pub containing_segment_end : List Phdr → ℕ → ℕ → Option ℕ
containing_segment_end [] bias addr = none
containing_segment_end (ph ∷ l) bias addr =
    let rest = containing_segment_end l bias addr in
    let lo = wrapping_add bias ph.p_vaddr in
    let hi = wrapping_add lo ph.p_memsz in
    if not (ph.p_type == pt_load)
    then rest
    else if leb lo addr && ltb addr hi
    then some hi
    else rest

-- `Range { start, end }` of an address less the bias, and a length.
abbrev svma_range : ℕ → ℕ → ℕ → ℕ × ℕ
svma_range bias avma len = (wrapping_sub avma bias, wrapping_add (wrapping_sub avma bias) len)

abbrev pub name_bytes : Option (List ℕ) → List ℕ
name_bytes none = []
name_bytes (some l) = l

abbrev main_name : List ℕ
main_name = 60 ∷ 109 ∷ 97 ∷ 105 ∷ 110 ∷ 62 ∷ []

unfoldable pub object_name : Loader → List ℕ → List ℕ
object_name loader [] = main_name
object_name loader (c ∷ l) = loader.to_string_lossy (c ∷ l)

abbrev pub hdr_fields : Option Phdr → ℕ × ℕ
hdr_fields none = (0, 0)
hdr_fields (some p) = (p.p_vaddr, p.p_memsz)

abbrev pub make_spec : Loader → ObjectInfo → Geometry → Phdr → ℕ → ℕ → RawSpec
make_spec loader info g hdr eh_frame_avma eh_frame_end =
    let bias = info.dlpi_addr in
    let hdr_avma = wrapping_add bias hdr.p_vaddr in
    let eh_frame_len = wrapping_sub eh_frame_end eh_frame_avma in
    record {
      key = g.avma_lo;
      name = object_name loader (name_bytes info.dlpi_name);
      base_avma = bias;
      avma = (g.avma_lo, g.avma_hi);
      eh_frame_hdr = mapped hdr_avma hdr.p_memsz;
      eh_frame_hdr_svma = svma_range bias hdr_avma hdr.p_memsz;
      eh_frame = mapped eh_frame_avma eh_frame_len;
      eh_frame_svma = svma_range bias eh_frame_avma eh_frame_len;
      text_svma = g.text_svma;
    }

-- `Some(e) if e > eh_frame_avma`
unfoldable pub spec_at : Loader → ObjectInfo → Geometry → Phdr → ℕ → Option ℕ → Option RawSpec
spec_at loader info g hdr eh_frame_avma none = none
spec_at loader info g hdr eh_frame_avma (some e) =
    if ltb eh_frame_avma e then some (make_spec loader info g hdr eh_frame_avma e) else none

unfoldable pub spec_decoded : Loader → ObjectInfo → Geometry → Phdr → Option ℕ → Option RawSpec
spec_decoded loader info g hdr none = none
spec_decoded loader info g hdr (some eh_frame_avma) =
    spec_at loader info g hdr eh_frame_avma
      (containing_segment_end info.dlpi_phdr info.dlpi_addr eh_frame_avma)

-- The second half of `callback`: what it pushes, if anything.
unfoldable pub spec_of : Loader → ObjectInfo → Geometry → Option Phdr → Option RawSpec
spec_of loader info g none = none
spec_of loader info g (some hdr) =
    let hdr_avma = wrapping_add info.dlpi_addr hdr.p_vaddr in
    if ltb hdr.p_memsz 4
    then none
    else spec_decoded loader info g hdr
        (decode_eh_frame_start hdr_avma (loader.bytes_at hdr_avma hdr.p_memsz))

abbrev pub push_spec : Option RawSpec → List RawSpec → List RawSpec
push_spec none specs = specs
push_spec (some s) specs = specs ++ (s ∷ [])

abbrev pub object_geometry : ObjectInfo → Geometry
object_geometry info = geometry info.dlpi_addr info.dlpi_phdr no_geometry

abbrev pub loadable : Geometry → Bool
loadable g = not (g.avma_lo == u64_max || leb g.avma_hi g.avma_lo)

abbrev pub object_fingerprint : Loader → ObjectInfo → Geometry → ℕ
object_fingerprint loader info g =
    fingerprint_of loader.hasher
      ((hdr_fields g.hdr_phdr).0
        ∷ (hdr_fields g.hdr_phdr).1
        ∷ wrapping_sub g.avma_hi g.avma_lo
        ∷ [])
      (name_bytes info.dlpi_name)

-- Without program headers nothing is loadable, so the first test of `callback` is the second's case.
unfoldable pub callback : Loader → HashMap ℕ → ObjectInfo → Collector → Collector
callback loader known info c =
    let g = object_geometry info in
    let fp = object_fingerprint loader info g in
    if not (loadable g) then c else record {
      current = insert g.avma_lo fp c.current;
      specs =
          if is_known (get g.avma_lo known) fp
          then c.specs
          else push_spec (spec_of loader info g g.hdr_phdr) c.specs;
    }

-- `dl_iterate_phdr` calls back for each object.
unfoldable pub iterate : Loader → HashMap ℕ → List ObjectInfo → Collector → Collector
iterate loader known [] c = c
iterate loader known (info ∷ l) c = iterate loader known l (callback loader known info c)

module _ (fh : Framehop) where
  unfoldable pub build_module : RawSpec → fh.Module
  build_module s = fh.new_module s.name s.avma s.base_avma (record default_info {
    text_svma = s.text_svma;
    eh_frame_hdr = some s.eh_frame_hdr;
    eh_frame_hdr_svma = some s.eh_frame_hdr_svma;
    eh_frame = some s.eh_frame;
    eh_frame_svma = some s.eh_frame_svma;
  })

  unfoldable pub build_all : List RawSpec → List (ℕ × fh.Module)
  build_all [] = []
  build_all (s ∷ l) = (s.key, build_module s) ∷ build_all l

  abbrev pub enum_result : Collector → EnumResult fh
  enum_result c = record { current = c.current; new_modules = build_all c.specs }

  unfoldable pub enumerate : Loader → HashMap ℕ → List ObjectInfo → EnumResult fh
  enumerate loader known infos =
      enum_result (iterate loader known infos (record { current = []; specs = [] }))
