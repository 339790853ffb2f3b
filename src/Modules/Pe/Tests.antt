-- ===== src/Modules/Pe/Tests.antt =====
-- modules/pe.rs: the theorems at an image of one section.
use framehopunwind.Base.{
  ℕ, ◌<◌, ◌≡◌, refl, true, Option, none, some, is_some, List, [], ◌∷◌, ◌==◌, if◌then◌else◌, arith,
}
use framehopunwind.Framehop.{mapped}
use framehopunwind.Fixture.{toy}
use framehopunwind.Modules.Registry.{Tracker, initial_tracker}
use framehopunwind.Modules.Pe.Image.{
  PeBackend, PeSectionInfo, section_table, pe_sections, section_svma_range, section_data,
  find_section, section_name_eq, section_at, read_u16, read_u32, pdata_name, pe_timestamp,
}
use framehopunwind.Modules.Pe.{Windows, list_modules}
use framehopunwind.Modules.Pe.Listing.{list_modules-done}
use framehopunwind.Modules.Pe.Sections.{
  Given, pe_sections-Given, FirstNamed, read_at, find_section_lem,
}

-- An image at 0x10000: its headers at 0x40, and one section, `.pdata`, of 16 bytes at 0x100.
abbrev image : ℕ → ℕ
image a =
    if a == 0x10000
    then 0x4d
    else if a == 0x10001
    then 0x5a
    else if a == 0x1003c
    then 0x40
    else if a == 0x10040
    then 0x50
    else if a == 0x10041
    then 0x45
    else if a == 0x10046
    then 1
    else if a == 0x10048
    then 77
    else if a == 0x10058
    then b'.'
    else if a == 0x10059
    then b'p'
    else if a == 0x1005a
    then b'd'
    else if a == 0x1005b
    then b'a'
    else if a == 0x1005c
    then b't'
    else if a == 0x1005d
    then b'a'
    else if a == 0x10060
    then 16
    else if a == 0x10065
    then 1
    else 0

abbrev image_info : PeSectionInfo
image_info = record {
  base_svma = 0x10000;
  pdata = some (0x100, mapped 0x10100 16);
  xdata = none;
  rdata = none;
  text = none;
}

image_sections : pe_sections image 0x10000 0x1000 (section_table image 0x10000) ≡ some image_info
unfolding pe_sections section_table find_section section_at section_name_eq read_u16 read_u32
image_sections = refl

image_timestamp : pe_timestamp image 0x10000 ≡ 77
unfolding pe_timestamp
image_timestamp = refl

pe_sections-Given_example :
    let (bytes, after) = section_data pdata_name image_info in
    Given 0x10000 0x1000 (section_svma_range pdata_name image_info) bytes
    × ((section_data pdata_name after).0 ≡ none)
    × (is_some image_info.pdata ≡ true)
pe_sections-Given_example =
    pe_sections-Given image 0x10000 0x1000 image_info pdata_name (omega arith) image_sections

find_section_lem_example :
    (o : Option ℕ) × FirstNamed image 0x10000 pdata_name 1 0x58 o
    × (find_section image 0x10000 0x1000 pdata_name 1 0x58 ≡ read_at image 0x10000 0x1000 o)
find_section_lem_example = find_section_lem image 0x10000 0x1000 pdata_name 1 0x58 refl

abbrev pe : PeBackend toy
pe = record { new_module = λ name range base info. range.0 }

-- One more module is loaded between the first attempt and the second.
abbrev lists : ℕ → List ℕ
lists attempt = if attempt == 0 then 1 ∷ [] else 1 ∷ 2 ∷ []

abbrev windows : Windows
windows = record {
  process_modules = λ attempt. some (lists attempt);
  pin = λ h. if h == 1 then some 0x10000 else none;
  information = λ p. some (p, 0x1000);
  mem = image;
  hasher = λ fed. 7;
}

list_modules-done_example : (k : ℕ) × (k < 8) × (list_modules windows 8 0 0 ≡ some (lists k))
list_modules-done_example =
    list_modules-done windows lists 0 8 0 0 (λ k. refl) (omega arith) (omega arith) (omega arith)
      (λ e. omega (arith, e))

abbrev before : Tracker toy
before = initial_tracker toy
