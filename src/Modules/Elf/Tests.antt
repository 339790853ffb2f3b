-- ===== src/Modules/Elf/Tests.antt =====
-- modules/elf.rs: the theorems at two loaded objects.
use framehopunwind.Base.{
  ℕ, ◌%◌, ◌^◌, ◌≡◌, inr, refl, none, some, List, [], ◌∷◌, ◌++◌, get, wrapping_add, wrapping_sub,
  arith,
}
use framehopunwind.Fixture.{toy, toy-ModuleLaws}
use framehopunwind.Publish.{current_unw, with_writer}
use framehopunwind.Modules.Registry.{Tracker, initial_tracker}
use framehopunwind.Modules.Published.{published_at}
use framehopunwind.Modules.Refresh.{
  refresh_elf, same_counts, apply_enum, remove_static, add_all, remove_all,
}
use framehopunwind.Modules.Elf.Decode.{
  first_bytes, decode_value, decode_eh_frame_start, decode_eh_frame_start_pcrel, le_bytes4,
}
use framehopunwind.Modules.Elf.{
  ObjectInfo, Loader, enumerate, spec_of, spec_decoded, spec_at, containing_segment_end,
  build_module, build_all, iterate, callback, geometry, add_segment, pt_load, pt_gnu_eh_frame,
}

decode_eh_frame_start_pcrel_example :
    decode_eh_frame_start 0x2000 (
      1
      ∷ 0x1b
      ∷ 3
      ∷ 0x3b
      ∷ (le_bytes4 (wrapping_sub 0x1800 (wrapping_add 0x2000 4) % 2 ^ 32) ++ []))
    ≡ some 0x1800
decode_eh_frame_start_pcrel_example =
    decode_eh_frame_start_pcrel 0x2000 0x1800 3 0x3b [] (omega arith) (inr (omega arith))

-- An object with one segment of 0x3000 bytes and the header of its unwind information in it.
abbrev object : ℕ → ObjectInfo
object bias = record {
  dlpi_addr = bias;
  dlpi_phdr =
      record { p_type = pt_load; p_flags = 5; p_vaddr = 0; p_memsz = 0x3000 }
      ∷ record { p_type = pt_gnu_eh_frame; p_flags = 4; p_vaddr = 0x2000; p_memsz = 12 }
      ∷ [];
  dlpi_name = none;
}

-- The `.eh_frame` section is 0x800 bytes before the header, in every object.
abbrev loader : Loader
loader = record {
  bytes_at = λ ptr len. 1 ∷ 0x1b ∷ 3 ∷ 0x3b ∷ 0xfc ∷ 0xf7 ∷ 0xff ∷ 0xff ∷ [];
  hasher = λ fed. 7;
  to_string_lossy = λ l. l;
}

abbrev objects : List ObjectInfo
objects = object 0x10000 ∷ object 0x20000 ∷ []

abbrev before : Tracker toy
before = initial_tracker toy

-- Both objects have their module published.
published_objects :
    published_at toy-ModuleLaws
      (refresh_elf (some (2, 0)) (enumerate toy loader [] objects) before)
      0x20000
    ≡ 1
unfolding refresh_elf same_counts enumerate iterate callback geometry add_segment apply_enum
    toy-ModuleLaws current_unw build_all get spec_of spec_decoded decode_eh_frame_start decode_value
    first_bytes spec_at containing_segment_end with_writer remove_static add_all build_module
    remove_all
published_objects = refl
