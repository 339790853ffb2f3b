-- ===== src/Modules/MachO/Tests.antt =====
-- modules/macho.rs: the theorems at an image of one segment with one section.
use framehopunwind.Base.{
  ℕ, ◌+◌, ◌≡◌, refl, false, Option, none, some, List, [], ◌∷◌, HashMap, get, contains,
  if◌then◌else◌, arith,
}
use framehopunwind.Framehop.{mapped}
use framehopunwind.Fixture.{toy, toy-ModuleLaws}
use framehopunwind.Modules.Registry.{Tracker, initial_tracker}
use framehopunwind.Modules.Published.{published_at, Tracked, initial_tracker-Tracked}
use framehopunwind.Modules.MachO.Image.{
  image_key, build_image, build_with, built, text_pass, section_pass, add_sections, add_section,
  add_text, section_64_at, segment_at, ncmds, cmd, cmdsize, is_text, name_eq, no_sections,
  header_size,
}
use framehopunwind.Modules.MachO.Keys.{OneText, key_of, texts, image_key-build_image}
use framehopunwind.Modules.MachO.Replay.{ImagesDiffer}
use framehopunwind.Modules.MachO.Unwind.{unwinds_at, any_unwinds_at}
use framehopunwind.Modules.MachO.Laws.{
  init_callbacks-Tracked, on_add_image-Tracked, on_remove_image-on_add_image,
}
use framehopunwind.Modules.MachO.{Callbacks, on_add_image, on_remove_image, init_callbacks}

abbrev bytes : HashMap ℕ
bytes =
    (0x1010, 1)
    ∷ (0x1020, 25)
    ∷ (0x1024, 152)
    ∷ (0x1028, b'_')
    ∷ (0x1029, b'_')
    ∷ (0x102a, b'T')
    ∷ (0x102b, b'E')
    ∷ (0x102c, b'X')
    ∷ (0x102d, b'T')
    ∷ (0x1039, 64)
    ∷ (0x1041, 8)
    ∷ (0x1060, 1)
    ∷ (0x1068, b'_')
    ∷ (0x1069, b'_')
    ∷ (0x106a, b'e')
    ∷ (0x106b, b'h')
    ∷ (0x106c, b'_')
    ∷ (0x106d, b'f')
    ∷ (0x106e, b'r')
    ∷ (0x106f, b'a')
    ∷ (0x1070, b'm')
    ∷ (0x1071, b'e')
    ∷ (0x1089, 68)
    ∷ (0x1091, 1)
    ∷ []

abbrev or_zero : Option ℕ → ℕ
or_zero none = 0
or_zero (some b) = b

-- The header is at 0x1000; the segment `__TEXT` is linked for 0x4000, and its section `__eh_frame`
-- for 0x4400.
unfoldable image : ℕ → ℕ
unfolding get
image a = or_zero (get a bytes)

image_sections :
    section_pass image 0x10000 1 (0x1000 + header_size) no_sections ≡ record no_sections {
      eh_frame = some (mapped 0x14400 0x100, (0x4400, 0x4500));
      text_segment = some (mapped 0x14000 0x800, (0x4000, 0x4800));
    }
unfolding image get section_pass add_sections add_section add_text section_64_at segment_at cmd
    cmdsize name_eq
image_sections = refl

image_built : key_of toy image (build_image toy image 0x1000 0x10000) ≡ some 0x14000
unfolding image get build_image build_with text_pass segment_at ncmds cmd cmdsize is_text name_eq
image_built = refl

image-OneText : OneText image 0x1000
unfolding texts ncmds image get cmd cmdsize is_text segment_at name_eq
image-OneText = omega arith

image_key-build_image_example :
    image_key image 0x1000 0x10000 ≡ key_of toy image (build_image toy image 0x1000 0x10000)
image_key-build_image_example = image_key-build_image toy image 0x1000 0x10000 image-OneText

abbrev before : Tracker toy
before = initial_tracker toy

on_add_image-Tracked_example :
    let after = on_add_image image 0x1000 0x10000 before in
    Tracked toy-ModuleLaws after
    × ((k : ℕ)
        → published_at toy-ModuleLaws after k ≡ (
            if unwinds_at image k (0x1000, 0x10000)
            then 1
            else published_at toy-ModuleLaws before k))
unfolding contains
on_add_image-Tracked_example =
    on_add_image-Tracked toy-ModuleLaws image 0x1000 0x10000 before
      (initial_tracker-Tracked toy-ModuleLaws) refl (λ k adds. refl)

on_remove_image-on_add_image_example :
    let after = on_remove_image image 0x1000 0x10000 (on_add_image image 0x1000 0x10000 before) in
    Tracked toy-ModuleLaws after
    × ((k : ℕ) → published_at toy-ModuleLaws after k ≡ published_at toy-ModuleLaws before k)
unfolding contains get
on_remove_image-on_add_image_example =
    on_remove_image-on_add_image toy-ModuleLaws image 0x1000 0x10000 before
      (initial_tracker-Tracked toy-ModuleLaws) refl image-OneText (λ k e. refl) (λ k e. refl)

abbrev uninstalled : Callbacks toy
uninstalled = record { installed = false; tracker = before }

abbrev images : List (ℕ × ℕ)
images = (0x1000, 0x10000) ∷ (0, 0) ∷ []

images-ImagesDiffer : ImagesDiffer toy-ModuleLaws image images
unfolding image get build_image build_with built text_pass segment_at ncmds cmd cmdsize is_text
    name_eq section_pass add_sections add_section add_text section_64_at
images-ImagesDiffer = (refl, (tt, tt))

init_callbacks-Tracked_example :
    let after = init_callbacks image images uninstalled in
    Tracked toy-ModuleLaws after.tracker
    × ((k : ℕ)
        → published_at toy-ModuleLaws after.tracker k
          ≡ (if any_unwinds_at image k images then 1 else 0) + published_at toy-ModuleLaws before k)
    × (after.tracker.reg.pending ≡ [])
    × (after.tracker.reg.batching ≡ false)
    × (init_callbacks image [] after ≡ after)
unfolding contains get
init_callbacks-Tracked_example =
    init_callbacks-Tracked toy-ModuleLaws image images [] uninstalled refl refl
      (initial_tracker-Tracked toy-ModuleLaws) images-ImagesDiffer (λ k has. refl) (λ k has. refl)
