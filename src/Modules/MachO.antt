-- ===== src/Modules/MachO.antt =====
-- modules/macho.rs: the images that dyld reports.
pub mod Image
pub mod Keys
pub mod Replay
pub mod Unwind
pub mod Laws
mod Tests
use framehopunwind.Base.{
  ℕ, Bool, true, false, Option, none, some, List, [], ◌∷◌, ◌==◌, if◌then◌else◌,
}
use framehopunwind.Framehop.{Framehop}
use framehopunwind.Modules.Registry.{Tracker}
use framehopunwind.Modules.MacOs.{
  macos_begin_batch, macos_end_batch, macos_add_image, macos_remove_image,
}
use framehopunwind.Modules.MachO.Image.{build_image, image_key}

-- CALLBACKS, REGISTRY and CURRENT.
pub record Callbacks (fh : Framehop) : Type 0 where
  pub installed : Bool
  pub tracker : Tracker fh

module _ {fh : Framehop} where
  abbrev pub add_built : Option (ℕ × ℕ × Option fh.Module) → Tracker fh → Tracker fh
  add_built none t = t
  add_built (some (key, fp, none)) t = t
  add_built (some (key, fp, some m)) t = macos_add_image key fp m t

  abbrev pub remove_keyed : Option ℕ → Tracker fh → Tracker fh
  remove_keyed none t = t
  remove_keyed (some key) t = macos_remove_image key t

  module _ (mem : ℕ → ℕ) where
    unfoldable pub on_add_image : ℕ → ℕ → Tracker fh → Tracker fh
    unfolding build_image
    on_add_image header slide t =
        if header == 0 then t else add_built (build_image fh mem header slide) t

    unfoldable pub on_remove_image : ℕ → ℕ → Tracker fh → Tracker fh
    on_remove_image header slide t =
        if header == 0 then t else remove_keyed (image_key mem header slide) t

    -- Registration calls the callback for every image that is loaded, with its header and slide.
    unfoldable pub replay : List (ℕ × ℕ) → Tracker fh → Tracker fh
    unfolding on_add_image
    replay [] t = t
    replay ((header, slide) ∷ l) t = replay l (on_add_image header slide t)

    unfoldable pub init_callbacks : List (ℕ × ℕ) → Callbacks fh → Callbacks fh
    unfolding replay macos_begin_batch macos_end_batch
    init_callbacks images s = if s.installed then s else record {
      installed = true;
      tracker = macos_end_batch (replay images (macos_begin_batch s.tracker));
    }
