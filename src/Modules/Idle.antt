-- ===== src/Modules/Idle.antt =====
-- modules/mod.rs: outside the installation of the callbacks no batch runs, whatever is called.
use framehopunwind.Base.{
  ℕ, ◌≡◌, refl, inl, inr, Bool, true, false, Option, none, some, [], get, contains, contains_key,
  ◌==◌, if◌then◌else◌, Bool-cases,
}
use framehopunwind.Framehop.{Framehop}
use framehopunwind.Modules.Registry.{
  Registry, Tracker, forget_at, forget_jit_eh_frame, record_eh_frame, add_jit_reg, add_jit_module,
  remove_jit_reg, remove_jit_locked, remove_jit_module, remove_jit_found,
  remove_jit_module_by_eh_frame,
}
use framehopunwind.Modules.Refresh.{
  EnumResult, apply_enum, refresh_elf, refresh_with, refresh_other, set_counts,
}
use framehopunwind.Modules.MacOs.{macos_add_image, macos_remove_image}
use framehopunwind.Modules.MachO.{on_add_image, on_remove_image, add_built, remove_keyed}
use framehopunwind.Modules.MachO.Image.{build_image, image_key}

module _ {fh : Framehop} where
  abbrev pub Idle : Tracker fh → Type 0
  Idle t = (t.reg.batching ≡ false) × (t.reg.pending ≡ [])

  abbrev IdleReg : Registry fh → Type 0
  IdleReg reg = (reg.batching ≡ false) × (reg.pending ≡ [])

  Idle-if : (b : Bool) (t u : Tracker fh) → Idle t → Idle u → Idle (if b then t else u)
  Idle-if true t u i j = i
  Idle-if false t u i j = j

  forget_at-IdleReg :
      (key : ℕ) (reg : Registry fh) (r : Option ℕ) → IdleReg reg → IdleReg (forget_at key reg r)
  unfolding forget_at
  forget_at-IdleReg key reg none i = i
  forget_at-IdleReg key reg (some e) i = i

  record_eh_frame-IdleReg :
      (key e : ℕ) (reg : Registry fh) (r : Option ℕ)
      → IdleReg reg
      → IdleReg (record_eh_frame key e reg r)
  unfolding record_eh_frame
  record_eh_frame-IdleReg key e reg none i = i
  record_eh_frame-IdleReg key e reg (some p) i = i

  pub add_jit_module-Idle :
      (key e : ℕ) (m : fh.Module) (t : Tracker fh) → Idle t → Idle (add_jit_module key e m t)
  unfolding add_jit_module add_jit_reg forget_jit_eh_frame
  add_jit_module-Idle key e m t i =
      record_eh_frame-IdleReg key e _ _
        (forget_at-IdleReg key _ (get key t.reg.jit_eh_frame_by_key) i)

  remove_jit_locked-Idle : (key : ℕ) (t : Tracker fh) → Idle t → Idle (remove_jit_locked key t)
  unfolding remove_jit_locked remove_jit_reg forget_jit_eh_frame
  remove_jit_locked-Idle key t i = elim (Bool-cases (contains key t.reg.jit_keys)) [
    | inl known ↦ rw known (forget_at-IdleReg key _ (get key t.reg.jit_eh_frame_by_key) i)
    | inr unknown ↦ rw unknown i
  ]

  pub remove_jit_module-Idle : (key : ℕ) (t : Tracker fh) → Idle t → Idle (remove_jit_module key t)
  unfolding remove_jit_module
  remove_jit_module-Idle key t i = remove_jit_locked-Idle key t i

  remove_jit_found-Idle : (r : Option ℕ) (t : Tracker fh) → Idle t → Idle (remove_jit_found r t)
  unfolding remove_jit_found
  remove_jit_found-Idle none t i = i
  remove_jit_found-Idle (some key) t i = remove_jit_locked-Idle key t i

  pub remove_jit_module_by_eh_frame-Idle :
      (e : ℕ) (t : Tracker fh) → Idle t → Idle (remove_jit_module_by_eh_frame e t)
  unfolding remove_jit_module_by_eh_frame
  remove_jit_module_by_eh_frame-Idle e t i = remove_jit_found-Idle (get e t.reg.jit_by_eh_frame) t i

  apply_enum-Idle : (res : EnumResult fh) (t : Tracker fh) → Idle t → Idle (apply_enum res t)
  unfolding apply_enum
  apply_enum-Idle res t i = Idle-if _ t _ i i

  pub refresh_elf-Idle :
      (counts : Option (ℕ × ℕ)) (res : EnumResult fh) (t : Tracker fh)
      → Idle t
      → Idle (refresh_elf counts res t)
  unfolding refresh_elf
  refresh_elf-Idle counts res t i = Idle-if _ t _ i (apply_enum-Idle res (set_counts counts t) i)

  pub refresh_other-Idle :
      (res : Option (EnumResult fh)) (t : Tracker fh) → Idle t → Idle (refresh_other res t)
  unfolding refresh_other refresh_with
  refresh_other-Idle none t i = i
  refresh_other-Idle (some res) t i = apply_enum-Idle res t i

  pub macos_add_image-Idle :
      (key fp : ℕ) (m : fh.Module) (t : Tracker fh) → Idle t → Idle (macos_add_image key fp m t)
  unfolding macos_add_image
  macos_add_image-Idle key fp m t i = rw i.0 (refl, i.1)

  pub macos_remove_image-Idle :
      (key : ℕ) (t : Tracker fh) → Idle t → Idle (macos_remove_image key t)
  unfolding macos_remove_image
  macos_remove_image-Idle key t i = elim (Bool-cases (contains_key key t.reg.static_mods)) [
    | inl known ↦ rw (known, i.0) (refl, i.1)
    | inr unknown ↦ rw (unknown, i.0) (refl, i.1)
  ]

  add_built-Idle :
      (o : Option (ℕ × ℕ × Option fh.Module)) (t : Tracker fh) → Idle t → Idle (add_built o t)
  add_built-Idle none t i = i
  add_built-Idle (some (key, fp, none)) t i = i
  add_built-Idle (some (key, fp, some m)) t i = macos_add_image-Idle key fp m t i

  pub on_add_image-Idle :
      (mem : ℕ → ℕ) (header slide : ℕ) (t : Tracker fh)
      → Idle t
      → Idle (on_add_image mem header slide t)
  unfolding on_add_image
  on_add_image-Idle mem header slide t i =
      Idle-if (header == 0) t _ i (add_built-Idle (build_image fh mem header slide) t i)

  remove_keyed-Idle : (o : Option ℕ) (t : Tracker fh) → Idle t → Idle (remove_keyed o t)
  remove_keyed-Idle none t i = i
  remove_keyed-Idle (some key) t i = macos_remove_image-Idle key t i

  pub on_remove_image-Idle :
      (mem : ℕ → ℕ) (header slide : ℕ) (t : Tracker fh)
      → Idle t
      → Idle (on_remove_image mem header slide t)
  unfolding on_remove_image
  on_remove_image-Idle mem header slide t i =
      Idle-if (header == 0) t _ i (remove_keyed-Idle (image_key mem header slide) t i)
