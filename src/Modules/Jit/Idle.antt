-- ===== src/Modules/Jit/Idle.antt =====
-- modules/jit.rs: a registration neither starts a batch nor queues an image.
use framehopunwind.Base.{
  ℕ, ◌-◌, ◌^◌, ◌||◌, Bool, true, false, Option, none, some, List, [], ℤ, negsuc, ltb, leb, ◌==◌,
  if◌then◌else◌,
}
use framehopunwind.Framehop.{Framehop}
use framehopunwind.Modules.Idle.{Idle, add_jit_module-Idle}
use framehopunwind.Modules.Jit.{
  Jit, Embedder, fde_pc_range, note_fail, jit_info, register_parsed, register_jit_eh_frame,
  register_found, register_jit_eh_frame_auto,
}

module _ {fh : Framehop} where
  abbrev pub IdleAfter : ℤ × Jit fh → Type 0
  IdleAfter r = Idle (r.1.tracker)

  IdleAfter-if :
      (b : Bool) (x y : ℤ × Jit fh) → IdleAfter x → IdleAfter y → IdleAfter (if b then x else y)
  IdleAfter-if true x y i j = i
  IdleAfter-if false x y i j = j

  register_parsed-Idle :
      (bytes : List ℕ) (ptr len text_lo text_hi : ℕ) (r : Option (ℕ × ℕ)) (j : Jit fh)
      → Idle j.tracker
      → IdleAfter (register_parsed bytes ptr len text_lo text_hi r j)
  unfolding register_parsed note_fail
  register_parsed-Idle bytes ptr len text_lo text_hi none j i = i
  register_parsed-Idle bytes ptr len text_lo text_hi (some range) j i =
      add_jit_module-Idle text_lo ptr
        (fh.new_module [] (text_lo, text_hi) text_lo (jit_info bytes ptr len text_lo)) j.tracker i

module _ {fh : Framehop} (env : Embedder) where
  pub register_jit_eh_frame-Idle :
      (ptr len text_lo text_hi : ℕ) (j : Jit fh)
      → Idle j.tracker
      → IdleAfter (register_jit_eh_frame env ptr len text_lo text_hi j)
  unfolding register_jit_eh_frame note_fail
  register_jit_eh_frame-Idle ptr len text_lo text_hi j i =
      IdleAfter-if (ptr == 0 || len == 0 || leb text_hi text_lo) (note_fail (negsuc 0) j) _ i (
        IdleAfter-if (ltb (2 ^ 32 - 1) (text_hi - text_lo)) (note_fail (negsuc 1) j) _ i (
          register_parsed-Idle (env.bytes_at ptr len) ptr len text_lo text_hi
            (fde_pc_range (env.entries (env.bytes_at ptr len) ptr)) j i))

  register_found-Idle :
      (ptr len : ℕ) (r : Option (ℕ × ℕ)) (j : Jit fh)
      → Idle j.tracker
      → IdleAfter (register_found env ptr len r j)
  unfolding register_found note_fail
  register_found-Idle ptr len none j i = i
  register_found-Idle ptr len (some (lo, hi)) j i = register_jit_eh_frame-Idle ptr len lo hi j i

  pub register_jit_eh_frame_auto-Idle :
      (ptr len : ℕ) (j : Jit fh)
      → Idle j.tracker
      → IdleAfter (register_jit_eh_frame_auto env ptr len j)
  unfolding register_jit_eh_frame_auto note_fail
  register_jit_eh_frame_auto-Idle ptr len j i =
      IdleAfter-if (ptr == 0 || len == 0) (note_fail (negsuc 0) j) _ i
        (register_found-Idle ptr len (fde_pc_range (env.entries (env.bytes_at ptr len) ptr)) j i)
