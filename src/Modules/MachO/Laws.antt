-- ===== src/Modules/MachO/Laws.antt =====
-- modules/macho.rs: one image that comes and goes, and those that are loaded at first.
use framehopunwind.Base.{
  ℕ, ◌+◌, ◌≡◌, inl, inr, refl, sym, ◌∙◌, ap, true, false, Option, none, some, List, [], get,
  get-insert, contains, contains_key, ◌==◌, if◌then◌else◌, Bool-cases, arith,
}
use framehopunwind.Framehop.{Framehop, ModuleLaws}
use framehopunwind.Modules.Registry.{Tracker}
use framehopunwind.Modules.Published.{published_at, Tracked}
use framehopunwind.Modules.MacOs.{macos_add_image}
use framehopunwind.Modules.Images.{macos_add_image-Tracked, macos_remove_image-Tracked}
use framehopunwind.Modules.MachO.Image.{build_image, image_key}
use framehopunwind.Modules.MachO.Keys.{
  OneText, key_of, image_key-build_image, KeyedStart, build_image-KeyedStart,
}
use framehopunwind.Modules.MachO.{
  Callbacks, add_built, remove_keyed, on_add_image, on_remove_image, init_callbacks,
}
use framehopunwind.Modules.MachO.Replay.{
  adds_at, parsed, has_image, ImagesDiffer, parsed-KeyedStart, on_add_image-add_built,
  init_callbacks-Replayed,
}
use framehopunwind.Modules.MachO.Unwind.{
  unwinds_at, any_unwinds_at, adds_at-unwinds_at, has_image-any_unwinds_at,
}

module _ {fh : Framehop} (laws : ModuleLaws fh) (mem : ℕ → ℕ) where
  add_built-Tracked :
      (o : Option (ℕ × ℕ × Option fh.Module)) (t : Tracker fh)
      → KeyedStart fh mem laws o
      → Tracked laws t
      → t.reg.batching ≡ false
      → ((k : ℕ) → adds_at k o ≡ true → contains k t.reg.jit_keys ≡ false)
      → Tracked laws (add_built o t)
        × ((k : ℕ)
            → published_at laws (add_built o t) k
              ≡ (if adds_at k o then 1 else published_at laws t k))
  add_built-Tracked none t start v alone free = (v, λ k. refl)
  add_built-Tracked (some (key, fp, none)) t start v alone free = (v, λ k. refl)
  add_built-Tracked (some (key, fp, some m)) t start v alone free =
      macos_add_image-Tracked laws key fp m t v alone start (free key (ground arith))

  -- Outside a batch, an image that dyld reports as loaded, with no JIT module at its address: if one
  -- of its sections is `__unwind_info` or `__eh_frame`, a module is published at the address of its
  -- last segment `__TEXT`, once, in place of one that was; at every other address as many modules are
  -- published as before, and the registry stays consistent with what is published (`Tracked`).
  pub on_add_image-Tracked :
      (header slide : ℕ) (t : Tracker fh)
      → Tracked laws t
      → t.reg.batching ≡ false
      → ((k : ℕ) → unwinds_at mem k (header, slide) ≡ true → contains k t.reg.jit_keys ≡ false)
      → let after = on_add_image mem header slide t in
        Tracked laws after
        × ((k : ℕ)
            → published_at laws after k
              ≡ (if unwinds_at mem k (header, slide) then 1 else published_at laws t k))
  on_add_image-Tracked header slide t v alone free =
      let o = parsed laws mem (header, slide) in
      let same : (k : ℕ) → adds_at k o ≡ unwinds_at mem k (header, slide) =
        λ k. adds_at-unwinds_at mem laws k (header, slide) in
      let (tracked, cnt) =
        add_built-Tracked o t (parsed-KeyedStart laws mem (header, slide)) v alone
          (λ k adds. free k (sym (same k) ∙ adds)) in
      rw (on_add_image-add_built laws mem header slide t)
        (tracked, λ k. cnt k ∙ ap (λ b. if b then 1 else published_at laws t k) (same k))

  -- The first call, where the loaded images have their modules at different addresses and nothing is
  -- registered there: at each address as many modules are published as before, and one more where an
  -- image stands that has a section `__unwind_info` or `__eh_frame`; the registry stays consistent
  -- with what is published (`Tracked`), nothing is left in the queue and no batch is left open. Any
  -- later call changes nothing.
  pub init_callbacks-Tracked :
      (l later : List (ℕ × ℕ)) (s : Callbacks fh)
      → s.installed ≡ false
      → s.tracker.reg.pending ≡ []
      → Tracked laws s.tracker
      → ImagesDiffer laws mem l
      → ((k : ℕ) → any_unwinds_at mem k l ≡ true → get k s.tracker.reg.static_mods ≡ none)
      → ((k : ℕ) → any_unwinds_at mem k l ≡ true → contains k s.tracker.reg.jit_keys ≡ false)
      → let after = init_callbacks mem l s in
        Tracked laws after.tracker
        × ((k : ℕ)
            → published_at laws after.tracker k
              ≡ (if any_unwinds_at mem k l then 1 else 0) + published_at laws s.tracker k)
        × (after.tracker.reg.pending ≡ [])
        × (after.tracker.reg.batching ≡ false)
        × (init_callbacks mem later after ≡ after)
  init_callbacks-Tracked l later s first empty v differ new free =
      let same : (k : ℕ) → has_image laws mem k l ≡ any_unwinds_at mem k l =
        λ k. has_image-any_unwinds_at mem laws k l in
      let (tracked, cnt, none_left, over, again) =
        init_callbacks-Replayed laws mem l later s first empty v differ
          (λ k has. new k (sym (same k) ∙ has)) (λ k has. free k (sym (same k) ∙ has)) in
      (
        tracked,
        λ k. cnt k ∙ ap (λ b. (if b then 1 else 0) + published_at laws s.tracker k) (same k),
        none_left,
        over,
        again,
      )

  remove_keyed-Tracked :
      (o : Option ℕ) (t : Tracker fh)
      → Tracked laws t
      → t.reg.batching ≡ false
      → Tracked laws (remove_keyed o t)
  remove_keyed-Tracked none t v alone = v
  remove_keyed-Tracked (some key) t v alone = (macos_remove_image-Tracked laws key t v alone).0

  pub on_remove_image-Tracked :
      (header slide : ℕ) (t : Tracker fh)
      → Tracked laws t
      → t.reg.batching ≡ false
      → Tracked laws (on_remove_image mem header slide t)
  unfolding on_remove_image
  on_remove_image-Tracked header slide t v alone = elim (Bool-cases (header == 0)) [
    | inl null ↦ rw null v
    | inr there ↦ rw there (remove_keyed-Tracked (image_key mem header slide) t v alone)
  ]

  macos_add_image-known :
      (key fp : ℕ) (m : fh.Module) (t : Tracker fh)
      → t.reg.batching ≡ false
      → ((macos_add_image key fp m t).reg.batching ≡ false)
        × (contains_key key (macos_add_image key fp m t).reg.static_mods ≡ true)
  unfolding macos_add_image contains_key
  macos_add_image-known key fp m t alone =
      rw alone (refl, ground (arith, get-insert key key fp t.reg.static_mods))

  remove_keyed-add_built :
      (o : Option (ℕ × ℕ × Option fh.Module)) (t : Tracker fh)
      → KeyedStart fh mem laws o
      → Tracked laws t
      → t.reg.batching ≡ false
      → ((k : ℕ) → key_of fh mem o ≡ some k → get k t.reg.static_mods ≡ none)
      → ((k : ℕ) → key_of fh mem o ≡ some k → contains k t.reg.jit_keys ≡ false)
      → let after = remove_keyed (key_of fh mem o) (add_built o t) in
        Tracked laws after × ((k : ℕ) → published_at laws after k ≡ published_at laws t k)
  unfolding contains_key
  remove_keyed-add_built none t start v alone new free = (v, λ k. refl)
  remove_keyed-add_built (some (key, fp, none)) t start v alone new free =
      let missing = new key refl in
      let (tracked, _, same) = macos_remove_image-Tracked laws key t v alone in
      (tracked, λ k. ap (λ t'. published_at laws t' k) (same (ground (arith, missing))))
  remove_keyed-add_built (some (key, fp, some m)) t start v alone new free =
      let added = macos_add_image key fp m t in
      let (is_added, published) =
        macos_add_image-Tracked laws key fp m t v alone start (free key refl) in
      let (alone', known) = macos_add_image-known key fp m t alone in
      let (tracked, gone, _) = macos_remove_image-Tracked laws key added is_added alone' in
      let before : published_at laws t key ≡ 0 = v.listed key (free key refl) (new key refl) in
      let at : (k : ℕ) → key ≡ k → published_at laws t key ≡ published_at laws t k =
        λ k e. ap (λ x. published_at laws t x) e in
      (tracked, λ k. gone k ∙ ground (arith, known, before, at k, published k))

  -- Outside a batch, an image that is loaded where nothing is registered, and then unloaded, leaves
  -- the published modules as they were, provided that it has one segment `__TEXT`.
  pub on_remove_image-on_add_image :
      (header slide : ℕ) (t : Tracker fh)
      → Tracked laws t
      → t.reg.batching ≡ false
      → OneText mem header
      → ((k : ℕ) → image_key mem header slide ≡ some k → get k t.reg.static_mods ≡ none)
      → ((k : ℕ) → image_key mem header slide ≡ some k → contains k t.reg.jit_keys ≡ false)
      → let after = on_remove_image mem header slide (on_add_image mem header slide t) in
        Tracked laws after × ((k : ℕ) → published_at laws after k ≡ published_at laws t k)
  unfolding on_remove_image on_add_image
  on_remove_image-on_add_image header slide t v alone one new free =
      let o = build_image fh mem header slide in
      let key = image_key-build_image fh mem header slide one in
      elim (Bool-cases (header == 0)) [
        | inl null ↦ rw null (v, λ k. refl)
        | inr there ↦
            rw (there, key)
              (remove_keyed-add_built o t (build_image-KeyedStart fh mem laws header slide) v alone
                (λ k e. new k (key ∙ e)) (λ k e. free k (key ∙ e)))
      ]
