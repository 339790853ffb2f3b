-- ===== src/Modules/Images.antt =====
-- modules/mod.rs: the images that dyld adds and removes one at a time.
use framehopunwind.Base.{
  ℕ, ◌+◌, ◌-◌, ◌≡◌, refl, sym, ◌∙◌, ap, subst, inl, inr, Bool, true, false, not, ◌&&◌, ◌++◌, List,
  [], ◌∷◌, insert, remove, get-insert, get-remove, contains, contains_key, insert-Distinct,
  remove-Distinct, ◌==◌, if◌then◌else◌, Bool-cases, arith,
}
use framehopunwind.Framehop.{Framehop, ModuleLaws}
use framehopunwind.Publish.{current_unw, with_writer}
use framehopunwind.Modules.Registry.{Tracker}
use framehopunwind.Modules.Published.{published_at, Tracked}
use framehopunwind.Modules.MacOs.{
  add_pending, end_batch, macos_end_batch, drop_pending, macos_add_image, macos_remove_image,
}

module _ {fh : Framehop} (laws : ModuleLaws fh) where
  open laws use {start, count_at, count_at-add, count_at-remove}

  -- The tracker after an image was added outside a batch.
  abbrev with_image : ℕ → ℕ → fh.Module → Tracker fh → Tracker fh
  with_image key fp m t = record {
    reg = record (t.reg) { static_mods = insert key fp t.reg.static_mods };
    published =
        with_writer
          (λ unw.
            fh.add_module
              (if contains_key key t.reg.static_mods then fh.remove_module unw key else unw) m)
          t.published;
  }

  -- The tracker after one was queued in a batch.
  abbrev queued : ℕ → ℕ → fh.Module → Tracker fh → Tracker fh
  queued key fp m t = record t {
    reg = record (t.reg) { pending = t.reg.pending ++ ((key, fp, m) ∷ []) };
  }

  replaced-count :
      (known : Bool) (key : ℕ) (m : fh.Module) (u : fh.Unwinder) (k : ℕ)
      → start m ≡ key
      → count_at (fh.add_module (if known then fh.remove_module u key else u) m) k
        ≡ (if key == k then 1 else 0)
          + (if known then count_at u k - (if key == k then 1 else 0) else count_at u k)
  replaced-count true key m u k e =
      count_at-add (fh.remove_module u key) m k ∙ ground (arith, count_at-remove u key k)
  replaced-count false key m u k e = count_at-add u m k ∙ ground arith

  with_image-Tracked :
      (key fp : ℕ) (m : fh.Module) (t : Tracker fh)
      → Tracked laws t
      → start m ≡ key
      → contains key t.reg.jit_keys ≡ false
      → Tracked laws (with_image key fp m t)
        × ((k : ℕ)
            → published_at laws (with_image key fp m t) k
              ≡ (if key == k then 1 else published_at laws t k))
  unfolding with_writer contains_key
  with_image-Tracked key fp m t v same free =
      let static = t.reg.static_mods in
      let cnt : (k : ℕ)
          → published_at laws (with_image key fp m t) k
            ≡ (if key == k then 1 else published_at laws t k) =
        λ k.
          replaced-count (contains_key key static) key m (current_unw t.published) k same
          ∙ ground (arith, free, v.bounded key, v.listed key) in
      (
        record {
          disjoint = λ k. ground (arith, free, get-insert key k fp static, v.disjoint k);
          jit_once = λ k. ground (arith, free, cnt k, v.jit_once k);
          bounded = λ k. ground (arith, cnt k, v.bounded k);
          listed = λ k. ground (arith, cnt k, get-insert key k fp static, v.listed k);
          distinct = insert-Distinct key fp static v.distinct;
          linked = record {
            forward = v.linked.forward;
            backward = v.linked.backward;
            registered = v.linked.registered;
          };
        },
        cnt,
      )

  -- Outside a batch, an image that dyld adds at an address where no JIT module is registered is
  -- published there, once, in place of one that was; nothing else changes, and the registry stays
  -- consistent with what is published.
  pub macos_add_image-Tracked :
      (key fp : ℕ) (m : fh.Module) (t : Tracker fh)
      → Tracked laws t
      → t.reg.batching ≡ false
      → start m ≡ key
      → contains key t.reg.jit_keys ≡ false
      → Tracked laws (macos_add_image key fp m t)
        × ((k : ℕ)
            → published_at laws (macos_add_image key fp m t) k
              ≡ (if key == k then 1 else published_at laws t k))
  unfolding macos_add_image
  macos_add_image-Tracked key fp m t v alone same free =
      let is : macos_add_image key fp m t ≡ with_image key fp m t =
        subst
          (λ b. (if b then queued key fp m t else with_image key fp m t) ≡ with_image key fp m t)
          (sym alone) refl in
      let w = with_image-Tracked key fp m t v same free in
      (subst (Tracked laws) (sym is) w.0, λ k. ap (λ t'. published_at laws t' k) is ∙ w.1 k)

  -- The tracker without the image of `key`, outside a batch.
  abbrev without_image : ℕ → Tracker fh → Tracker fh
  without_image key t = record {
    reg = record (t.reg) { static_mods = remove key t.reg.static_mods };
    published = with_writer (λ unw. fh.remove_module unw key) t.published;
  }

  without_image-Tracked :
      (key : ℕ) (t : Tracker fh)
      → Tracked laws t
      → contains_key key t.reg.static_mods ≡ true
      → Tracked laws (without_image key t)
        × ((k : ℕ)
            → published_at laws (without_image key t) k
              ≡ (if key == k then 0 else published_at laws t k))
  unfolding with_writer contains_key
  without_image-Tracked key t v known =
      let static = t.reg.static_mods in
      let cnt : (k : ℕ)
          → published_at laws (without_image key t) k
            ≡ (if key == k then 0 else published_at laws t k) =
        λ k. count_at-remove (current_unw t.published) key k ∙ ground (arith, v.bounded key) in
      (
        record {
          disjoint = λ k. ground (arith, get-remove key k static, v.disjoint k);
          jit_once = λ k. ground (arith, known, cnt k, v.jit_once k, v.disjoint k);
          bounded = λ k. ground (arith, cnt k, v.bounded k);
          listed = λ k. ground (arith, cnt k, get-remove key k static, v.listed k);
          distinct = remove-Distinct key static v.distinct;
          linked = record {
            forward = v.linked.forward;
            backward = v.linked.backward;
            registered = v.linked.registered;
          };
        },
        cnt,
      )

  not_jit :
      (key : ℕ) (t : Tracker fh)
      → Tracked laws t
      → contains_key key t.reg.static_mods ≡ true
      → contains key t.reg.jit_keys ≡ false
  unfolding contains_key
  not_jit key t v known = ground (arith, known, v.disjoint key)

  -- `macos_remove_image` by whether the image is known, a batch runs, and a JIT module has its key.
  abbrev removal : Bool → Bool → Bool → ℕ → Tracker fh → Tracker fh
  removal known batching jit key t =
      let left = if batching then drop_pending fh key t.reg.pending else t.reg.pending in
      if not known then record t { reg = record (t.reg) { pending = left } } else record {
        reg = record (t.reg) { static_mods = remove key t.reg.static_mods; pending = left };
        published =
            if jit then t.published else with_writer (λ unw. fh.remove_module unw key) t.published;
      }

  remove_image_known :
      (key : ℕ) (t : Tracker fh)
      → t.reg.batching ≡ false
      → contains_key key t.reg.static_mods ≡ true
      → contains key t.reg.jit_keys ≡ false
      → macos_remove_image key t ≡ without_image key t
  unfolding macos_remove_image
  remove_image_known key t alone known free = λ i. removal (known i) (alone i) (free i) key t

  remove_image_unknown :
      (key : ℕ) (t : Tracker fh)
      → t.reg.batching ≡ false
      → contains_key key t.reg.static_mods ≡ false
      → macos_remove_image key t ≡ t
  unfolding macos_remove_image
  remove_image_unknown key t alone unknown =
      λ i. removal (unknown i) (alone i) (contains key t.reg.jit_keys) key t

  -- Outside a batch, an image that dyld removes is published no more; nothing else changes, nothing
  -- at all if the image was not known, and the registry stays consistent with what is published.
  pub macos_remove_image-Tracked :
      (key : ℕ) (t : Tracker fh)
      → Tracked laws t
      → t.reg.batching ≡ false
      → Tracked laws (macos_remove_image key t)
        × ((k : ℕ)
            → published_at laws (macos_remove_image key t) k ≡ (
                if (key == k) && contains_key key t.reg.static_mods
                then 0
                else published_at laws t k))
        × (contains_key key t.reg.static_mods ≡ false → macos_remove_image key t ≡ t)
  macos_remove_image-Tracked key t v alone =
      elim (Bool-cases (contains_key key t.reg.static_mods)) [
        | inl known ↦
            let is = remove_image_known key t alone known (not_jit key t v known) in
            let w = without_image-Tracked key t v known in
            (
              subst (Tracked laws) (sym is) w.0,
              λ k. ap (λ t'. published_at laws t' k) is ∙ ground (arith, known, w.1 k),
              λ unknown. absurd (ground (arith, known, unknown)),
            )
        | inr unknown ↦
            let is = remove_image_unknown key t alone unknown in
            (
              subst (Tracked laws) (sym is) v,
              λ k. ap (λ t'. published_at laws t' k) is ∙ ground (arith, unknown),
              λ _. is,
            )
      ]

  -- How many of the queued images start at `k`.
  abbrev pub queued_at : ℕ → List (ℕ × ℕ × fh.Module) → ℕ
  queued_at k [] = 0
  queued_at k ((key, fp, m) ∷ l) = (if start m == k then 1 else 0) + queued_at k l

  add_pending-count :
      (k : ℕ) (l : List (ℕ × ℕ × fh.Module)) (u : fh.Unwinder)
      → count_at (add_pending fh l u) k ≡ queued_at k l + count_at u k
  unfolding add_pending
  add_pending-count k [] u = ground arith
  add_pending-count k ((key, fp, m) ∷ l) u =
      add_pending-count k l (fh.add_module u m) ∙ ground (arith, count_at-add u m k)

  pub end_batch-count :
      (k : ℕ) (l : List (ℕ × ℕ × fh.Module)) (t : Tracker fh)
      → published_at laws (end_batch l t) k ≡ queued_at k l + published_at laws t k
  unfolding end_batch with_writer
  end_batch-count k [] t = ground arith
  end_batch-count k (x ∷ l) t = add_pending-count k (x ∷ l) (current_unw t.published)

  end_batch-rest :
      (l : List (ℕ × ℕ × fh.Module)) (t : Tracker fh)
      → ((end_batch l t).reg.pending ≡ t.reg.pending)
        × ((end_batch l t).reg.batching ≡ t.reg.batching)
        × ((end_batch l t).reg.jit_keys ≡ t.reg.jit_keys)
  unfolding end_batch
  end_batch-rest [] t = (refl, refl, refl)
  end_batch-rest (x ∷ l) t = (refl, refl, refl)

  -- The end of a batch publishes every queued image, those with the same start as often as they
  -- were queued, takes none away, and leaves the queue empty and batching off.
  pub macos_end_batch_lem :
      (t : Tracker fh)
      → ((k : ℕ)
          → published_at laws (macos_end_batch t) k
            ≡ queued_at k t.reg.pending + published_at laws t k)
        × ((macos_end_batch t).reg.pending ≡ [])
        × ((macos_end_batch t).reg.batching ≡ false)
        × ((macos_end_batch t).reg.jit_keys ≡ t.reg.jit_keys)
  unfolding macos_end_batch
  macos_end_batch_lem t =
      let closed = record t { reg = record (t.reg) { batching = false; pending = [] } } in
      let rest = end_batch-rest t.reg.pending closed in
      (λ k. end_batch-count k t.reg.pending closed, rest.0, rest.1, rest.2)
