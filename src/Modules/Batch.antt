-- ===== src/Modules/Batch.antt =====
-- modules/mod.rs: the images that dyld reports while a batch runs.
use framehopunwind.Base.{
  ℕ, ◌+◌, ◌≤◌, ◌<◌, ◌≡◌, refl, sym, ◌∙◌, ap, subst, Bool, true, false, ◌++◌, List, none, [], ◌∷◌,
  HashMap, get, insert, get-insert, contains, Distinct, insert-Distinct, ◌==◌, if◌then◌else◌, arith,
}
use framehopunwind.Framehop.{Framehop, ModuleLaws}
use framehopunwind.Modules.Registry.{Tracker}
use framehopunwind.Modules.Published.{published_at, Tracked}
use framehopunwind.Modules.MacOs.{insert_all, end_batch, macos_end_batch, macos_add_image}
use framehopunwind.Modules.Images.{queued_at, end_batch-count, macos_end_batch_lem}

-- How often `k` is queued.
abbrev pub keyed_at {ℓ} : {M : Type ℓ} → ℕ → List (ℕ × ℕ × M) → ℕ
keyed_at k [] = 0
keyed_at k ((key, fp, m) ∷ l) = (if key == k then 1 else 0) + keyed_at k l

pub keyed_at-push {ℓ} :
    {M : Type ℓ} (k key fp : ℕ) (m : M) (l : List (ℕ × ℕ × M))
    → keyed_at k (l ++ ((key, fp, m) ∷ [])) ≡ keyed_at k l + (if key == k then 1 else 0)
keyed_at-push k key fp m [] = ground arith
keyed_at-push k key fp m ((j, f, x) ∷ l) = ground (arith, keyed_at-push k key fp m l)

module _ (fh : Framehop) where
  insert_all-kept :
      (k : ℕ) (l : List (ℕ × ℕ × fh.Module)) (map : HashMap ℕ)
      → keyed_at k l ≡ 0
      → get k (insert_all fh l map) ≡ get k map
  unfolding insert_all
  insert_all-kept k [] map absent = refl
  insert_all-kept k ((key, fp, m) ∷ l) map absent =
      insert_all-kept k l (insert key fp map) (ground (arith, absent))
      ∙ ground (arith, absent, get-insert key k fp map)

  insert_all-none :
      (k : ℕ) (l : List (ℕ × ℕ × fh.Module)) (map : HashMap ℕ)
      → get k (insert_all fh l map) ≡ none
      → (keyed_at k l ≡ 0) × (get k map ≡ none)
  unfolding insert_all
  insert_all-none k [] map missing = (refl, missing)
  insert_all-none k ((key, fp, m) ∷ l) map missing =
      let (absent, before) = insert_all-none k l (insert key fp map) missing in
      let found = get-insert key k fp map in
      (ground (arith, absent, before, found), ground (arith, absent, before, found))

  insert_all-Distinct :
      (l : List (ℕ × ℕ × fh.Module)) (map : HashMap ℕ)
      → Distinct map
      → Distinct (insert_all fh l map)
  unfolding insert_all
  insert_all-Distinct [] map d = d
  insert_all-Distinct ((key, fp, m) ∷ l) map d =
      insert_all-Distinct l (insert key fp map) (insert-Distinct key fp map d)

module _ {fh : Framehop} (laws : ModuleLaws fh) where
  open laws use {start}

  -- Every queued module starts at its key.
  abbrev pub Keyed : List (ℕ × ℕ × fh.Module) → Type 0
  Keyed [] = Unit
  Keyed ((key, fp, m) ∷ l) = (start m ≡ key) × Keyed l

  keyed_at-queued_at :
      (k : ℕ) (l : List (ℕ × ℕ × fh.Module)) → Keyed l → queued_at laws k l ≡ keyed_at k l
  keyed_at-queued_at k [] keyed = refl
  keyed_at-queued_at k ((key, fp, m) ∷ l) (same, keyed) =
      ground (arith, same, keyed_at-queued_at k l keyed)

  Keyed-push :
      (key fp : ℕ) (m : fh.Module) (l : List (ℕ × ℕ × fh.Module))
      → start m ≡ key
      → Keyed l
      → Keyed (l ++ ((key, fp, m) ∷ []))
  Keyed-push key fp m [] same keyed = (same, tt)
  Keyed-push key fp m ((j, f, x) ∷ l) same (here, keyed) = (here, Keyed-push key fp m l same keyed)

  -- No address is queued twice, nor one where a module is registered already.
  pub record Queue (t : Tracker fh) : Type 0 where
    pub keyed : Keyed t.reg.pending
    pub once : (k : ℕ) → keyed_at k t.reg.pending ≤ 1
    pub new : (k : ℕ) → 0 < keyed_at k t.reg.pending → get k t.reg.static_mods ≡ none
    pub free : (k : ℕ) → 0 < keyed_at k t.reg.pending → contains k t.reg.jit_keys ≡ false

  pub empty-Queue : (t : Tracker fh) → t.reg.pending ≡ [] → Queue t
  empty-Queue t empty =
      let zero_at : (k : ℕ) → keyed_at k t.reg.pending ≡ 0 = λ k. ap (keyed_at k) empty in
      record {
        keyed = subst Keyed (sym empty) tt;
        once = λ k. omega (arith, zero_at k);
        new = λ k queued. absurd (omega (arith, zero_at k, queued));
        free = λ k queued. absurd (omega (arith, zero_at k, queued));
      }

  -- The tracker with one more image in the queue.
  abbrev pub queued : ℕ → ℕ → fh.Module → Tracker fh → Tracker fh
  queued key fp m t = record t {
    reg = record (t.reg) { pending = t.reg.pending ++ ((key, fp, m) ∷ []) };
  }

  -- What `Tracked` says does not depend on the queue.
  abbrev with_queue : Bool → List (ℕ × ℕ × fh.Module) → Tracker fh → Tracker fh
  with_queue batching pending t = record t {
    reg = record (t.reg) { batching = batching; pending = pending };
  }

  pub with_queue-Tracked :
      (batching : Bool) (pending : List (ℕ × ℕ × fh.Module)) (t : Tracker fh)
      → Tracked laws t
      → Tracked laws (with_queue batching pending t)
  with_queue-Tracked batching pending t v = record {
    disjoint = v.disjoint;
    jit_once = v.jit_once;
    bounded = v.bounded;
    listed = v.listed;
    distinct = v.distinct;
    linked = record {
      forward = v.linked.forward;
      backward = v.linked.backward;
      registered = v.linked.registered;
    };
  }

  end_batch-Tracked :
      (l : List (ℕ × ℕ × fh.Module)) (t : Tracker fh)
      → Tracked laws t
      → Keyed l
      → ((k : ℕ) → keyed_at k l ≤ 1)
      → ((k : ℕ) → 0 < keyed_at k l → get k t.reg.static_mods ≡ none)
      → ((k : ℕ) → 0 < keyed_at k l → contains k t.reg.jit_keys ≡ false)
      → Tracked laws (end_batch l t)
        × ((k : ℕ) → published_at laws (end_batch l t) k ≡ keyed_at k l + published_at laws t k)
  unfolding end_batch
  end_batch-Tracked [] t v keyed once new free = (v, λ k. ground arith)
  end_batch-Tracked (x ∷ l) t v keyed once new free =
      let q = x ∷ l in
      let static = t.reg.static_mods in
      let cnt : (k : ℕ)
          → published_at laws (end_batch q t) k ≡ keyed_at k q + published_at laws t k =
        λ k.
          end_batch-count laws k q t
          ∙ ap (λ n. n + published_at laws t k) (keyed_at-queued_at k q keyed) in
      (
        record {
          disjoint = λ k jit.
              insert_all-kept fh k q static (ground (arith, jit, free k)) ∙ v.disjoint k jit;
          jit_once = λ k jit. ground (arith, jit, free k, cnt k, v.jit_once k);
          bounded = λ k. ground (arith, once k, new k, free k, cnt k, v.bounded k, v.listed k);
          listed = λ k jit missing.
              let (absent, before) = insert_all-none fh k q static missing in
              ground (arith, absent, cnt k, v.listed k jit before);
          distinct = insert_all-Distinct fh q static v.distinct;
          linked = record {
            forward = v.linked.forward;
            backward = v.linked.backward;
            registered = v.linked.registered;
          };
        },
        cnt,
      )

  -- The end of a batch, with a queue of different addresses where nothing is registered yet,
  -- publishes every queued image once and takes nothing away; the queue is empty and the batch over,
  -- and the registry stays consistent with what is published.
  pub macos_end_batch-Tracked :
      (t : Tracker fh)
      → Tracked laws t
      → Queue t
      → Tracked laws (macos_end_batch t)
        × ((k : ℕ)
            → published_at laws (macos_end_batch t) k
              ≡ keyed_at k t.reg.pending + published_at laws t k)
        × ((macos_end_batch t).reg.pending ≡ [])
        × ((macos_end_batch t).reg.batching ≡ false)
        × ((macos_end_batch t).reg.jit_keys ≡ t.reg.jit_keys)
  unfolding macos_end_batch
  macos_end_batch-Tracked t v q =
      let (tracked, cnt) =
        end_batch-Tracked t.reg.pending (with_queue false [] t) (with_queue-Tracked false [] t v)
          q.keyed q.once q.new q.free in
      let (_, empty, over, jit) = macos_end_batch_lem laws t in (tracked, cnt, empty, over, jit)

  queued-Queue :
      (key fp : ℕ) (m : fh.Module) (t : Tracker fh)
      → Queue t
      → start m ≡ key
      → keyed_at key t.reg.pending ≡ 0
      → get key t.reg.static_mods ≡ none
      → contains key t.reg.jit_keys ≡ false
      → Queue (queued key fp m t)
  queued-Queue key fp m t q same unqueued new free =
      let at : (k : ℕ) → key ≡ k → keyed_at key t.reg.pending ≡ keyed_at k t.reg.pending =
        λ k e. ap (λ x. keyed_at x t.reg.pending) e in
      let static : (k : ℕ) → key ≡ k → get k t.reg.static_mods ≡ none =
        λ k e. ap (λ x. get x t.reg.static_mods) (sym e) ∙ new in
      let jit : (k : ℕ) → key ≡ k → contains k t.reg.jit_keys ≡ false =
        λ k e. ap (λ x. contains x t.reg.jit_keys) (sym e) ∙ free in
      let push : (k : ℕ)
          → keyed_at k (t.reg.pending ++ ((key, fp, m) ∷ []))
            ≡ keyed_at k t.reg.pending + (if key == k then 1 else 0) =
        λ k. keyed_at-push k key fp m t.reg.pending in
      record {
        keyed = Keyed-push key fp m t.reg.pending same q.keyed;
        once = λ k. ground (arith, push k, at k, unqueued, q.once k);
        new = λ k some_queued. ground (arith, some_queued, push k, static k, q.new k);
        free = λ k some_queued. ground (arith, some_queued, push k, jit k, q.free k);
      }

  -- While a batch runs, an image at an address that is neither queued nor registered joins the
  -- queue, and nothing is published.
  pub macos_add_image-Queue :
      (key fp : ℕ) (m : fh.Module) (t : Tracker fh)
      → Tracked laws t
      → Queue t
      → t.reg.batching ≡ true
      → start m ≡ key
      → keyed_at key t.reg.pending ≡ 0
      → get key t.reg.static_mods ≡ none
      → contains key t.reg.jit_keys ≡ false
      → let after = macos_add_image key fp m t in
        (after ≡ queued key fp m t) × Tracked laws after × Queue after
  unfolding macos_add_image
  macos_add_image-Queue key fp m t v q running same unqueued new free =
      let is : macos_add_image key fp m t ≡ queued key fp m t = rw running refl in
      let pending = t.reg.pending ++ ((key, fp, m) ∷ []) in
      (
        is,
        subst (Tracked laws) (sym is) (with_queue-Tracked t.reg.batching pending t v),
        subst Queue (sym is) (queued-Queue key fp m t q same unqueued new free),
      )
