-- ===== src/Modules/MachO/Replay.antt =====
-- modules/macho.rs: the installation of the callbacks, which replays the images that are loaded.
use framehopunwind.Base.{
  ℕ, ◌+◌, ◌≡◌, inl, inr, refl, ◌∙◌, ap, Bool, true, false, ◌||◌, Option, none, some, List, [], ◌∷◌,
  get, contains, ◌==◌, if◌then◌else◌, Bool-cases, arith,
}
use framehopunwind.Framehop.{Framehop, ModuleLaws}
use framehopunwind.Publish.{current_unw}
use framehopunwind.Modules.Registry.{Tracker}
use framehopunwind.Modules.Published.{published_at, Tracked}
use framehopunwind.Modules.MacOs.{macos_begin_batch, macos_end_batch}
use framehopunwind.Modules.Batch.{
  keyed_at, keyed_at-push, Queue, empty-Queue, with_queue-Tracked, macos_end_batch-Tracked,
  macos_add_image-Queue,
}
use framehopunwind.Modules.MachO.Image.{build_image}
use framehopunwind.Modules.MachO.Keys.{KeyedStart, build_image-KeyedStart}
use framehopunwind.Modules.MachO.{Callbacks, add_built, on_add_image, replay, init_callbacks}

-- Whether an image that was parsed is to be published at `k`.
abbrev pub adds_at {ℓ} : {M : Type ℓ} → ℕ → Option (ℕ × ℕ × Option M) → Bool
adds_at k none = false
adds_at k (some (key, fp, none)) = false
adds_at k (some (key, fp, some m)) = key == k

module _ {fh : Framehop} (laws : ModuleLaws fh) (mem : ℕ → ℕ) where
  abbrev pub parsed : ℕ × ℕ → Option (ℕ × ℕ × Option fh.Module)
  parsed (header, slide) = if header == 0 then none else build_image fh mem header slide

  -- Whether some loaded image has a module to publish at `k`.
  abbrev pub has_image : ℕ → List (ℕ × ℕ) → Bool
  has_image k [] = false
  has_image k (i ∷ l) = adds_at k (parsed i) || has_image k l

  abbrev pub NotLater : Option (ℕ × ℕ × Option fh.Module) → List (ℕ × ℕ) → Type 0
  NotLater none l = Unit
  NotLater (some (key, fp, none)) l = Unit
  NotLater (some (key, fp, some m)) l = has_image key l ≡ false

  -- No two images have a module at the same address.
  abbrev pub ImagesDiffer : List (ℕ × ℕ) → Type 0
  ImagesDiffer [] = Unit
  ImagesDiffer (i ∷ l) = NotLater (parsed i) l × ImagesDiffer l

  -- Nothing is queued or registered at `k`.
  abbrev pub Vacant : Tracker fh → ℕ → Type 0
  Vacant t k =
      (keyed_at k t.reg.pending ≡ 0)
      × (get k t.reg.static_mods ≡ none)
      × (contains k t.reg.jit_keys ≡ false)

  -- The tracker after the replay of images whose modules stand where `adds` says.
  record Replayed (adds : ℕ → Bool) (t after : Tracker fh) : Type 0 where
    tracked : Tracked laws after
    queue : Queue laws after
    running : after.reg.batching ≡ true
    static : after.reg.static_mods ≡ t.reg.static_mods
    jit : after.reg.jit_keys ≡ t.reg.jit_keys
    same : after.published ≡ t.published
    counted :
        (k : ℕ)
        → keyed_at k after.reg.pending ≡ keyed_at k t.reg.pending + (if adds k then 1 else 0)

  idle-Replayed :
      (t : Tracker fh)
      → Tracked laws t
      → Queue laws t
      → t.reg.batching ≡ true
      → Replayed (λ k. false) t t
  idle-Replayed t v q running = record {
    tracked = v;
    queue = q;
    running = running;
    static = refl;
    jit = refl;
    same = refl;
    counted = λ k. omega arith;
  }

  add_built-Replayed :
      (o : Option (ℕ × ℕ × Option fh.Module)) (t : Tracker fh)
      → KeyedStart fh mem laws o
      → Tracked laws t
      → Queue laws t
      → t.reg.batching ≡ true
      → ((k : ℕ) → adds_at k o ≡ true → Vacant t k)
      → Replayed (λ k. adds_at k o) t (add_built o t)
  add_built-Replayed none t start v q running vacant = idle-Replayed t v q running
  add_built-Replayed (some (key, fp, none)) t start v q running vacant = idle-Replayed t v q running
  add_built-Replayed (some (key, fp, some m)) t start v q running vacant =
      let (unqueued, new, free) = vacant key (ground arith) in
      let (is, tracked, queue) =
        macos_add_image-Queue laws key fp m t v q running start unqueued new free in
      record {
        tracked = tracked;
        queue = queue;
        running = ap (λ t'. t'.reg.batching) is ∙ running;
        static = ap (λ t'. t'.reg.static_mods) is;
        jit = ap (λ t'. t'.reg.jit_keys) is;
        same = ap (λ t'. t'.published) is;
        counted =
            λ k. ap (λ t'. keyed_at k t'.reg.pending) is ∙ keyed_at-push k key fp m t.reg.pending;
      }

  pub parsed-KeyedStart : (i : ℕ × ℕ) → KeyedStart fh mem laws (parsed i)
  parsed-KeyedStart (header, slide) = elim (Bool-cases (header == 0)) [
    | inl null ↦ rw null tt
    | inr there ↦ rw there (build_image-KeyedStart fh mem laws header slide)
  ]

  pub on_add_image-add_built :
      (header slide : ℕ) (t : Tracker fh)
      → on_add_image mem header slide t ≡ add_built (parsed (header, slide)) t
  unfolding on_add_image
  on_add_image-add_built header slide t = elim (Bool-cases (header == 0)) [
    | inl null ↦ rw null refl
    | inr there ↦ rw there refl
  ]

  step-vacant :
      (o : Option (ℕ × ℕ × Option fh.Module)) (l : List (ℕ × ℕ)) (k : ℕ)
      → NotLater o l
      → has_image k l ≡ true
      → adds_at k o ≡ false
  step-vacant none l k differ later = refl
  step-vacant (some (key, fp, none)) l k differ later = refl
  step-vacant (some (key, fp, some m)) l k differ later = elim (Bool-cases (key == k)) [
    | inl same ↦
        let e : has_image key l ≡ has_image k l = ap (λ x. has_image x l) (ground (arith, same)) in
        absurd (ground (arith, differ, later, e))
    | inr other ↦ other
  ]

  replay-Replayed :
      (l : List (ℕ × ℕ)) (t : Tracker fh)
      → ImagesDiffer l
      → Tracked laws t
      → Queue laws t
      → t.reg.batching ≡ true
      → ((k : ℕ) → has_image k l ≡ true → Vacant t k)
      → Replayed (λ k. has_image k l) t (replay mem l t)
  unfolding replay
  replay-Replayed [] t differ v q running vacant = idle-Replayed t v q running
  replay-Replayed (i ∷ l) t (here, differ) v q running vacant =
      let o = parsed i in
      let next = add_built o t in
      let r =
        add_built-Replayed o t (parsed-KeyedStart i) v q running
          (λ k adds. vacant k (ground (arith, adds))) in
      let rest = replay-Replayed l next differ r.tracked r.queue r.running (λ k later.
        let (unqueued, new, free) = vacant k (ground (arith, later)) in
        let other = step-vacant o l k here later in
        (
          r.counted k ∙ ground (arith, unqueued, other),
          ap (get k) r.static ∙ new,
          ap (λ s. contains k s) r.jit ∙ free,
        )) in
      rw (replay, on_add_image-add_built i.0 i.1 t)
        (record {
          tracked = rest.tracked;
          queue = rest.queue;
          running = rest.running;
          static = rest.static ∙ r.static;
          jit = rest.jit ∙ r.jit;
          same = rest.same ∙ r.same;
          counted = λ k.
              let other = step-vacant o l k here in
              rest.counted k ∙ ground (arith, r.counted k, other);
        })

  pub init_callbacks-Replayed :
      (l later : List (ℕ × ℕ)) (s : Callbacks fh)
      → s.installed ≡ false
      → s.tracker.reg.pending ≡ []
      → Tracked laws s.tracker
      → ImagesDiffer l
      → ((k : ℕ) → has_image k l ≡ true → get k s.tracker.reg.static_mods ≡ none)
      → ((k : ℕ) → has_image k l ≡ true → contains k s.tracker.reg.jit_keys ≡ false)
      → let after = init_callbacks mem l s in
        Tracked laws after.tracker
        × ((k : ℕ)
            → published_at laws after.tracker k
              ≡ (if has_image k l then 1 else 0) + published_at laws s.tracker k)
        × (after.tracker.reg.pending ≡ [])
        × (after.tracker.reg.batching ≡ false)
        × (init_callbacks mem later after ≡ after)
  unfolding init_callbacks macos_begin_batch
  init_callbacks-Replayed l later s first empty v differ new free =
      let t = macos_begin_batch s.tracker in
      let none_queued : (k : ℕ) → keyed_at k t.reg.pending ≡ 0 = λ k. ap (keyed_at k) empty in
      let r =
        replay-Replayed l t differ (with_queue-Tracked laws true s.tracker.reg.pending s.tracker v)
          (empty-Queue laws t empty) refl (λ k has. (none_queued k, new k has, free k has)) in
      let (tracked, cnt, none_left, over, jit) =
        macos_end_batch-Tracked laws (replay mem l t) r.tracked r.queue in
      let published : (k : ℕ)
          → published_at laws (macos_end_batch (replay mem l t)) k
            ≡ (if has_image k l then 1 else 0) + published_at laws s.tracker k =
        λ k.
          let same = ap (λ c. laws.count_at (current_unw c) k) r.same in
          cnt k ∙ ground (arith, none_queued k, r.counted k, same) in
      rw first (tracked, published, none_left, over, refl)
