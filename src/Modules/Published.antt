-- ===== src/Modules/Published.antt =====
-- modules/mod.rs: which modules the published unwinder has, after each operation.
use framehopunwind.Base.{
  ℕ, ◌+◌, ◌-◌, ◌≤◌, ◌≡◌, ◌≢◌, inl, inr, refl, sym, ◌∙◌, ap, subst, set_insert, set_remove, Bool,
  true, false, not, ◌&&◌, Option, none, some, get, contains, Distinct, ◌==◌, if◌then◌else◌,
  Bool-cases, arith,
}
use framehopunwind.Framehop.{Framehop, ModuleLaws}
use framehopunwind.Publish.{current_unw, with_writer}
use framehopunwind.Modules.Registry.{
  Registry, Tracker, initial_tracker, names, add_jit_unw, add_jit_reg, forget_at,
  forget_jit_eh_frame, record_eh_frame, add_jit_module, remove_jit_reg, remove_jit_locked,
  remove_jit_module, remove_jit_found, remove_jit_module_by_eh_frame,
}
use framehopunwind.Modules.EhFrames.{Linked, add_jit_reg-Linked, remove_jit_reg-Linked}

module _ {fh : Framehop} (laws : ModuleLaws fh) where
  open laws use {
    start, count_at, count_at-new, count_at-add, count_at-remove, module_at, module_at-add,
    module_at-add_other, module_at-remove_other,
  }

  -- How many modules of the published unwinder start at `k`.
  abbrev pub published_at : Tracker fh → ℕ → ℕ
  published_at t k = count_at (current_unw t.published) k

  -- The module of the published unwinder that starts at `k`.
  abbrev pub module_published : Tracker fh → ℕ → Option fh.Module
  module_published t k = module_at (current_unw t.published) k

  -- The registry is consistent with what is published: each JIT module is published once, no address
  -- has two modules, and none has a module that is neither a JIT nor a static one; no address is that
  -- of a JIT and of a static module; and the two maps of eh_frame addresses agree. (A static entry
  -- may have no module: an image of which none could be built is recorded too.)
  pub record Tracked (t : Tracker fh) : Type 0 where
    pub disjoint : (k : ℕ) → contains k t.reg.jit_keys ≡ true → get k t.reg.static_mods ≡ none
    pub jit_once : (k : ℕ) → contains k t.reg.jit_keys ≡ true → published_at t k ≡ 1
    pub bounded : (k : ℕ) → published_at t k ≤ 1
    pub listed :
        (k : ℕ)
        → contains k t.reg.jit_keys ≡ false
        → get k t.reg.static_mods ≡ none
        → published_at t k ≡ 0
    pub distinct : Distinct t.reg.static_mods
    pub linked : Linked t.reg

  -- Before the first call, with nothing registered and nothing published, that holds.
  pub initial_tracker-Tracked : Tracked (initial_tracker fh)
  unfolding get contains current_unw
  initial_tracker-Tracked = record {
    disjoint = λ k h. refl;
    jit_once = λ k. ground arith;
    bounded = λ k. omega (arith, count_at-new k);
    listed = λ k jit static. count_at-new k;
    distinct = tt;
    linked = record {
      forward = λ e k. ground arith;
      backward = λ k e. ground arith;
      registered = λ k e. ground arith;
    };
  }

  add_jit_unw-count :
      (known : Bool) (key : ℕ) (m : fh.Module) (u : fh.Unwinder) (k : ℕ)
      → start m ≡ key
      → count_at (add_jit_unw fh known key m u) k
        ≡ (if key == k then 1 else 0)
          + (if known then count_at u k - (if key == k then 1 else 0) else count_at u k)
  unfolding add_jit_unw
  add_jit_unw-count true key m u k e =
      count_at-add (fh.remove_module u key) m k ∙ ground (arith, count_at-remove u key k)
  add_jit_unw-count false key m u k e = count_at-add u m k ∙ ground arith

  added-module :
      (key : ℕ) (m : fh.Module) (u : fh.Unwinder)
      → start m ≡ key
      → count_at u key ≡ 0
      → module_at (fh.add_module u m) key ≡ some m
  added-module key m u e none_there =
      subst (λ k. module_at (fh.add_module u m) k ≡ some m) e
        (module_at-add u m (ap (count_at u) e ∙ none_there))

  -- The module itself is what is published at its address, and those elsewhere stay.
  add_jit_unw-module :
      (known : Bool) (key : ℕ) (m : fh.Module) (u : fh.Unwinder)
      → start m ≡ key
      → count_at u key ≡ (if known then 1 else 0)
      → (module_at (add_jit_unw fh known key m u) key ≡ some m)
        × ((k : ℕ) → key ≢ k → module_at (add_jit_unw fh known key m u) k ≡ module_at u k)
  unfolding add_jit_unw
  add_jit_unw-module true key m u e once = (
    added-module key m (fh.remove_module u key) e (ground (arith, count_at-remove u key key, once)),
    λ k ne.
        module_at-add_other (fh.remove_module u key) m k (λ at. ne (sym e ∙ at))
        ∙ module_at-remove_other u key k ne,
  )
  add_jit_unw-module false key m u e absent =
      (added-module key m u e absent, λ k ne. module_at-add_other u m k (λ at. ne (sym e ∙ at)))

  forget_at_static :
      (key : ℕ) (reg : Registry fh) (r : Option ℕ)
      → (forget_at key reg r).static_mods ≡ reg.static_mods
  unfolding forget_at
  forget_at_static key reg none = refl
  forget_at_static key reg (some e) = refl

  record_eh_static :
      (key e : ℕ) (reg : Registry fh) (r : Option ℕ)
      → (record_eh_frame key e reg r).static_mods ≡ reg.static_mods
  unfolding record_eh_frame
  record_eh_static key e reg none = refl
  record_eh_static key e reg (some p) = refl

  add_static :
      (key e : ℕ) (reg : Registry fh) → (add_jit_reg key e reg).static_mods ≡ reg.static_mods
  unfolding add_jit_reg forget_jit_eh_frame
  add_static key e reg =
      record_eh_static key e
        (forget_at key (record reg { jit_keys = set_insert key reg.jit_keys })
          (get key reg.jit_eh_frame_by_key))
        _
      ∙ forget_at_static key (record reg { jit_keys = set_insert key reg.jit_keys })
          (get key reg.jit_eh_frame_by_key)

  remove_static_mods :
      (key : ℕ) (reg : Registry fh) → (remove_jit_reg key reg).static_mods ≡ reg.static_mods
  unfolding remove_jit_reg forget_jit_eh_frame
  remove_static_mods key reg =
      forget_at_static key (record reg { jit_keys = set_remove key reg.jit_keys })
        (get key reg.jit_eh_frame_by_key)

  -- Registering a JIT module under its start address, which is no static module's: that module is
  -- what is published there afterwards, once, also if another was registered there before; the
  -- modules published elsewhere stay, the eh_frame address leads to it, and the registry stays
  -- consistent with what is published.
  pub add_jit_module-Tracked :
      (key e : ℕ) (m : fh.Module) (t : Tracker fh)
      → Tracked t
      → start m ≡ key
      → get key t.reg.static_mods ≡ none
      → let after = add_jit_module key e m t in
        Tracked after
        × (published_at after key ≡ 1)
        × (module_published after key ≡ some m)
        × ((k : ℕ) → key ≢ k → module_published after k ≡ module_published t k)
        × (get e after.reg.jit_by_eh_frame ≡ some key)
  unfolding add_jit_module with_writer
  add_jit_module-Tracked key e m t v same free =
      let u = current_unw t.published in
      let l = add_jit_reg-Linked key e t.reg v.linked in
      let static = add_static key e t.reg in
      let at_most : count_at u key ≡ (if contains key t.reg.jit_keys then 1 else 0) =
        ground (arith, v.jit_once key, v.listed key, free) in
      let cnt : (k : ℕ)
          → published_at (add_jit_module key e m t) k ≡ (if key == k then 1 else published_at t k) =
        λ k.
          add_jit_unw-count (contains key t.reg.jit_keys) key m u k same
          ∙ ground (arith, v.jit_once key, v.listed key, v.bounded key) in
      (
        record {
          disjoint = λ k. ground (arith, l.3 k, static, v.disjoint k);
          jit_once = λ k. ground (arith, l.3 k, cnt k, v.jit_once k);
          bounded = λ k. ground (arith, cnt k, v.bounded k);
          listed = λ k. ground (arith, l.3 k, static, cnt k, v.listed k);
          distinct = subst Distinct (sym static) v.distinct;
          linked = l.0;
        },
        ground (arith, cnt key),
        (add_jit_unw-module (contains key t.reg.jit_keys) key m u same at_most).0,
        (add_jit_unw-module (contains key t.reg.jit_keys) key m u same at_most).1,
        l.1,
      )

  -- The tracker without the JIT module of `key`.
  abbrev without : ℕ → Tracker fh → Tracker fh
  without key t = record {
    reg = remove_jit_reg key t.reg;
    published = with_writer (λ unw. fh.remove_module unw key) t.published;
  }

  remove_known :
      (key : ℕ) (t : Tracker fh)
      → contains key t.reg.jit_keys ≡ true
      → remove_jit_module key t ≡ without key t
  unfolding remove_jit_module remove_jit_locked
  remove_known key t known =
      subst (λ b. (if not b then t else without key t) ≡ without key t) (sym known) refl

  remove_unknown :
      (key : ℕ) (t : Tracker fh) → contains key t.reg.jit_keys ≡ false → remove_jit_module key t ≡ t
  unfolding remove_jit_module remove_jit_locked
  remove_unknown key t unknown =
      subst (λ b. (if not b then t else without key t) ≡ t) (sym unknown) refl

  without-Tracked :
      (key : ℕ) (t : Tracker fh)
      → Tracked t
      → contains key t.reg.jit_keys ≡ true
      → Tracked (without key t)
        × ((k : ℕ) → published_at (without key t) k ≡ (if key == k then 0 else published_at t k))
  unfolding with_writer
  without-Tracked key t v known =
      let l = remove_jit_reg-Linked key t.reg v.linked in
      let static = remove_static_mods key t.reg in
      let cnt : (k : ℕ)
          → published_at (without key t) k ≡ (if key == k then 0 else published_at t k) =
        λ k. ground (
          arith,
          known,
          count_at-remove (current_unw t.published) key k,
          v.bounded key,
          v.bounded k,
        ) in
      (
        record {
          disjoint = λ k. ground (arith, l.2 k, static, v.disjoint k);
          jit_once = λ k. ground (arith, l.2 k, cnt k, v.jit_once k);
          bounded = λ k. ground (arith, cnt k, v.bounded k);
          listed = λ k. ground (arith, l.2 k, static, cnt k, v.listed k);
          distinct = subst Distinct (sym static) v.distinct;
          linked = l.0;
        },
        cnt,
      )

  -- Deregistering the module with a key keeps the registry consistent with what is published. A
  -- registered one is published no more; without one of that key nothing changes.
  pub remove_jit_module-Tracked :
      (key : ℕ) (t : Tracker fh)
      → Tracked t
      → Tracked (remove_jit_module key t)
        × ((k : ℕ)
            → published_at (remove_jit_module key t) k
              ≡ (if (key == k) && contains key t.reg.jit_keys then 0 else published_at t k))
        × (contains key t.reg.jit_keys ≡ false → remove_jit_module key t ≡ t)
  remove_jit_module-Tracked key t v = elim (Bool-cases (contains key t.reg.jit_keys)) [
    | inl known ↦ (
      subst Tracked (sym (remove_known key t known)) (without-Tracked key t v known).0,
      λ k.
          ap (λ t'. published_at t' k) (remove_known key t known)
          ∙ ground (arith, known, (without-Tracked key t v known).1 k),
      λ unknown. remove_unknown key t unknown,
    )
    | inr unknown ↦ (
      subst Tracked (sym (remove_unknown key t unknown)) v,
      λ k. ap (λ t'. published_at t' k) (remove_unknown key t unknown) ∙ ground (arith, unknown),
      λ _. remove_unknown key t unknown,
    )
  ]

  remove_found-Tracked :
      (e : ℕ) (t : Tracker fh)
      → Tracked t
      → (r : Option ℕ) → get e t.reg.jit_by_eh_frame ≡ r
      → Tracked (remove_jit_found r t)
        × (get e (remove_jit_found r t).reg.jit_by_eh_frame ≡ none)
        × ((k : ℕ)
            → published_at (remove_jit_found r t) k ≡ (if names k r then 0 else published_at t k))
  unfolding remove_jit_found remove_jit_module
  remove_found-Tracked e t v none h = (v, h, λ k. refl)
  remove_found-Tracked e t v (some key) h =
      let known = v.linked.registered key e (v.linked.forward e key h) in
      let is = remove_known key t known in
      let w = without-Tracked key t v known in
      (
        subst Tracked (sym is) w.0,
        ap (λ t'. get e t'.reg.jit_by_eh_frame) is
            ∙ ground (arith, (remove_jit_reg-Linked key t.reg v.linked).1 e),
        λ k. ap (λ t'. published_at t' k) is ∙ w.1 k,
      )

  -- The same, with the module named by its eh_frame address: the one on record for that address
  -- goes, and the address is on record for no module afterwards.
  pub remove_jit_module_by_eh_frame-Tracked :
      (e : ℕ) (t : Tracker fh)
      → Tracked t
      → Tracked (remove_jit_module_by_eh_frame e t)
        × (get e (remove_jit_module_by_eh_frame e t).reg.jit_by_eh_frame ≡ none)
        × ((k : ℕ)
            → published_at (remove_jit_module_by_eh_frame e t) k
              ≡ (if names k (get e t.reg.jit_by_eh_frame) then 0 else published_at t k))
  unfolding remove_jit_module_by_eh_frame
  remove_jit_module_by_eh_frame-Tracked e t v =
      remove_found-Tracked e t v (get e t.reg.jit_by_eh_frame) refl
