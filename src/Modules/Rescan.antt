-- ===== src/Modules/Rescan.antt =====
-- modules/mod.rs: what `refresh` publishes.
use framehopunwind.Base.{
  ℕ, ◌+◌, ◌-◌, ◌≡◌, inl, inr, refl, sym, ◌∙◌, ap, subst, Bool, true, ◌&&◌, get, contains,
  contains_key, count, if◌then◌else◌, Bool-cases, arith,
}
use framehopunwind.Framehop.{Framehop, ModuleLaws}
use framehopunwind.Publish.{current_unw, with_writer}
use framehopunwind.Modules.Registry.{Tracker}
use framehopunwind.Modules.Published.{published_at, Tracked}
use framehopunwind.Modules.Refresh.{
  EnumResult, keys_where, is_gone, is_changed, remove_all, add_all, refresh_unw, apply_enum,
  is_empty,
}
use framehopunwind.Modules.Counts.{
  is_kept, count-keys_where, count-is_empty, one_key, one_key_le, starts_at, Scanned,
  remove_all-count, add_all-count, remove_static-count, starts_at-is_empty,
}

module _ {fh : Framehop} (laws : ModuleLaws fh) where
  open laws use {start, count_at, count_at-add, count_at-remove}

  -- The modules of the unwinder that `refresh` publishes.
  refresh_unw-count :
      (t : Tracker fh) (res : EnumResult fh)
      → Tracked laws t
      → Scanned laws res t
      → (k : ℕ)
      → count_at
          (refresh_unw fh t.reg.jit_keys
            (keys_where (is_changed res.current) t.reg.static_mods)
            res.new_modules
            (keys_where (is_gone res.current) t.reg.static_mods)
            (current_unw t.published))
          k
        ≡ (if contains k t.reg.jit_keys
            then published_at laws t k
            else starts_at laws k res.new_modules
              + (if is_kept (get k res.current) (get k t.reg.static_mods)
                  then published_at laws t k
                  else 0))
  unfolding refresh_unw is_changed is_gone contains_key
  refresh_unw-count t res v ok k =
      let changed = keys_where (is_changed res.current) t.reg.static_mods in
      let gone = keys_where (is_gone res.current) t.reg.static_mods in
      let unw = current_unw t.published in
      remove_static-count laws t.reg.jit_keys k gone
        (add_all fh res.new_modules (remove_all fh changed unw))
      ∙ one_key (contains k t.reg.jit_keys) (get k res.current) (get k t.reg.static_mods)
          (starts_at laws k res.new_modules) (published_at laws t k)
          (count_at (add_all fh res.new_modules (remove_all fh changed unw)) k) (count k changed)
          (count k gone)
          (add_all-count laws k res.new_modules (remove_all fh changed unw)
            ∙ ap (λ x. starts_at laws k res.new_modules + x) (remove_all-count laws k changed unw))
          (count-keys_where (is_changed res.current) k t.reg.static_mods v.distinct)
          (count-keys_where (is_gone res.current) k t.reg.static_mods v.distinct) (ok.fresh k)
          (v.bounded k) (v.disjoint k) (ok.apart k) (v.listed k)

  -- How many modules at `k` a refresh leaves published.
  abbrev pub refreshed_at : ℕ → EnumResult fh → Tracker fh → ℕ
  refreshed_at k res t =
      if contains k t.reg.jit_keys
      then published_at laws t k
      else starts_at laws k res.new_modules
        + (if is_kept (get k res.current) (get k t.reg.static_mods)
            then published_at laws t k
            else 0)

  -- The tracker after a refresh that found a difference.
  abbrev republished : EnumResult fh → Tracker fh → Tracker fh
  republished res t = record {
    reg = record (t.reg) { static_mods = res.current };
    published =
        with_writer
          (refresh_unw fh t.reg.jit_keys (keys_where (is_changed res.current) t.reg.static_mods)
            res.new_modules (keys_where (is_gone res.current) t.reg.static_mods))
          t.published;
  }

  abbrev nothing_to_do : EnumResult fh → Tracker fh → Bool
  nothing_to_do res t =
      is_empty res.new_modules
      && is_empty (keys_where (is_gone res.current) t.reg.static_mods)
      && is_empty (keys_where (is_changed res.current) t.reg.static_mods)

  republished-Tracked :
      (res : EnumResult fh) (t : Tracker fh)
      → Tracked laws t
      → Scanned laws res t
      → Tracked laws (republished res t)
        × ((k : ℕ) → published_at laws (republished res t) k ≡ refreshed_at k res t)
  unfolding with_writer
  republished-Tracked res t v ok =
      let cnt = refresh_unw-count t res v ok in
      (
        record {
          disjoint = ok.apart;
          jit_once = λ k. ground (arith, cnt k, v.jit_once k);
          bounded = λ k. ground (
            arith,
            cnt k,
            v.bounded k,
            one_key_le (get k res.current) (get k t.reg.static_mods)
                (starts_at laws k res.new_modules) (published_at laws t k) (ok.fresh k)
                (v.bounded k),
          );
          listed = λ k. ground (arith, cnt k, ok.fresh k);
          distinct = ok.once;
          linked = record {
            forward = v.linked.forward;
            backward = v.linked.backward;
            registered = v.linked.registered;
          };
        },
        cnt,
      )

  all_true : (a b c : Bool) → (a && b && c) ≡ true → (a ≡ true) × (b ≡ true) × (c ≡ true)
  all_true a b c h = (ground arith, ground arith, ground arith)

  unchanged_at :
      (res : EnumResult fh) (t : Tracker fh)
      → Tracked laws t
      → Scanned laws res t
      → nothing_to_do res t ≡ true
      → (k : ℕ) → published_at laws t k ≡ refreshed_at k res t
  unfolding is_changed is_gone contains_key
  unchanged_at res t v ok none_found k =
      let changed = keys_where (is_changed res.current) t.reg.static_mods in
      let gone = keys_where (is_gone res.current) t.reg.static_mods in
      let n = starts_at laws k res.new_modules in
      let w = published_at laws t k in
      let all = all_true (is_empty res.new_modules) (is_empty gone) (is_empty changed) none_found in
      let n0 : n ≡ 0 = starts_at-is_empty laws k res.new_modules all.0 in
      let g0 : count k gone ≡ 0 = count-is_empty k gone all.1 in
      let c0 : count k changed ≡ 0 = count-is_empty k changed all.2 in
      ground (arith, n0, g0, c0)
      ∙ one_key (contains k t.reg.jit_keys) (get k res.current) (get k t.reg.static_mods) n w
          (n + (w - count k changed)) (count k changed) (count k gone) refl
          (count-keys_where (is_changed res.current) k t.reg.static_mods v.distinct)
          (count-keys_where (is_gone res.current) k t.reg.static_mods v.distinct) (ok.fresh k)
          (v.bounded k) (v.disjoint k) (ok.apart k) (v.listed k)

  -- A refresh keeps the registry consistent with what is published. It leaves the JIT modules alone;
  -- of the others it publishes the new ones and those that are still loaded with the fingerprint
  -- they had, and no more.
  pub apply_enum-Tracked :
      (res : EnumResult fh) (t : Tracker fh)
      → Tracked laws t
      → Scanned laws res t
      → Tracked laws (apply_enum res t)
        × ((k : ℕ) → published_at laws (apply_enum res t) k ≡ refreshed_at k res t)
  unfolding apply_enum
  apply_enum-Tracked res t v ok = elim (Bool-cases (nothing_to_do res t)) [
    | inl idle ↦
        let is : apply_enum res t ≡ t =
          subst (λ b. (if b then t else republished res t) ≡ t) (sym idle) refl in
        (
          subst (Tracked laws) (sym is) v,
          λ k. ap (λ t'. published_at laws t' k) is ∙ unchanged_at res t v ok idle k,
        )
    | inr busy ↦
        let is : apply_enum res t ≡ republished res t =
          subst (λ b. (if b then t else republished res t) ≡ republished res t) (sym busy) refl in
        let r = republished-Tracked res t v ok in
        (subst (Tracked laws) (sym is) r.0, λ k. ap (λ t'. published_at laws t' k) is ∙ r.1 k)
  ]
