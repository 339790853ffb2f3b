-- ===== src/Modules/Jit/Laws.antt =====
-- modules/jit.rs: what a registration does, with every result code.
use framehopunwind.Base.{
  ℕ, ◌-◌, ◌^◌, ◌≤◌, ◌<◌, ◌≡◌, ◌≢◌, ◌⊎◌, inl, inr, refl, ◌||◌, Option, none, some, List, [], ℤ, pos,
  negsuc, ltb, leb, get, ◌==◌, wrapping_add, Bool-cases, arith,
}
use framehopunwind.Framehop.{Framehop, ModuleLaws, default_info, owned}
use framehopunwind.Modules.Published.{
  published_at, module_published, Tracked, add_jit_module-Tracked,
}
use framehopunwind.Modules.Jit.{
  Entry, Jit, Embedder, fde_pc_range, note_fail, jit_info, register_parsed, register_jit_eh_frame,
  register_found, register_jit_eh_frame_auto,
}
use framehopunwind.Modules.Jit.Range.{HasFde, RangeResult, fde_pc_range_lem}

module _ {fh : Framehop} (laws : ModuleLaws fh) (env : Embedder) where
  open laws use {start, start-new_module}

  abbrev pub entries_of : ℕ → ℕ → List Entry
  entries_of ptr len = env.entries (env.bytes_at ptr len) ptr

  -- The section was registered for `[text_lo, text_hi)`: the module published there has that range
  -- and the section's bytes, read at its address.
  pub record Registered (ptr len text_lo text_hi : ℕ) (j j' : Jit fh) : Type 0 where
    pub given : (ptr ≢ 0) × (len ≢ 0) × (text_lo < text_hi) × (text_hi - text_lo < 2 ^ 32)
    pub parsed : (lo : ℕ) × (hi : ℕ) × (fde_pc_range (entries_of ptr len) ≡ some (lo, hi))
    pub tracked : Tracked laws j'.tracker
    pub once : published_at laws j'.tracker text_lo ≡ 1
    pub new_module :
        module_published laws j'.tracker text_lo
        ≡ some (
            fh.new_module []
              (text_lo, text_hi)
              text_lo
              (record default_info {
                base_svma = text_lo;
                eh_frame = some (owned (env.bytes_at ptr len));
                eh_frame_svma = some (ptr, wrapping_add ptr len);
              }))
    pub others :
        (k : ℕ)
        → text_lo ≢ k
        → module_published laws j'.tracker k ≡ module_published laws j.tracker k
    pub failures : j'.register_failures ≡ j.register_failures

  -- Nothing was registered, and the failure was counted.
  pub record Refused (code : ℤ) (j j' : Jit fh) : Type 0 where
    pub same : j'.tracker ≡ j.tracker
    pub counted : j'.register_failures ≡ wrapping_add j.register_failures 1
    pub named : (code ≡ negsuc 0) ⊎ ((code ≡ negsuc 1) ⊎ (code ≡ negsuc 2))

  abbrev pub Outcome : ℕ → ℕ → ℕ → ℕ → Jit fh → ℤ × Jit fh → Type 0
  Outcome ptr len text_lo text_hi j r =
      ((r.0 ≡ pos 0) × Registered ptr len text_lo text_hi j r.1) ⊎ Refused r.0 j r.1

  refuse :
      (n : ℕ) (j : Jit fh)
      → (negsuc n ≡ negsuc 0) ⊎ ((negsuc n ≡ negsuc 1) ⊎ (negsuc n ≡ negsuc 2))
      → Refused (negsuc n) j (note_fail (negsuc n) j).1
  unfolding note_fail
  refuse n j named = record { same = refl; counted = refl; named = named }

  register_parsed_lem :
      (ptr len text_lo text_hi : ℕ) (j : Jit fh)
      → Tracked laws j.tracker
      → get text_lo j.tracker.reg.static_mods ≡ none
      → (ptr ≢ 0) × (len ≢ 0) × (text_lo < text_hi) × (text_hi - text_lo < 2 ^ 32)
      → (r : Option (ℕ × ℕ)) → fde_pc_range (entries_of ptr len) ≡ r
      → Outcome ptr len text_lo text_hi j
          (register_parsed (env.bytes_at ptr len) ptr len text_lo text_hi r j)
  unfolding register_parsed note_fail
  register_parsed_lem ptr len text_lo text_hi j v free given none e =
      inr (refuse 2 j (inr (inr refl)))
  register_parsed_lem ptr len text_lo text_hi j v free given (some (lo, hi)) e =
      let added =
        add_jit_module-Tracked laws text_lo ptr
          (fh.new_module [] (text_lo, text_hi) text_lo
            (jit_info (env.bytes_at ptr len) ptr len text_lo))
          j.tracker v (start-new_module [] text_lo text_hi text_lo _) free in
      inl (
        refl,
        record {
          given = given;
          parsed = (lo, hi, e);
          tracked = added.0;
          once = added.1;
          new_module = added.2;
          others = added.3;
          failures = refl;
        },
      )

  -- `register_jit_eh_frame` on a tracker whose static modules do not start at `text_lo` returns 0
  -- and has published there, once, the module of that range with the section's bytes, which parse,
  -- also in place of one registered before, while the modules elsewhere stay; or it returns -1, -2 or
  -- -3, has counted the failure and changed nothing else.
  pub register_jit_eh_frame_lem :
      (ptr len text_lo text_hi : ℕ) (j : Jit fh)
      → Tracked laws j.tracker
      → get text_lo j.tracker.reg.static_mods ≡ none
      → Outcome ptr len text_lo text_hi j (register_jit_eh_frame env ptr len text_lo text_hi j)
  unfolding register_jit_eh_frame note_fail
  register_jit_eh_frame_lem ptr len text_lo text_hi j v free =
      elim (Bool-cases (ptr == 0 || len == 0 || leb text_hi text_lo)) [
        | inl bad ↦ rw bad (inr (refuse 0 j (inl refl)))
        | inr good ↦ elim (Bool-cases (ltb (2 ^ 32 - 1) (text_hi - text_lo))) [
          | inl large ↦ rw (good, large) (inr (refuse 1 j (inr (inl refl))))
          | inr fits ↦
              rw (good, fits)
                (register_parsed_lem ptr len text_lo text_hi j v free
                  (λ e. ground arith, λ e. ground arith, ground arith, ground arith)
                  (fde_pc_range (entries_of ptr len)) refl)
        ]
      ]

  -- The section was registered for its own range, which covers every FDE.
  pub record RegisteredAll (ptr len : ℕ) (j j' : Jit fh) : Type 0 where
    pub text_lo : ℕ
    pub text_hi : ℕ
    pub whole : Registered ptr len text_lo text_hi j j'
    pub covers : (s e : ℕ) → HasFde s e (entries_of ptr len) → (text_lo ≤ s) × (e ≤ text_hi)

  abbrev pub AutoOutcome : ℕ → ℕ → Jit fh → ℤ × Jit fh → Type 0
  AutoOutcome ptr len j r = ((r.0 ≡ pos 0) × RegisteredAll ptr len j r.1) ⊎ Refused r.0 j r.1

  register_found_lem :
      (ptr len : ℕ) (j : Jit fh)
      → Tracked laws j.tracker
      → (r : Option (ℕ × ℕ)) → RangeResult (entries_of ptr len) r
      → ((lo hi : ℕ) → r ≡ some (lo, hi) → get lo j.tracker.reg.static_mods ≡ none)
      → AutoOutcome ptr len j (register_found env ptr len r j)
  unfolding register_found note_fail
  register_found_lem ptr len j v none range free = inr (refuse 2 j (inr (inr refl)))
  register_found_lem ptr len j v (some (lo, hi)) range free =
      elim (register_jit_eh_frame_lem ptr len lo hi j v (free lo hi refl)) [
        | inl (zero_code, done) ↦
            inl (zero_code, record { text_lo = lo; text_hi = hi; whole = done; covers = range.2 })
        | inr refused ↦ inr refused
      ]

  -- `register_jit_eh_frame_auto`, on a tracker without a static module at the start of the range
  -- that the FDEs span, returns 0 and has published the module of the section's bytes, for a range
  -- that covers all of its FDEs; or it returns -1, -2 or -3, has counted the failure once and changed nothing else.
  pub register_jit_eh_frame_auto_lem :
      (ptr len : ℕ) (j : Jit fh)
      → Tracked laws j.tracker
      → ((lo hi : ℕ)
          → fde_pc_range (entries_of ptr len) ≡ some (lo, hi)
          → get lo j.tracker.reg.static_mods ≡ none)
      → AutoOutcome ptr len j (register_jit_eh_frame_auto env ptr len j)
  unfolding register_jit_eh_frame_auto note_fail
  register_jit_eh_frame_auto_lem ptr len j v free = elim (Bool-cases (ptr == 0 || len == 0)) [
    | inl bad ↦ rw bad (inr (refuse 0 j (inl refl)))
    | inr good ↦ rw good (
        register_found_lem ptr len j v (fde_pc_range (entries_of ptr len))
          (fde_pc_range_lem (entries_of ptr len)) free)
  ]
