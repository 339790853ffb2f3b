-- ===== src/Modules/EhFrames.antt =====
-- modules/mod.rs: the two maps between JIT modules' keys and their eh_frame addresses.
use framehopunwind.Base.{
  ℕ, ◌≡◌, ◌≢◌, refl, true, false, Option, none, some, List, get, remove, get-insert, get-remove,
  contains, set_insert, set_remove, contains-set_insert, contains-set_remove, ◌==◌, if◌then◌else◌,
  arith,
}
use framehopunwind.Framehop.{Framehop}
use framehopunwind.Modules.Registry.{
  Registry, names, forget_at, forget_jit_eh_frame, record_eh_frame, add_jit_reg, remove_jit_reg,
}

-- The two maps are inverse to one another, and the keys in them are those of registered modules.
pub record Linked {fh : Framehop} (reg : Registry fh) : Type 0 where
  pub forward :
      (e k : ℕ) → get e reg.jit_by_eh_frame ≡ some k → get k reg.jit_eh_frame_by_key ≡ some e
  pub backward :
      (k e : ℕ) → get k reg.jit_eh_frame_by_key ≡ some e → get e reg.jit_by_eh_frame ≡ some k
  pub registered :
      (k e : ℕ) → get k reg.jit_eh_frame_by_key ≡ some e → contains k reg.jit_keys ≡ true

module _ {fh : Framehop} where
  -- `key` is in neither map of `reg'`, which otherwise has what `reg` has.
  record Forgotten (key : ℕ) (reg reg' : Registry fh) : Type 0 where
    by_key :
        (k : ℕ)
        → get k reg'.jit_eh_frame_by_key
          ≡ (if key == k then none else get k reg.jit_eh_frame_by_key)
    by_eh :
        (e : ℕ)
        → get e reg'.jit_by_eh_frame
          ≡ (if names key (get e reg.jit_by_eh_frame) then none else get e reg.jit_by_eh_frame)
    keys : reg'.jit_keys ≡ reg.jit_keys

  forget_at_lem :
      (key : ℕ) (reg : Registry fh)
      → ((e k : ℕ) → get e reg.jit_by_eh_frame ≡ some k → get k reg.jit_eh_frame_by_key ≡ some e)
      → ((k e : ℕ) → get k reg.jit_eh_frame_by_key ≡ some e → get e reg.jit_by_eh_frame ≡ some k)
      → (r : Option ℕ) → get key reg.jit_eh_frame_by_key ≡ r
      → Forgotten key reg (forget_at key reg r)
  unfolding forget_at
  forget_at_lem key reg forward backward none h = record {
    by_key = λ k. ground arith;
    by_eh = λ e. ground (arith, forward e key);
    keys = refl;
  }
  forget_at_lem key reg forward backward (some e0) h = record {
    by_key = λ k. get-remove key k reg.jit_eh_frame_by_key;
    by_eh =
        λ e. ground (arith, get-remove e0 e reg.jit_by_eh_frame, forward e key, backward key e0);
    keys = refl;
  }

  record_lem :
      (key e0 : ℕ) (reg : Registry fh)
      → Linked reg
      → get key reg.jit_eh_frame_by_key ≡ none
      → contains key reg.jit_keys ≡ true
      → (r : Option ℕ) → get e0 reg.jit_by_eh_frame ≡ r
      → Linked (record_eh_frame key e0 reg r)
  unfolding record_eh_frame
  record_lem key e0 reg l none_yet known none h = record {
    forward = λ e k. ground (
      arith,
      get-insert e0 e key reg.jit_by_eh_frame,
      get-insert key k e0 reg.jit_eh_frame_by_key,
      l.forward e k,
    );
    backward = λ k e. ground (
      arith,
      get-insert e0 e key reg.jit_by_eh_frame,
      get-insert key k e0 reg.jit_eh_frame_by_key,
      l.backward k e,
    );
    registered =
        λ k e. ground (arith, get-insert key k e0 reg.jit_eh_frame_by_key, l.registered k e);
  }
  record_lem key e0 reg l none_yet known (some prev) h = record {
    forward = λ e k. ground (
      arith,
      get-insert e0 e key reg.jit_by_eh_frame,
      get-insert key k e0 (remove prev reg.jit_eh_frame_by_key),
      get-remove prev k reg.jit_eh_frame_by_key,
      l.forward e k,
      l.forward e0 prev,
    );
    backward = λ k e. ground (
      arith,
      get-insert e0 e key reg.jit_by_eh_frame,
      get-insert key k e0 (remove prev reg.jit_eh_frame_by_key),
      get-remove prev k reg.jit_eh_frame_by_key,
      l.backward k e,
    );
    registered = λ k e. ground (
      arith,
      get-insert key k e0 (remove prev reg.jit_eh_frame_by_key),
      get-remove prev k reg.jit_eh_frame_by_key,
      l.registered k e,
    );
  }

  -- The maps of `reg` with the set of registered keys replaced.
  abbrev with_keys : List ℕ → Registry fh → Registry fh
  with_keys keys reg = record reg { jit_keys = keys }

  forget-Forgotten :
      (key : ℕ) (keys : List ℕ) (reg : Registry fh)
      → Linked reg
      → Forgotten key (with_keys keys reg) (forget_jit_eh_frame key (with_keys keys reg))
  unfolding forget_jit_eh_frame
  forget-Forgotten key keys reg l =
      forget_at_lem key (with_keys keys reg) l.forward l.backward (get key reg.jit_eh_frame_by_key)
        refl

  forget-Linked :
      (key : ℕ) (keys : List ℕ) (reg : Registry fh)
      → Linked reg
      → ((k : ℕ) → key ≢ k → contains k reg.jit_keys ≡ true → contains k keys ≡ true)
      → Linked (forget_jit_eh_frame key (with_keys keys reg))
  forget-Linked key keys reg l keep =
      let f = forget-Forgotten key keys reg l in
      record {
        forward = λ e k. ground (arith, f.by_eh e, f.by_key k, l.forward e k);
        backward = λ k e. ground (arith, f.by_eh e, f.by_key k, l.backward k e, l.forward e key);
        registered = λ k e. ground (arith, f.by_key k, f.keys, l.registered k e, keep k);
      }

  record_facts :
      (key e : ℕ) (reg : Registry fh) (r : Option ℕ)
      → (get e (record_eh_frame key e reg r).jit_by_eh_frame ≡ some key)
        × (get key (record_eh_frame key e reg r).jit_eh_frame_by_key ≡ some e)
        × ((record_eh_frame key e reg r).jit_keys ≡ reg.jit_keys)
  unfolding record_eh_frame
  record_facts key e reg none = (
    ground (arith, get-insert e e key reg.jit_by_eh_frame),
    ground (arith, get-insert key key e reg.jit_eh_frame_by_key),
    refl,
  )
  record_facts key e reg (some prev) = (
    ground (arith, get-insert e e key reg.jit_by_eh_frame),
    ground (arith, get-insert key key e (remove prev reg.jit_eh_frame_by_key)),
    refl,
  )

  -- Registering a JIT module keeps the two maps inverse to one another, on record for registered
  -- modules only. Afterwards the eh_frame address leads to the module's key and back, whatever
  -- either was on record for before.
  pub add_jit_reg-Linked :
      (key e : ℕ) (reg : Registry fh)
      → Linked reg
      → Linked (add_jit_reg key e reg)
        × (get e (add_jit_reg key e reg).jit_by_eh_frame ≡ some key)
        × (get key (add_jit_reg key e reg).jit_eh_frame_by_key ≡ some e)
        × ((k : ℕ)
            → contains k (add_jit_reg key e reg).jit_keys
              ≡ (if key == k then true else contains k reg.jit_keys))
  unfolding add_jit_reg
  add_jit_reg-Linked key e reg l =
      let keys = set_insert key reg.jit_keys in
      let f = forget-Forgotten key keys reg l in
      let forgotten = forget_jit_eh_frame key (with_keys keys reg) in
      let facts = record_facts key e forgotten (get e forgotten.jit_by_eh_frame) in
      (
        record_lem key e forgotten
            (forget-Linked key keys reg l
              (λ k ne h. ground (arith, contains-set_insert key k reg.jit_keys)))
            (ground (arith, f.by_key key))
            (ground (arith, f.keys, contains-set_insert key key reg.jit_keys))
            (get e forgotten.jit_by_eh_frame) refl,
        facts.0,
        facts.1,
        λ k. ground (arith, facts.2, f.keys, contains-set_insert key k reg.jit_keys),
      )

  -- Deregistering one keeps that too. The eh_frame address that led to the key leads nowhere any
  -- more, and the others lead where they did.
  pub remove_jit_reg-Linked :
      (key : ℕ) (reg : Registry fh)
      → Linked reg
      → Linked (remove_jit_reg key reg)
        × ((e : ℕ)
            → get e (remove_jit_reg key reg).jit_by_eh_frame
              ≡ (if names key (get e reg.jit_by_eh_frame) then none else get e reg.jit_by_eh_frame))
        × ((k : ℕ)
            → contains k (remove_jit_reg key reg).jit_keys
              ≡ (if key == k then false else contains k reg.jit_keys))
  unfolding remove_jit_reg
  remove_jit_reg-Linked key reg l =
      let f = forget-Forgotten key (set_remove key reg.jit_keys) reg l in
      (
        forget-Linked key (set_remove key reg.jit_keys) reg l
            (λ k ne h. ground (arith, contains-set_remove key k reg.jit_keys)),
        f.by_eh,
        λ k. ground (arith, f.keys, contains-set_remove key k reg.jit_keys),
      )
