-- ===== src/Slots/Growth.antt =====
-- state.rs: `ensure_slots`, `init` and `thread_registered` grow the pool and disturb no slot.
use framehopunwind.Base.{
  ℕ, zero, suc, ◌+◌, ◌*◌, ◌/◌, ◌%◌, ◌≤◌, ◌<◌, min, ◌≡◌, ◌⊎◌, refl, ◌∙◌, true, Option, none, some,
  List, [], ◌∷◌, Bool-cases, inl, inr, ltb, if◌then◌else◌, get_elem?, get_elem?-set_self,
  get_elem?-set_ne, get_elem?-replicate, length, length-set, length-replicate, set, replicate,
  dec_lt, ℕ_discrete, arith,
}
use framehopunwind.Target.{Arch}
use framehopunwind.Framehop.{Framehop}
use framehopunwind.Slots.{
  Slot, Pool, new_slot, add_chunk, needs_chunk, ensure_slots_loop, ensure_slots, slot_chunk, slot,
  flat_option, initial_pool,
}
use framehopunwind.Slots.Layout.{Published, IsPool, is_some-slot}

module _ {fh : Framehop} where
  Published-le : (k : ℕ) (l : List (Option (List (Slot fh)))) → Published k l → k ≤ length l
  Published-le k [] h = omega arith
  Published-le zero (o ∷ l) h = omega arith
  Published-le (suc k) (none ∷ l) h = elim h [ ]
  Published-le (suc k) (some c ∷ l) h = omega (arith, Published-le k l h.1)

  pub IsPool-le : (p : Pool fh) → IsPool p → p.slots_allocated ≤ 1024
  IsPool-le p v =
      omega
        (arith, Published-le (p.slots_allocated / 16) p.slot_chunks v.published, v.whole, v.table)

  set-Published :
      (k : ℕ) (l : List (Option (List (Slot fh)))) (c : List (Slot fh))
      → Published k l
      → k < length l
      → length c ≡ 16
      → Published (suc k) (set l k (some c))
  set-Published k [] c h lt e = elim lt [ ]
  set-Published zero (none ∷ l) c h lt e = (e, h)
  set-Published zero (some d ∷ l) c h lt e = elim h [ ]
  set-Published (suc k) (none ∷ l) c h lt e = elim h [ ]
  set-Published (suc k) (some d ∷ l) c h lt e = (h.0, set-Published k l c h.1 (omega arith) e)

  Published-none :
      (k : ℕ) (l : List (Option (List (Slot fh))))
      → Published k l
      → (i : ℕ) → k ≤ i
      → flat_option (get_elem? l i) ≡ none
  Published-none k [] h i le = refl
  Published-none zero (none ∷ l) h zero le = refl
  Published-none zero (none ∷ l) h (suc i) le = Published-none zero l h i (omega arith)
  Published-none zero (some d ∷ l) h i le = elim h [ ]
  Published-none (suc k) (none ∷ l) h i le = elim h [ ]
  Published-none (suc k) (some d ∷ l) h zero le = elim le [ ]
  Published-none (suc k) (some d ∷ l) h (suc i) le = Published-none k l h.1 i (omega arith)

module _ (arch : Arch) (fh : Framehop) where
  add_chunk-IsPool :
      (p : Pool fh) → IsPool p → p.slots_allocated < 1024 → IsPool (add_chunk arch fh p)
  unfolding add_chunk
  add_chunk-IsPool p v lt = record {
    whole = omega (arith, v.whole);
    published =
        rw (let e : (p.slots_allocated + 16) / 16 ≡ suc (p.slots_allocated / 16) = omega arith in e)
          (set-Published (p.slots_allocated / 16) p.slot_chunks _ v.published
            (omega (arith, v.table)) (length-replicate 16 (new_slot arch fh)));
    table = length-set p.slot_chunks (p.slots_allocated / 16) _ ∙ v.table;
  }

  -- What `slot` finds when the pool has grown from `m` to `n` slots.
  abbrev pub grown : Pool fh → ℕ → ℕ → Option (Slot fh)
  grown p n i =
      if ltb i p.slots_allocated
      then slot i p
      else if ltb i n
      then some (new_slot arch fh)
      else none

  slot-add_chunk :
      (p : Pool fh) (i : ℕ)
      → IsPool p
      → p.slots_allocated < 1024
      → slot i (add_chunk arch fh p) ≡ grown p (p.slots_allocated + 16) i
  unfolding add_chunk slot slot_chunk
  slot-add_chunk p i v lt = elim (ℕ_discrete (p.slots_allocated / 16) (i / 16)) [
    | yes same ↦ rw (← same) (
        rw
          (get_elem?-set_self p.slot_chunks (p.slots_allocated / 16)
            (some (replicate 16 (new_slot arch fh)))
            (omega
              (arith, v.table, Published-le (p.slots_allocated / 16) p.slot_chunks v.published)))
          (ground (arith, get_elem?-replicate 16 (i % 16) (new_slot arch fh), v.whole)))
    | no other ↦
        rw (get_elem?-set_ne p.slot_chunks (some (replicate 16 (new_slot arch fh))) other)
          (elim (dec_lt i p.slots_allocated) [
            | yes old ↦ ground arith
            | no new ↦
                rw
                  (Published-none (p.slots_allocated / 16) p.slot_chunks v.published (i / 16)
                    (omega arith))
                  (ground (arith, v.whole))
          ])
  ]

  -- `q` is `p` grown to hold `n` slots, or as many as the table can hold.
  pub record Grows (n : ℕ) (p q : Pool fh) : Type 0 where
    pub valid : IsPool q
    pub enough : min n 1024 ≤ q.slots_allocated
    pub grew : p.slots_allocated ≤ q.slots_allocated
    pub tight : (q.slots_allocated < n + 16) ⊎ (q.slots_allocated ≡ p.slots_allocated)
    pub kept : (i : ℕ) → slot i q ≡ grown p q.slots_allocated i

  slot_beyond : (p : Pool fh) (i : ℕ) → IsPool p → slot i p ≡ grown p p.slots_allocated i
  slot_beyond p i v = ground (arith, is_some-slot p i v)

  Grows-stop : (n : ℕ) (p : Pool fh) → IsPool p → min n 1024 ≤ p.slots_allocated → Grows n p p
  Grows-stop n p v h = record {
    valid = v;
    enough = h;
    grew = omega arith;
    tight = inr refl;
    kept = λ i. slot_beyond p i v;
  }

  Grows-more :
      (n : ℕ) (p q : Pool fh)
      → IsPool p
      → needs_chunk arch fh n p ≡ true
      → Grows n (add_chunk arch fh p) q
      → Grows n p q
  unfolding needs_chunk add_chunk
  Grows-more n p q v more g = record {
    valid = g.valid;
    enough = g.enough;
    grew = omega (arith, g.grew);
    tight = ground (arith, g.tight);
    kept = λ i. ground (arith, g.kept i, slot-add_chunk p i v, g.grew);
  }

  loop-Grows :
      (fuel n : ℕ) (p : Pool fh)
      → IsPool p
      → 1024 ≤ p.slots_allocated + 16 * fuel
      → Grows n p (ensure_slots_loop arch fh fuel n p)
  unfolding ensure_slots_loop needs_chunk
  loop-Grows zero n p v h = Grows-stop n p v (omega arith)
  loop-Grows (suc fuel) n p v h = elim (Bool-cases (needs_chunk arch fh n p)) [
    | inl more ↦ rw more (
        Grows-more n p _ v more (
          loop-Grows fuel n (add_chunk arch fh p) (add_chunk-IsPool p v (ground arith))
            (omega arith)))
    | inr enough ↦ rw enough (Grows-stop n p v (ground arith))
  ]

  -- On a well-formed pool `ensure_slots` ends with a well-formed pool of at least `n` slots, or of
  -- the 1024 that the table holds, at most 15 more than asked for; every slot that was there is as
  -- before, every new one is a fresh, free slot, and there are no others.
  pub ensure_slots-Grows : (n : ℕ) (p : Pool fh) → IsPool p → Grows n p (ensure_slots arch fh n p)
  unfolding ensure_slots
  ensure_slots-Grows n p v = loop-Grows 64 n p v (omega arith)

-- The pool before the first call is well-formed.
pub initial_pool-IsPool : (fh : Framehop) → IsPool (initial_pool fh)
initial_pool-IsPool fh = record { whole = refl; published = refl; table = refl }
