-- ===== src/Slots/Layout.antt =====
-- state.rs: how the pool's chunks are laid out, and that `slot` and the scan by `slots` agree.
use mathlib.Core.List.{flatten}
use framehopunwind.Base.{
  ℕ, zero, suc, ◌-◌, ◌*◌, ◌/◌, ◌%◌, ◌≡◌, refl, ◌∙◌, sym, ap, Option, none, some, is_some,
  is_some-get_elem?, Bool-cases, inl, inr, List, [], ◌∷◌, ◌==◌, ltb, if◌then◌else◌, get_elem?,
  get_elem?-append, get_elem?-modify, length, modify, length-modify, map_option, dec_lt, arith,
}
use framehopunwind.Framehop.{Framehop}
use framehopunwind.Slots.{
  Slot, Pool, slot_chunk, chunks_while, slots, flat_option, get_in, slot, update_slot,
}

module _ {fh : Framehop} where
  -- The first `k` entries are chunks of 16 slots, and the others are null.
  abbrev pub Published : ℕ → List (Option (List (Slot fh))) → Type 0
  Published k [] = k ≡ 0
  Published zero (none ∷ l) = Published zero l
  Published zero (some c ∷ l) = ⊥
  Published (suc k) (none ∷ l) = ⊥
  Published (suc k) (some c ∷ l) = (length c ≡ 16) × Published k l

  pub record IsPool (p : Pool fh) : Type 0 where
    pub whole : p.slots_allocated % 16 ≡ 0
    pub published : Published (p.slots_allocated / 16) p.slot_chunks
    pub table : length p.slot_chunks ≡ 64

  abbrev pub slot_of : List (Option (List (Slot fh))) → ℕ → Option (Slot fh)
  slot_of l i = get_in (i % 16) (flat_option (get_elem? l (i / 16)))

  chunk-none :
      (l : List (Option (List (Slot fh)))) (i : ℕ)
      → Published 0 l
      → flat_option (get_elem? l i) ≡ none
  chunk-none [] i h = refl
  chunk-none (none ∷ l) zero h = refl
  chunk-none (none ∷ l) (suc i) h = chunk-none l i h
  chunk-none (some c ∷ l) i h = elim h [ ]

  slot_of-cons :
      (c : List (Slot fh)) (l : List (Option (List (Slot fh)))) (i : ℕ)
      → slot_of (some c ∷ l) i ≡ (if ltb i 16 then get_elem? c i else slot_of l (i - 16))
  slot_of-cons c l i = elim (dec_lt i 16) [
    | yes low ↦
        let q : i / 16 ≡ 0 = omega arith in
        let r : i % 16 ≡ i = omega arith in rw (q, r) (ground arith)
    | no high ↦
        let q : i / 16 ≡ suc ((i - 16) / 16) = omega arith in
        let r : i % 16 ≡ (i - 16) % 16 = omega arith in rw (q, r) (ground arith)
  ]

  get_elem?-flatten :
      (k : ℕ) (l : List (Option (List (Slot fh)))) (i : ℕ)
      → Published k l
      → get_elem? (flatten (chunks_while l)) i ≡ slot_of l i
  unfolding chunks_while flatten
  get_elem?-flatten k [] i h = refl
  get_elem?-flatten zero (none ∷ l) i h =
      sym (ap (get_in (i % 16)) (chunk-none (none ∷ l) (i / 16) h))
  get_elem?-flatten zero (some c ∷ l) i h = elim h [ ]
  get_elem?-flatten (suc k) (none ∷ l) i h = elim h [ ]
  get_elem?-flatten (suc k) (some c ∷ l) i h =
      rw (get_elem?-append c (flatten (chunks_while l)) i, slot_of-cons c l i, h.0)
        (rw (get_elem?-flatten k l (i - 16) h.1))

  -- The `i`th slot of the scan is the slot of index `i`.
  pub get_elem?-slots : (p : Pool fh) (i : ℕ) → IsPool p → get_elem? (slots p) i ≡ slot i p
  unfolding slots slot slot_chunk
  get_elem?-slots p i v = get_elem?-flatten (p.slots_allocated / 16) p.slot_chunks i v.published

  slot_of_bound :
      (k : ℕ) (l : List (Option (List (Slot fh)))) (i : ℕ)
      → Published k l
      → is_some (slot_of l i) ≡ ltb i (16 * k)
  slot_of_bound k [] i h = ground arith
  slot_of_bound zero (none ∷ l) i h = rw (chunk-none (none ∷ l) (i / 16) h) (ground arith)
  slot_of_bound zero (some c ∷ l) i h = elim h [ ]
  slot_of_bound (suc k) (none ∷ l) i h = elim h [ ]
  slot_of_bound (suc k) (some c ∷ l) i h =
      rw (slot_of-cons c l i)
        (ground (arith, is_some-get_elem? c i, slot_of_bound k l (i - 16) h.1))

  -- A slot is there exactly below the number of slots allocated.
  pub is_some-slot : (p : Pool fh) (i : ℕ) → IsPool p → is_some (slot i p) ≡ ltb i p.slots_allocated
  unfolding slot slot_chunk
  is_some-slot p i v =
      slot_of_bound (p.slots_allocated / 16) p.slot_chunks i v.published
      ∙ ap (ltb i) (let w : p.slots_allocated % 16 ≡ 0 = v.whole in omega arith)

  get_in-modify :
      (i j : ℕ) (f : Slot fh → Slot fh) (o : Option (Option (List (Slot fh))))
      → get_in j (flat_option (map_option (map_option (λ c. modify c i f)) o))
        ≡ (if i == j then map_option f (get_in j (flat_option o)) else get_in j (flat_option o))
  get_in-modify i j f none = ground arith
  get_in-modify i j f (some none) = ground arith
  get_in-modify i j f (some (some c)) = get_elem?-modify c i j f

  -- A store through a reference changes that slot and no other.
  pub slot-update_slot :
      (p : Pool fh) (i j : ℕ) (f : Slot fh → Slot fh)
      → slot j (update_slot i f p) ≡ (if i == j then map_option f (slot j p) else slot j p)
  unfolding slot slot_chunk update_slot
  slot-update_slot p i j f =
      rw (get_elem?-modify p.slot_chunks (i / 16) (j / 16) (map_option (λ c. modify c (i % 16) f)))
        (elim (Bool-cases (i / 16 == j / 16)) [
          | inl same ↦
              rw (same, get_in-modify (i % 16) (j % 16) f (get_elem? p.slot_chunks (j / 16)))
                (ap
                  (λ b.
                    if b then map_option f (slot_of p.slot_chunks j) else slot_of p.slot_chunks j)
                  (ground arith))
          | inr other ↦ rw other (ground arith)
        ])

  modify-Published :
      (k : ℕ) (l : List (Option (List (Slot fh)))) (i j : ℕ) (f : Slot fh → Slot fh)
      → Published k l
      → Published k (modify l i (map_option (λ c. modify c j f)))
  unfolding modify
  modify-Published k [] i j f h = h
  modify-Published zero (none ∷ l) zero j f h = h
  modify-Published zero (none ∷ l) (suc i) j f h = modify-Published zero l i j f h
  modify-Published zero (some c ∷ l) i j f h = elim h [ ]
  modify-Published (suc k) (none ∷ l) i j f h = elim h [ ]
  modify-Published (suc k) (some c ∷ l) zero j f h = (length-modify c j f ∙ h.0, h.1)
  modify-Published (suc k) (some c ∷ l) (suc i) j f h = (h.0, modify-Published k l i j f h.1)

  pub update_slot-IsPool :
      (p : Pool fh) (i : ℕ) (f : Slot fh → Slot fh) → IsPool p → IsPool (update_slot i f p)
  unfolding update_slot
  update_slot-IsPool p i f v = record {
    whole = v.whole;
    published =
        modify-Published (p.slots_allocated / 16) p.slot_chunks (i / 16) (i % 16) f v.published;
    table = length-modify p.slot_chunks (i / 16) (map_option (λ c. modify c (i % 16) f)) ∙ v.table;
  }
