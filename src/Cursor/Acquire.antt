-- ===== src/Cursor/Acquire.antt =====
-- state.rs: `acquire_snapshot` by one cursor, against any loads that the writers cause.
use framehopunwind.Base.{
  ℕ, ◌≡◌, ◌≢◌, ◌⊎◌, inl, inr, refl, ◌∙◌, Option, none, some, List, [], ◌∷◌, ◌==◌, if◌then◌else◌,
  Bool-cases, arith,
}
use framehopunwind.Framehop.{Framehop}
use framehopunwind.Slots.{Slot, Pool, slot, update_slot}
use framehopunwind.Slots.Layout.{IsPool, slot-update_slot, update_slot-IsPool}

module _ {fh : Framehop} where
  -- A store to the slot's hazard cell.
  unfoldable pub store_hazard : ℕ → ℕ → Pool fh → Pool fh
  store_hazard idx p pool = update_slot idx (λ s. record s { hazard = p }) pool

  -- `acquire_snapshot`: each pair is what the two loads of CURRENT return in one round of the loop
  -- (the second load is not made where the first returns null). `none`: still in the loop.
  unfoldable pub acquire_loop : ℕ → List (ℕ × ℕ) → Pool fh → Option (ℕ × Pool fh)
  unfolding store_hazard
  acquire_loop idx [] pool = none
  acquire_loop idx ((p, again) ∷ loads) pool =
      let rest = acquire_loop idx loads (store_hazard idx p pool) in
      if p == 0
      then some (0, store_hazard idx 0 pool)
      else if again == p
      then some (p, store_hazard idx p pool)
      else rest

  unfoldable pub acquire_at : ℕ → List (ℕ × ℕ) → Option (Slot fh) → Pool fh → Option (ℕ × Pool fh)
  unfolding acquire_loop
  acquire_at idx loads none pool = some (0, pool)
  acquire_at idx loads (some s) pool = acquire_loop idx loads pool

  unfoldable pub acquire_snapshot : ℕ → List (ℕ × ℕ) → Pool fh → Option (ℕ × Pool fh)
  unfolding acquire_at
  acquire_snapshot idx loads pool = acquire_at idx loads (slot idx pool) pool

-- `p` is what the loop is to return: of the first round that settles, null if its first load is, and
-- otherwise what both of its loads are. In every round before, the loads differ.
abbrev pub Returns : ℕ → List (ℕ × ℕ) → Type 0
Returns p [] = ⊥
Returns p ((a, b) ∷ loads) =
    ((a ≡ 0) × (p ≡ 0)) ⊎ (((a ≢ 0) × (a ≡ p) × (b ≡ p)) ⊎ ((a ≢ 0) × (a ≢ b) × Returns p loads))

-- A round in which CURRENT is null, or no writer swaps it between the two loads.
abbrev pub Settles : List (ℕ × ℕ) → Type 0
Settles [] = ⊥
Settles ((a, b) ∷ loads) = ((a ≡ 0) ⊎ (a ≡ b)) ⊎ Settles loads

not_settled :
    {p q : ℕ} (loads : List (ℕ × ℕ)) → p ≢ 0 → p ≢ q → ¬ Settles loads → ¬ Settles ((p, q) ∷ loads)
not_settled loads nonnull ne h (inl (inl e)) = nonnull e
not_settled loads nonnull ne h (inl (inr e)) = ne e
not_settled loads nonnull ne h (inr later) = h later

module _ {fh : Framehop} where
  -- The pool differs by the hazard cell of slot `idx` alone, which names `p`; the slot was `s`.
  pub record Protects (idx p : ℕ) (s : Slot fh) (pool pool' : Pool fh) : Type 0 where
    pub cell : slot idx pool' ≡ some (record s { hazard = p })
    pub others : (j : ℕ) → idx ≢ j → slot j pool' ≡ slot j pool
    pub valid : IsPool pool → IsPool pool'

  pub store_hazard-Protects :
      (idx p : ℕ) (s : Slot fh) (pool : Pool fh)
      → slot idx pool ≡ some s
      → Protects idx p s pool (store_hazard idx p pool)
  unfolding store_hazard
  store_hazard-Protects idx p s pool e = record {
    cell = slot-update_slot pool idx idx _ ∙ rw e (ground arith);
    others = λ j ne. ground (arith, slot-update_slot pool idx j (λ s. record s { hazard = p }));
    valid = update_slot-IsPool pool idx _;
  }

  Protects-again :
      {idx p q : ℕ} {s : Slot fh} {pool mid last : Pool fh}
      → Protects idx q s pool mid
      → Protects idx p (record s { hazard = q }) mid last
      → Protects idx p s pool last
  Protects-again a b = record {
    cell = b.cell;
    others = λ j ne. b.others j ne ∙ a.others j ne;
    valid = λ v. b.valid (a.valid v);
  }

  -- What `acquire_snapshot` may return for slot `idx`, which holds `s`.
  abbrev pub AcquireResult : ℕ → List (ℕ × ℕ) → Slot fh → Pool fh → Option (ℕ × Pool fh) → Type 0
  AcquireResult idx loads s pool none = ¬ Settles loads
  AcquireResult idx loads s pool (some (p, pool')) = Returns p loads × Protects idx p s pool pool'

  AcquireResult-skip :
      (idx p q : ℕ) (loads : List (ℕ × ℕ)) (s : Slot fh) (pool : Pool fh)
      → slot idx pool ≡ some s
      → p ≢ 0
      → p ≢ q
      → (r : Option (ℕ × Pool fh))
      → AcquireResult idx loads (record s { hazard = p }) (store_hazard idx p pool) r
      → AcquireResult idx ((p, q) ∷ loads) s pool r
  AcquireResult-skip idx p q loads s pool e nonnull ne none h = not_settled loads nonnull ne h
  AcquireResult-skip idx p q loads s pool e nonnull ne (some (c, pool')) (is, prot) =
      (inr (inr (nonnull, ne, is)), Protects-again (store_hazard-Protects idx p s pool e) prot)

  acquire_loop_lem :
      (idx : ℕ) (loads : List (ℕ × ℕ)) (s : Slot fh) (pool : Pool fh)
      → slot idx pool ≡ some s
      → AcquireResult idx loads s pool (acquire_loop idx loads pool)
  unfolding acquire_loop
  acquire_loop_lem idx [] s pool e = λ h. h
  acquire_loop_lem idx ((p, q) ∷ loads) s pool e = elim (Bool-cases (p == 0)) [
    | inl null ↦ rw null (inl (ground (arith, null), refl), store_hazard-Protects idx 0 s pool e)
    | inr nonnull ↦ rw nonnull (elim (Bool-cases (q == p)) [
      | inl same ↦ rw same (
        inr (inl (ground (arith, nonnull), refl, ground (arith, same))),
        store_hazard-Protects idx p s pool e,
      )
      | inr swapped ↦ rw swapped (
          AcquireResult-skip idx p q loads s pool e (ground arith) (ground arith)
            (acquire_loop idx loads (store_hazard idx p pool))
            (acquire_loop_lem idx loads (record s { hazard = p }) (store_hazard idx p pool)
              (store_hazard-Protects idx p s pool e).cell))
    ])
  ]

  -- For a slot of the pool, whatever CURRENT does: `acquire_snapshot` returns in the first round
  -- that settles, null if CURRENT was null at the first load and otherwise what both loads of that
  -- round saw; the slot's hazard cell then names what is returned, and nothing else in the pool has
  -- changed. It does not return only if no round so far settles: in none was CURRENT null, nor
  -- unchanged between the two loads.
  pub acquire_snapshot_lem :
      (idx : ℕ) (loads : List (ℕ × ℕ)) (s : Slot fh) (pool : Pool fh)
      → slot idx pool ≡ some s
      → AcquireResult idx loads s pool (acquire_snapshot idx loads pool)
  unfolding acquire_snapshot
  acquire_snapshot_lem idx loads s pool e = rw e (acquire_loop_lem idx loads s pool e)
