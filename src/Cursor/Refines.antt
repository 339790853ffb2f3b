-- ===== src/Cursor/Refines.antt =====
-- state.rs: `acquire_snapshot` as one function takes the steps that the interleaved model has.
use framehopunwind.Base.{
  ℕ, ◌≡◌, ◌≢◌, inl, inr, false, Option, none, some, List, [], ◌∷◌, ◌==◌, if◌then◌else◌, Bool-cases,
  arith,
}
use framehopunwind.Framehop.{Framehop}
use framehopunwind.Hazard.{
  Reader, claimed, holding, empty, ReaderStep, load, load_null, store_hazard, recheck_same,
  recheck_swapped,
}
use framehopunwind.Slots.{Slot, Pool, slot}
use framehopunwind.Cursor.Acquire.{acquire_loop, acquire_snapshot, store_hazard-Protects}
use framehopunwind.Cursor.Acquire

-- The steps of one slot's cursor, with the value that CURRENT has at each of them.
pub data Run : List ℕ → Reader → ℕ → Reader → ℕ → Type 0 where
  stop : {r : Reader} {h : ℕ} → Run [] r h r h
  move :
      {c : ℕ} {l : List ℕ} {r r' r'' : Reader} {h h' h'' : ℕ}
      → ReaderStep c r h r' h'
      → Run l r' h' r'' h''
      → Run (c ∷ l) r h r'' h''

-- The value of CURRENT at each access of the loop: one in a round whose first load returns null,
-- three in any other.
abbrev pub accesses : List (ℕ × ℕ) → List ℕ
accesses [] = []
accesses ((p, q) ∷ loads) =
    let rest = accesses loads in
    if p == 0 then q ∷ [] else if q == p then q ∷ q ∷ q ∷ [] else q ∷ q ∷ q ∷ rest

-- Where the cursor stands when `p` is returned.
abbrev pub returned : ℕ → Reader
returned p = if p == 0 then empty else holding p

abbrev pub StillIn : List (ℕ × ℕ) → ℕ → Type 0
StillIn loads h = (h' : ℕ) × Run (accesses loads) claimed h claimed h'

-- The steps that end where the result says. In its pool the cell of slot `idx`, which held `s`, is
-- what the steps have stored in it last.
abbrev pub Follows :
    {fh : Framehop} → ℕ → List (ℕ × ℕ) → Slot fh → ℕ → Option (ℕ × Pool fh) → Type 0
Follows idx loads s h none = StillIn loads h
Follows idx loads s h (some (p, pool)) =
    (h' : ℕ) × Run (accesses loads) claimed h (returned p) h'
    × (slot idx pool ≡ some (record s { hazard = h' }))

another_round :
    {c : ℕ} {p h : ℕ} {l : List ℕ} {r : Reader} {h' : ℕ}
    → p ≢ 0
    → c ≢ p
    → Run l claimed p r h'
    → Run (c ∷ c ∷ c ∷ l) claimed h r h'
another_round nonnull swapped rest =
    move (load _ nonnull) (move store_hazard (move (recheck_swapped swapped) rest))

module _ {fh : Framehop} where
  Follows-skip :
      (idx p q h : ℕ) (loads : List (ℕ × ℕ)) (s : Slot fh)
      → (p == 0) ≡ false
      → (q == p) ≡ false
      → (r : Option (ℕ × Pool fh)) → Follows idx loads s p r
      → Follows idx ((p, q) ∷ loads) s h r
  Follows-skip idx p q h loads s nonnull swapped none (h', rest) =
      rw (nonnull, swapped)
        (h', another_round (ground (arith, nonnull)) (ground (arith, swapped)) rest)
  Follows-skip idx p q h loads s nonnull swapped (some (c, pool)) (h', rest, cell) =
      rw (nonnull, swapped)
        (h', another_round (ground (arith, nonnull)) (ground (arith, swapped)) rest, cell)

  acquire_loop-Follows :
      (idx h : ℕ) (loads : List (ℕ × ℕ)) (s : Slot fh) (pool : Pool fh)
      → slot idx pool ≡ some (record s { hazard = h })
      → Follows idx loads s h (acquire_loop idx loads pool)
  unfolding acquire_loop
  acquire_loop-Follows idx h [] s pool e = (h, stop)
  acquire_loop-Follows idx h ((p, q) ∷ loads) s pool e =
      let stored : (v : ℕ)
          → slot idx (Acquire.store_hazard idx v pool) ≡ some (record s { hazard = v }) =
        λ v. (store_hazard-Protects idx v (record s { hazard = h }) pool e).cell in
      elim (Bool-cases (p == 0)) [
        | inl null ↦ rw null (rw null (0, move load_null stop, stored 0))
        | inr nonnull ↦ elim (Bool-cases (q == p)) [
          | inl same ↦
              rw (nonnull, same)
                (rw (nonnull, same)
                  (
                    p,
                    move (load p (ground (arith, nonnull)))
                        (move store_hazard (move (recheck_same (ground (arith, same))) stop)),
                    stored p,
                  ))
          | inr swapped ↦
              rw (nonnull, swapped)
                (Follows-skip idx p q h loads s nonnull swapped
                  (acquire_loop idx loads (Acquire.store_hazard idx p pool))
                  (acquire_loop-Follows idx p loads s (Acquire.store_hazard idx p pool) (stored p)))
        ]
      ]

  -- For a slot of the pool, and the values that CURRENT has at the loads: the accesses that
  -- `acquire_snapshot` makes are steps of a reader in the interleaved model, from the slot's claim to
  -- where the returned pointer is held, or null was found, and the slot's hazard cell in the pool it
  -- leaves is what those steps have stored; or they are back at the head of the loop, if it has not
  -- returned.
  pub acquire_snapshot-Follows :
      (idx : ℕ) (loads : List (ℕ × ℕ)) (s : Slot fh) (pool : Pool fh)
      → slot idx pool ≡ some s
      → Follows idx loads s s.hazard (acquire_snapshot idx loads pool)
  unfolding acquire_snapshot
  acquire_snapshot-Follows idx loads s pool e =
      rw e (acquire_loop-Follows idx s.hazard loads s pool e)
