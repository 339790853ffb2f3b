-- ===== src/Cursor/Init/Laws.antt =====
-- cursor.rs: the initialisation of a cursor on every path, errors included.
use framehopunwind.Base.{
  ℕ, zero, suc, ◌<◌, ◌≡◌, ◌≢◌, inl, inr, refl, sym, ◌∙◌, ap, subst, true, false, Option, none, some,
  List, ℤ, pos, negsuc, ◌==◌, u64_max, Bool-cases, arith,
}
use framehopunwind.Framehop.{Framehop}
use framehopunwind.Slots.{
  Slot, Pool, slot, update_slot, claim_slot, nonce_is, nonce_matches, released, release_slot,
}
use framehopunwind.Slots.Layout.{IsPool, is_some-slot, slot-update_slot, update_slot-IsPool}
use framehopunwind.Slots.Growth.{IsPool-le}
use framehopunwind.Slots.Claims.{Claimed, ClaimResult, claim_slot_lem, release_slot_lem}
use framehopunwind.Cursor.Acquire.{
  acquire_snapshot, Returns, Settles, Protects, AcquireResult, acquire_snapshot_lem,
}
use framehopunwind.Cursor.Init.{
  FhCursor, cursor_magic, dead, is_live, Start, Process, start_inner, init_slot, init_acquired,
  init_claimed, cursor_init_bounds2,
}

module _ {fh : Framehop} (env : Process fh) where
  -- Success: the lowest free slot of `pool` holds the walk, under the nonce of the cursor `c`.
  pub record Started (a : Start) (loads : List (ℕ × ℕ)) (pool : Pool fh) (c : FhCursor)
      (pool' : Pool fh) : Type 0 where
    pub before : Slot fh
    pub was_free : (slot c.slot_index pool ≡ some before) × (before.in_use ≡ false)
    pub snap : ℕ
    pub lowest : (j : ℕ) (t : Slot fh) → j < c.slot_index → slot j pool ≡ some t → t.in_use ≡ true
    pub seen : Returns snap loads
    pub nonnull : snap ≢ 0
    pub holds :
        slot c.slot_index pool'
        ≡ some (record before {
          in_use = true;
          seq = c.nonce;
          hazard = snap;
          inner = start_inner env a snap before.inner;
        })
    pub others : (j : ℕ) → c.slot_index ≢ j → slot j pool' ≡ slot j pool
    pub live : is_live c pool' ≡ true
    pub valid : IsPool pool'

  -- Failure behind the claim: the slot is free again, with no hazard, and the others are untouched.
  pub record GaveUp (pool : Pool fh) (pool' : Pool fh) : Type 0 where
    pub index : ℕ
    pub before : Slot fh
    pub was_free : (slot index pool ≡ some before) × (before.in_use ≡ false)
    pub again : Slot fh
    pub is_free : (slot index pool' ≡ some again) × (again.in_use ≡ false) × (again.hazard ≡ 0)
    pub others : (j : ℕ) → index ≢ j → slot j pool' ≡ slot j pool
    pub valid : IsPool pool'

  abbrev pub InitResult : Start → List (ℕ × ℕ) → Pool fh → Option (ℤ × FhCursor × Pool fh) → Type 0
  InitResult a loads pool none = ¬ Settles loads
  InitResult a loads pool (some (pos zero, c, pool')) = Started a loads pool c pool'
  InitResult a loads pool (some (pos (suc n), c, pool')) = ⊥
  InitResult a loads pool (some (negsuc zero, c, pool')) =
      (c ≡ dead) × (pool' ≡ pool) × ((j : ℕ) (t : Slot fh) → slot j pool ≡ some t → t.in_use ≡ true)
  InitResult a loads pool (some (negsuc (suc zero), c, pool')) =
      (c ≡ dead) × Returns 0 loads × GaveUp pool pool'
  InitResult a loads pool (some (negsuc (suc (suc n)), c, pool')) = ⊥

  -- A slot that exists has a small index.
  index-ne-max :
      (pool : Pool fh) (i : ℕ) (s : Slot fh) → IsPool pool → slot i pool ≡ some s → i < 1024
  index-ne-max pool i s v e = ground (arith, is_some-slot pool i v, IsPool-le pool v)

  module _ (a : Start) (loads : List (ℕ × ℕ)) {pool mid pool' : Pool fh} {i nonce snap : ℕ}
      (claimed : Claimed pool i nonce mid)
      (prot : Protects i snap
        (record (claimed.before) { in_use = true; seq = nonce })
        mid
        pool') where
    others_kept : (j : ℕ) → i ≢ j → slot j pool' ≡ slot j pool
    others_kept j ne = prot.others j ne ∙ claimed.others j ne

    give_up : GaveUp pool (release_slot i nonce pool')
    give_up =
        let (valid, _, matching) = release_slot_lem pool' i nonce (prot.valid claimed.valid) in
        let done = matching _ prot.cell refl in
        record {
          index = i;
          before = claimed.before;
          was_free = (claimed.found, claimed.was_free);
          again =
              released nonce
                (record (claimed.before) { in_use = true; seq = nonce; hazard = snap });
          is_free = (done.after, refl, refl);
          others = λ j ne. done.others j ne ∙ others_kept j ne;
          valid = valid;
        }

    abbrev cursor : FhCursor
    cursor = record { magic = cursor_magic; slot_index = i; nonce = nonce }

    abbrev begun : Pool fh
    begun = update_slot i (λ t. record t { inner = start_inner env a snap t.inner }) pool'

    begun-slot :
        slot i begun
        ≡ some (record (claimed.before) {
          in_use = true;
          seq = nonce;
          hazard = snap;
          inner = start_inner env a snap claimed.before.inner;
        })
    begun-slot = slot-update_slot pool' i i _ ∙ rw prot.cell (ground arith)

    begun_live : is_live cursor begun ≡ true
    unfolding is_live nonce_matches
    begun_live =
        let small = index-ne-max pool' i _ (prot.valid claimed.valid) prot.cell in
        let e : (i == u64_max) ≡ false = ground arith in
        rw (e, ap (nonce_is nonce) begun-slot) (ground arith)

    started : snap ≢ 0 → Returns snap loads → Started a loads pool cursor begun
    started nonnull seen = record {
      before = claimed.before;
      was_free = (claimed.found, claimed.was_free);
      lowest = claimed.lowest;
      snap = snap;
      seen = seen;
      nonnull = nonnull;
      holds = begun-slot;
      others = λ j ne. ground (
        arith,
        slot-update_slot pool' i j (λ t. record t { inner = start_inner env a snap t.inner }),
        others_kept j ne,
      );
      live = begun_live;
      valid = update_slot-IsPool pool' i _ (prot.valid claimed.valid);
    }

  init_acquired_lem :
      (a : Start) (loads : List (ℕ × ℕ)) (pool mid : Pool fh) (i nonce : ℕ)
      → (claimed : Claimed pool i nonce mid) → (r : Option (ℕ × Pool fh))
      → AcquireResult i loads (record (claimed.before) { in_use = true; seq = nonce }) mid r
      → InitResult a loads pool (init_acquired env a i nonce r)
  unfolding init_acquired
  init_acquired_lem a loads pool mid i nonce claimed none h = h
  init_acquired_lem a loads pool mid i nonce claimed (some (snap, pool')) (seen, prot) =
      elim (Bool-cases (snap == 0)) [
        | inl null ↦ rw null (
          refl,
          subst (λ p. Returns p loads) (ground (arith, null)) seen,
          give_up a loads claimed prot,
        )
        | inr nonnull ↦
            rw (nonnull, prot.cell, init_slot) (started a loads claimed prot (ground arith) seen)
      ]

  init_claimed_lem :
      (a : Start) (loads : List (ℕ × ℕ)) (pool : Pool fh) (r : Option (ℕ × ℕ) × Pool fh)
      → ClaimResult pool r
      → InitResult a loads pool (init_claimed env a loads r)
  unfolding init_claimed
  init_claimed_lem a loads pool (none, mid) (same, full) = (refl, same, full)
  init_claimed_lem a loads pool (some (i, nonce), mid) claimed =
      init_acquired_lem a loads pool mid i nonce claimed (acquire_snapshot i loads mid)
        (acquire_snapshot_lem i loads _ mid claimed.after)

  -- On a well-formed pool `cursor_init_bounds2` returns 0, -1 or -2 (never -3). With 0 the cursor
  -- is live and holds the lowest free slot, whose hazard cell and per-walk state name the snapshot
  -- that both loads of the first settled round of `acquire_snapshot` saw; with -1 every slot was in
  -- use and nothing changed; with -2 CURRENT was null in the first settled round, and the claimed
  -- slot is free again. On failure the cursor is dead. It does not return only if no round of the
  -- loop settles.
  pub cursor_init_bounds2_lem :
      (a : Start) (loads : List (ℕ × ℕ)) (pool : Pool fh)
      → IsPool pool
      → InitResult a loads pool (cursor_init_bounds2 env a loads pool)
  unfolding cursor_init_bounds2
  cursor_init_bounds2_lem a loads pool v =
      init_claimed_lem a loads pool (claim_slot pool) (claim_slot_lem pool v)

  -- The pool that a call leaves; one that has not returned leaves none yet.
  abbrev pub pool_after : Option (ℤ × FhCursor × Pool fh) → Pool fh → Pool fh
  pool_after none pool = pool
  pool_after (some (code, c, pool')) pool = pool'

  InitResult-IsPool :
      (a : Start) (loads : List (ℕ × ℕ)) (pool : Pool fh) (r : Option (ℤ × FhCursor × Pool fh))
      → IsPool pool
      → InitResult a loads pool r
      → IsPool (pool_after r pool)
  InitResult-IsPool a loads pool none v h = v
  InitResult-IsPool a loads pool (some (pos zero, c, pool')) v started = started.valid
  InitResult-IsPool a loads pool (some (pos (suc n), c, pool')) v h = absurd h
  InitResult-IsPool a loads pool (some (negsuc zero, c, pool')) v (is, same, full) =
      subst IsPool (sym same) v
  InitResult-IsPool a loads pool (some (negsuc (suc zero), c, pool')) v (is, null, gave_up) =
      gave_up.valid
  InitResult-IsPool a loads pool (some (negsuc (suc (suc n)), c, pool')) v h = absurd h

  pub cursor_init_bounds2-IsPool :
      (a : Start) (loads : List (ℕ × ℕ)) (pool : Pool fh)
      → IsPool pool
      → IsPool (pool_after (cursor_init_bounds2 env a loads pool) pool)
  cursor_init_bounds2-IsPool a loads pool v =
      InitResult-IsPool a loads pool (cursor_init_bounds2 env a loads pool) v
        (cursor_init_bounds2_lem a loads pool v)
