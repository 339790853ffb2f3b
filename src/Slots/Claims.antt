-- ===== src/Slots/Claims.antt =====
-- state.rs: `claim_slot`, `nonce_matches` and `release_slot`.
use framehopunwind.Base.{
  ℕ, zero, suc, ◌+◌, ◌-◌, ◌%◌, ◌^◌, ◌≤◌, ◌<◌, ◌≡◌, ◌≢◌, inl, inr, refl, sym, subst, ◌∙◌, ap, Bool,
  true, false, Option, none, some, List, [], ◌∷◌, if◌then◌else◌, get_elem?, Bool-cases, arith,
}
use framehopunwind.Framehop.{Framehop}
use framehopunwind.Slots.{
  Slot, Pool, slots, slot, update_slot, first_free, take_first, claim_slot, nonce_is, nonce_matches,
  released, release_slot,
}
use framehopunwind.Slots.Layout.{IsPool, get_elem?-slots, slot-update_slot, update_slot-IsPool}

module _ {fh : Framehop} where
  -- What the scan over `l`, whose first index is `i`, finds.
  abbrev FirstFree : ℕ → List (Slot fh) → Option (ℕ × Slot fh) → Type 0
  FirstFree i l none = (j : ℕ) (s : Slot fh) → get_elem? l j ≡ some s → s.in_use ≡ true
  FirstFree i l (some (j, s)) =
      (i ≤ j)
      × (get_elem? l (j - i) ≡ some s)
      × (s.in_use ≡ false)
      × ((k : ℕ) (t : Slot fh) → k < j - i → get_elem? l k ≡ some t → t.in_use ≡ true)

  busy_below :
      (n : ℕ) (s : Slot fh) (l : List (Slot fh))
      → s.in_use ≡ true
      → ((k : ℕ) (t : Slot fh) → k < n → get_elem? l k ≡ some t → t.in_use ≡ true)
      → (k : ℕ) (t : Slot fh) → k < suc n
      → get_elem? (s ∷ l) k ≡ some t
      → t.in_use ≡ true
  busy_below n s l busy h zero t lt e = ground arith
  busy_below n s l busy h (suc k) t lt e = h k t (omega arith) e

  busy_all :
      (s : Slot fh) (l : List (Slot fh))
      → s.in_use ≡ true
      → ((k : ℕ) (t : Slot fh) → get_elem? l k ≡ some t → t.in_use ≡ true)
      → (k : ℕ) (t : Slot fh) → get_elem? (s ∷ l) k ≡ some t
      → t.in_use ≡ true
  busy_all s l busy h zero t e = ground arith
  busy_all s l busy h (suc k) t e = h k t e

  FirstFree-skip :
      (i : ℕ) (s : Slot fh) (l : List (Slot fh)) (r : Option (ℕ × Slot fh))
      → s.in_use ≡ true
      → FirstFree (i + 1) l r
      → FirstFree i (s ∷ l) r
  FirstFree-skip i s l none busy h = busy_all s l busy h
  FirstFree-skip i s l (some (j, t)) busy (le, at_j, free, below) =
      let e : j - i ≡ suc (j - (i + 1)) = omega arith in
      (omega arith, rw e at_j, free, rw e (busy_below (j - (i + 1)) s l busy below))

  first_free_lem : (i : ℕ) (l : List (Slot fh)) → FirstFree i l (first_free i l)
  unfolding first_free
  first_free_lem i [] = λ j s e. cc
  first_free_lem i (s ∷ l) = elim (Bool-cases s.in_use) [
    | inl busy ↦
        choose busy (FirstFree-skip i s l (first_free (i + 1) l) busy (first_free_lem (i + 1) l))
    | inr free ↦ choose free (
        let e : i - i ≡ 0 = omega arith in
        (omega arith, rw e refl, free, λ k t lt q. absurd (omega arith)))
  ]
    where
      choose :
          {b : Bool}
          → s.in_use ≡ b
          → FirstFree i (s ∷ l) (if b then first_free (i + 1) l else some (i, s))
          → FirstFree i (s ∷ l) (if s.in_use then first_free (i + 1) l else some (i, s))
      choose e h =
          subst (λ b. FirstFree i (s ∷ l) (if b then first_free (i + 1) l else some (i, s))) (sym e)
            h

  -- A claim took slot `i` of `p`, the lowest free one, with `nonce`, and left `q`.
  pub record Claimed (p : Pool fh) (i nonce : ℕ) (q : Pool fh) : Type 0 where
    pub before : Slot fh
    pub found : slot i p ≡ some before
    pub was_free : before.in_use ≡ false
    pub lowest : (j : ℕ) (t : Slot fh) → j < i → slot j p ≡ some t → t.in_use ≡ true
    pub bumped : nonce ≡ (before.seq + 1) % 2 ^ 64
    pub after : slot i q ≡ some (record before { in_use = true; seq = nonce })
    pub others : (j : ℕ) → i ≢ j → slot j q ≡ slot j p
    pub valid : IsPool q
    pub matches : nonce_matches i nonce q ≡ true

  abbrev pub ClaimResult : Pool fh → Option (ℕ × ℕ) × Pool fh → Type 0
  ClaimResult p (none, q) = (q ≡ p) × ((j : ℕ) (t : Slot fh) → slot j p ≡ some t → t.in_use ≡ true)
  ClaimResult p (some (i, nonce), q) = Claimed p i nonce q

  take_first_lem :
      (p : Pool fh)
      → IsPool p
      → (r : Option (ℕ × Slot fh)) → FirstFree 0 (slots p) r
      → ClaimResult p (take_first p r)
  unfolding take_first nonce_matches
  take_first_lem p v none h = (refl, λ j t e. h j t (get_elem?-slots p j v ∙ e))
  take_first_lem p v (some (i, s)) (_, at_i, free, below) = record {
    before = s;
    found = found;
    was_free = free;
    lowest = λ j t lt e. below j t (omega arith) (get_elem?-slots p j v ∙ e);
    bumped = refl;
    after = after;
    others = λ j ne. ground (arith, slot-update_slot p i j bump);
    valid = update_slot-IsPool p i bump v;
    matches = ap (nonce_is _) after ∙ ground arith;
  }
    where
      bump : Slot fh → Slot fh
      bump t = record t { in_use = true; seq = (t.seq + 1) % 2 ^ 64 }

      found : slot i p ≡ some s
      found = sym (get_elem?-slots p i v) ∙ (let e : i - 0 ≡ i = omega arith in rw e at at_i)

      after : slot i (update_slot i bump p) ≡ some (bump s)
      after = slot-update_slot p i i bump ∙ rw found (ground arith)

  -- A claim on a well-formed pool fails only if every slot is in use, and then changes nothing.
  -- Otherwise it takes the lowest free slot: that slot goes from free to used, its sequence number
  -- is bumped to the nonce returned, which then matches, no other slot changes, and the pool stays
  -- well-formed.
  pub claim_slot_lem : (p : Pool fh) → IsPool p → ClaimResult p (claim_slot p)
  unfolding claim_slot
  claim_slot_lem p v = take_first_lem p v (first_free 0 (slots p)) (first_free_lem 0 (slots p))

  -- What a release of slot `i` with `nonce` did, where the slot held `s`.
  pub record Released (p : Pool fh) (i nonce : ℕ) (s : Slot fh) (q : Pool fh) : Type 0 where
    pub after : slot i q ≡ some (released nonce s)
    pub others : (j : ℕ) → i ≢ j → slot j q ≡ slot j p
    pub retired : nonce < 2 ^ 64 → nonce_matches i nonce q ≡ false

  release_matching :
      (p : Pool fh) (i nonce : ℕ) (s : Slot fh)
      → slot i p ≡ some s
      → Released p i nonce s (update_slot i (released nonce) p)
  unfolding nonce_matches
  release_matching p i nonce s e = record {
    after = after;
    others = λ j ne. ground (arith, slot-update_slot p i j (released nonce));
    retired = λ lt. ap (nonce_is nonce) after ∙ ground arith;
  }
    where
      after : slot i (update_slot i (released nonce) p) ≡ some (released nonce s)
      after = slot-update_slot p i i (released nonce) ∙ rw e (ground arith)

  live_slot :
      (p : Pool fh) (i nonce : ℕ)
      → nonce_matches i nonce p ≡ true
      → (s : Slot fh) × (slot i p ≡ some s) × (s.seq ≡ nonce)
  unfolding nonce_matches
  live_slot p i nonce h = found (slot i p) h
    where
      found :
          (o : Option (Slot fh))
          → nonce_is nonce o ≡ true
          → (s : Slot fh) × (o ≡ some s) × (s.seq ≡ nonce)
      found none h = cc
      found (some s) h = (s, refl, ground arith)

  -- A release with the slot's current nonce frees that slot alone, clears its hazard cell and its
  -- snapshot, and retires the nonce; with any other nonce, or where there is no such slot, it
  -- changes nothing. The pool stays well-formed.
  pub release_slot_lem :
      (p : Pool fh) (i nonce : ℕ)
      → IsPool p
      → IsPool (release_slot i nonce p)
        × (nonce_matches i nonce p ≡ false → release_slot i nonce p ≡ p)
        × ((s : Slot fh)
            → slot i p ≡ some s
            → s.seq ≡ nonce
            → Released p i nonce s (release_slot i nonce p))
  unfolding release_slot
  release_slot_lem p i nonce v = (
    ground (arith, v, update_slot-IsPool p i (released nonce) v),
    λ stale. rw stale refl,
    λ s e same.
        (let live : nonce_matches i nonce p ≡ true = ap (nonce_is nonce) e ∙ ground arith in
          rw live (release_matching p i nonce s e)),
  )

  -- After a release its nonce matches no more, whether it was live or stale.
  pub nonce_matches-release_slot :
      (p : Pool fh) (i nonce : ℕ)
      → IsPool p
      → nonce < 2 ^ 64
      → nonce_matches i nonce (release_slot i nonce p) ≡ false
  nonce_matches-release_slot p i nonce v lt = elim (Bool-cases (nonce_matches i nonce p)) [
    | inl live ↦
        let (s, e, same) = live_slot p i nonce live in
        ((release_slot_lem p i nonce v).2 s e same).retired lt
    | inr stale ↦ rw ((release_slot_lem p i nonce v).1 stale) stale
  ]

  -- A second release with the same nonce changes nothing.
  pub release_twice :
      (p : Pool fh) (i nonce : ℕ)
      → IsPool p
      → nonce < 2 ^ 64
      → release_slot i nonce (release_slot i nonce p) ≡ release_slot i nonce p
  release_twice p i nonce v lt =
      (release_slot_lem (release_slot i nonce p) i nonce (release_slot_lem p i nonce v).0).1
        (nonce_matches-release_slot p i nonce v lt)
