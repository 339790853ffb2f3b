-- ===== src/Cursor/Walk/Release.antt =====
-- cursor.rs: what is left of a cursor after `cursor_fini`.
use framehopunwind.Base.{
  ℕ, ◌+◌, ◌%◌, ◌^◌, ◌<◌, ◌≡◌, ◌≢◌, inl, inr, refl, sym, subst, ◌∙◌, ap, true, false, not, ◌&&◌,
  some, ◌==◌, u64_max, Bool-cases, ℕ_discrete, arith,
}
use mathlib.Core.Bool.{false≢true}
use framehopunwind.Framehop.{Framehop}
use framehopunwind.Slots.{Slot, Pool, slot, claim_slot, nonce_is, nonce_matches, released}
use framehopunwind.Slots.Layout.{IsPool}
use framehopunwind.Slots.Claims.{
  Claimed, ClaimResult, claim_slot_lem, release_slot_lem, nonce_matches-release_slot, release_twice,
}
use framehopunwind.Cursor.Init.{FhCursor, cursor_magic, dead, is_live}
use framehopunwind.Cursor.Walk.{cursor_fini}

module _ {fh : Framehop} where
  seq_of_match :
      (pool : Pool fh) (i nonce : ℕ) (s : Slot fh)
      → slot i pool ≡ some s
      → nonce_matches i nonce pool ≡ true
      → s.seq ≡ nonce
  unfolding nonce_matches
  seq_of_match pool i nonce s e h =
      let same : (s.seq == nonce) ≡ true = sym (ap (nonce_is nonce) e) ∙ h in ground arith

  live_matches :
      (c : FhCursor) (pool : Pool fh)
      → is_live c pool ≡ true
      → nonce_matches c.slot_index c.nonce pool ≡ true
  unfolding is_live
  live_matches c pool live = ground arith

  stale_of_mismatch :
      (c : FhCursor) (pool : Pool fh)
      → nonce_matches c.slot_index c.nonce pool ≡ false
      → is_live c pool ≡ false
  unfolding is_live
  stale_of_mismatch c pool e = ground arith

  -- `cursor_fini` kills the cursor and every copy of it: none is live afterwards, and a copy's own
  -- `cursor_fini` changes nothing more. A live cursor's slot is free then, with no hazard, and no
  -- other slot has changed.
  pub cursor_fini_lem :
      (c : FhCursor) (pool : Pool fh)
      → IsPool pool
      → c.nonce < 2 ^ 64
      → let after = (cursor_fini c pool).1 in
        ((cursor_fini c pool).0 ≡ dead)
        × (is_live c after ≡ false)
        × ((cursor_fini c after).1 ≡ after)
        × IsPool after
        × ((s : Slot fh)
            → slot c.slot_index pool ≡ some s
            → is_live c pool ≡ true
            → (slot c.slot_index after ≡ some (released c.nonce s))
              × ((j : ℕ) → c.slot_index ≢ j → slot j after ≡ slot j pool))
  unfolding cursor_fini is_live
  cursor_fini_lem c pool v small =
      elim (Bool-cases (c.magic == cursor_magic && not (c.slot_index == u64_max))) [
        | inl owner ↦ rw owner (
          refl,
          nonce_matches-release_slot pool c.slot_index c.nonce v small,
          release_twice pool c.slot_index c.nonce v small,
          (release_slot_lem pool c.slot_index c.nonce v).0,
          λ s e live.
              let done =
                (release_slot_lem pool c.slot_index c.nonce v).2 s e
                  (seq_of_match pool c.slot_index c.nonce s e live) in
              (done.after, done.others),
        )
        | inr other ↦ rw other (refl, refl, refl, v, λ s e live. absurd (false≢true live))
      ]

  reused :
      (c : FhCursor) (pool : Pool fh) (s : Slot fh) {i nonce : ℕ} {q : Pool fh}
      → c.nonce < 2 ^ 64
      → slot c.slot_index pool ≡ some (released c.nonce s)
      → Claimed pool i nonce q
      → nonce_matches c.slot_index c.nonce q ≡ false
  unfolding nonce_matches
  reused c pool s {i} {nonce} {q} small e claimed = elim (ℕ_discrete i c.slot_index) [
    | yes same ↦
        let before : claimed.before.seq ≡ (c.nonce + 1) % 2 ^ 64 =
          ground (arith, claimed.found, e) in
        let other : (nonce == c.nonce) ≡ false = ground (arith, claimed.bumped) in
        subst (λ j. nonce_is c.nonce (slot j q) ≡ false) same
          (ap (nonce_is c.nonce) claimed.after ∙ other)
    | no other ↦ ap (nonce_is c.nonce) (claimed.others c.slot_index other ∙ e) ∙ ground arith
  ]

  -- When a live cursor was released and its slot, or another, is claimed anew, no copy of the old
  -- cursor comes to life.
  pub stale_after_reuse :
      (c : FhCursor) (pool : Pool fh) (s : Slot fh) (i nonce : ℕ) (q : Pool fh)
      → IsPool pool
      → c.nonce < 2 ^ 64
      → is_live c pool ≡ true
      → slot c.slot_index pool ≡ some s
      → claim_slot (cursor_fini c pool).1 ≡ (some (i, nonce), q)
      → is_live c q ≡ false
  stale_after_reuse c pool s i nonce q v small live e claim =
      let done = cursor_fini_lem c pool v small in
      stale_of_mismatch c q (
        reused c (cursor_fini c pool).1 s small (done.4 s e live).0 (
          subst (ClaimResult (cursor_fini c pool).1) claim
            (claim_slot_lem (cursor_fini c pool).1 done.3)))
