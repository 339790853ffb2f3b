-- ===== src/Sigreturn/Laws.antt =====
-- sigreturn.rs: what counts as the trampoline, and what is restored.
use framehopunwind.Base.{
  ℕ, zero, suc, ◌+◌, ◌-◌, ◌*◌, ◌/◌, ◌%◌, ◌<◌, ◌≡◌, ◌⊎◌, inl, inr, refl, true, not, ◌&&◌, ◌||◌,
  Option, none, some, List, [], ◌∷◌, ◌==◌, Bool-cases, ℕ_discrete, subst, arith,
}
use framehopunwind.Sigreturn.{
  VdsoPhdr, Vdso, sigreturn_mov, sigreturn_svc, find_code, or_next, find_in, find_trampoline,
  is_trampoline,
}

-- The two instructions stand at `a`.
abbrev pub SigreturnAt : (ℕ → ℕ) → ℕ → Type 0
SigreturnAt word_at a = (word_at a ≡ sigreturn_mov) × (word_at (a + 4) ≡ sigreturn_svc)

-- Where a scan over `w` windows from `a` on stops.
abbrev FoundCode : (ℕ → ℕ) → ℕ → ℕ → Option ℕ → Type 0
FoundCode word_at w a none = (i : ℕ) → i < w → ¬ SigreturnAt word_at (a + 4 * i)
FoundCode word_at w a (some t) = SigreturnAt word_at t × (i : ℕ) × (i < w) × (t ≡ a + 4 * i)

next_code :
    (word_at : ℕ → ℕ) (w a : ℕ) (r : Option ℕ)
    → ¬ SigreturnAt word_at a
    → FoundCode word_at w (a + 4) r
    → FoundCode word_at (suc w) a r
next_code word_at w a none here later = λ i lt h. elim (ℕ_discrete i 0) [
  | yes first ↦ let e : a + 4 * i ≡ a = omega arith in here (subst (SigreturnAt word_at) e h)
  | no further ↦
      let e : a + 4 * i ≡ a + 4 + 4 * (i - 1) = omega arith in
      later (i - 1) (omega arith) (subst (SigreturnAt word_at) e h)
]
next_code word_at w a (some t) here (at, i, lt, e) = (at, i + 1, omega arith, omega arith)

find_code_lem : (word_at : ℕ → ℕ) (w a : ℕ) → FoundCode word_at w a (find_code word_at w a)
unfolding find_code
find_code_lem word_at zero a = λ i lt. absurd (omega arith)
find_code_lem word_at (suc w) a =
    elim (Bool-cases ((word_at a == sigreturn_mov) && (word_at (a + 4) == sigreturn_svc))) [
      | inl here ↦ rw here ((ground arith, ground arith), 0, omega arith, omega arith)
      | inr other ↦ rw other (
          next_code word_at w a (find_code word_at w (a + 4)) (λ h. ground (arith, h))
            (find_code_lem word_at w (a + 4)))
    ]

-- `a` is the first of two words in an executable loaded segment.
abbrev pub InCode : ℕ → List VdsoPhdr → ℕ → Type 0
InCode base [] a = ⊥
InCode base (ph ∷ l) a =
    ((ph.p_type ≡ 1)
      × (ph.p_flags % 2 ≡ 1)
      × (i : ℕ) × (i < ph.p_filesz / 4 - 1)
      × (a ≡ base + ph.p_offset + 4 * i))
    ⊎ InCode base l a

-- What the search found: an address of the two instructions, or nothing although it looked everywhere.
abbrev pub Search : (ℕ → ℕ) → ℕ → List VdsoPhdr → ℕ → Type 0
Search word_at base l r =
    (SigreturnAt word_at r × InCode base l r)
    ⊎ ((r ≡ 0) × ((a : ℕ) → InCode base l a → ¬ SigreturnAt word_at a))

later_segment :
    (word_at : ℕ → ℕ) (base : ℕ) (ph : VdsoPhdr) (l : List VdsoPhdr) (r : ℕ)
    → (((ph.p_type ≡ 1) × (ph.p_flags % 2 ≡ 1))
        → (i : ℕ) → i < ph.p_filesz / 4 - 1
        → ¬ SigreturnAt word_at (base + ph.p_offset + 4 * i))
    → Search word_at base l r
    → Search word_at base (ph ∷ l) r
later_segment word_at base ph l r clear (inl (at, where_)) = inl (at, inr where_)
later_segment word_at base ph l r clear (inr (null, rest)) = inr (
  null,
  λ a found at. elim found [
    | inl (load, exec, i, lt, e) ↦ clear (load, exec) i lt (subst (SigreturnAt word_at) e at)
    | inr later ↦ rest a later at
  ],
)

this_segment :
    (word_at : ℕ → ℕ) (base : ℕ) (ph : VdsoPhdr) (l : List VdsoPhdr) (next : ℕ) (r : Option ℕ)
    → ph.p_type ≡ 1
    → ph.p_flags % 2 ≡ 1
    → FoundCode word_at (ph.p_filesz / 4 - 1) (base + ph.p_offset) r
    → Search word_at base l next
    → Search word_at base (ph ∷ l) (or_next r next)
this_segment word_at base ph l next none load exec clear rest =
    later_segment word_at base ph l next (λ _. clear) rest
this_segment word_at base ph l next (some t) load exec (at, i, lt, e) rest =
    inl (at, inl (load, exec, i, lt, e))

find_in_lem :
    (word_at : ℕ → ℕ) (base : ℕ) (l : List VdsoPhdr)
    → Search word_at base l (find_in word_at base l)
unfolding find_in
find_in_lem word_at base [] = inr (refl, λ a found at. found)
find_in_lem word_at base (ph ∷ l) =
    elim (Bool-cases (not (ph.p_type == 1) || (ph.p_flags % 2 == 0))) [
      | inl skip ↦ rw skip (
          later_segment word_at base ph l (find_in word_at base l)
            (λ (load, exec) i lt at. ground (arith, skip, load, exec)) (find_in_lem word_at base l))
      | inr code ↦ rw code (
          this_segment word_at base ph l (find_in word_at base l)
            (find_code word_at (ph.p_filesz / 4 - 1) (base + ph.p_offset)) (ground (arith, code))
            (ground (arith, code))
            (find_code_lem word_at (ph.p_filesz / 4 - 1) (base + ph.p_offset))
            (find_in_lem word_at base l))
    ]

-- The search of the vDSO finds an address in an executable loaded segment where the two
-- instructions of the trampoline stand; or it returns null, and then they stand nowhere in these
-- segments.
pub find_trampoline_lem :
    (word_at : ℕ → ℕ) (v : Vdso) → Search word_at v.base v.phdrs (find_trampoline word_at (some v))
unfolding find_trampoline
find_trampoline_lem word_at v = find_in_lem word_at v.base v.phdrs

-- After `init`, an address is taken for the trampoline only if its two instructions stand there.
pub is_trampoline-SigreturnAt :
    (word_at : ℕ → ℕ) (v : Vdso) (ip : ℕ)
    → is_trampoline (some (find_trampoline word_at (some v))) ip ≡ true
    → SigreturnAt word_at ip
unfolding is_trampoline
is_trampoline-SigreturnAt word_at v ip h =
    let t = find_trampoline word_at (some v) in
    let e : t ≡ ip = ground arith in
    elim (find_trampoline_lem word_at v) [
      | inl (at, where_) ↦ subst (SigreturnAt word_at) e at
      | inr (null, clear) ↦ absurd (ground (arith, null, h))
    ]
