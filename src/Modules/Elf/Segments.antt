-- ===== src/Modules/Elf/Segments.antt =====
-- modules/elf.rs: the segment that bounds an `.eh_frame` section.
use framehopunwind.Base.{
  ℕ, ◌≤◌, ◌<◌, ◌≡◌, ◌⊎◌, inl, inr, refl, not, ◌&&◌, Option, none, some, List, [], ◌∷◌, ltb, leb,
  ◌==◌, wrapping_add, Bool-cases, arith,
}
use framehopunwind.Modules.Elf.{Phdr, pt_load, containing_segment_end}

-- `addr` lies in the loaded segment `ph`, which ends at `e`.
abbrev pub Holds : ℕ → ℕ → ℕ → Phdr → Type 0
Holds bias addr e ph =
    (ph.p_type ≡ pt_load)
    × (wrapping_add bias ph.p_vaddr ≤ addr)
    × (addr < e)
    × (e ≡ wrapping_add (wrapping_add bias ph.p_vaddr) ph.p_memsz)

abbrev pub InSegment : ℕ → ℕ → ℕ → List Phdr → Type 0
InSegment bias addr e [] = ⊥
InSegment bias addr e (ph ∷ l) = Holds bias addr e ph ⊎ InSegment bias addr e l

abbrev pub SegmentEnd : ℕ → ℕ → List Phdr → Option ℕ → Type 0
SegmentEnd bias addr l none = (e : ℕ) → ¬ InSegment bias addr e l
SegmentEnd bias addr l (some e) = InSegment bias addr e l

skip_segment :
    (bias addr : ℕ) (ph : Phdr) (l : List Phdr) (r : Option ℕ)
    → ((e : ℕ) → ¬ Holds bias addr e ph)
    → SegmentEnd bias addr l r
    → SegmentEnd bias addr (ph ∷ l) r
skip_segment bias addr ph l none other rest =
    λ e found. elim found [ inl here ↦ other e here | inr later ↦ rest e later ]
skip_segment bias addr ph l (some e) other rest = inr rest

-- `containing_segment_end` finds the end of a loaded segment that the address lies in, or there is
-- no such segment.
pub containing_segment_end_lem :
    (bias addr : ℕ) (l : List Phdr) → SegmentEnd bias addr l (containing_segment_end l bias addr)
unfolding containing_segment_end
containing_segment_end_lem bias addr [] = λ e found. found
containing_segment_end_lem bias addr (ph ∷ l) =
    let lo = wrapping_add bias ph.p_vaddr in
    let hi = wrapping_add lo ph.p_memsz in
    let rest = containing_segment_end_lem bias addr l in
    elim (Bool-cases (not (ph.p_type == 1))) [
      | inl other ↦ rw other (
          skip_segment bias addr ph l (containing_segment_end l bias addr)
            (λ e h. ground (arith, other, h.0)) rest)
      | inr load ↦ elim (Bool-cases (leb lo addr && ltb addr hi)) [
        | inl inside ↦
            rw (load, inside)
              (inl (ground (arith, load), ground (arith, inside), ground (arith, inside), refl))
        | inr outside ↦
            rw (load, outside)
              (skip_segment bias addr ph l (containing_segment_end l bias addr)
                (λ e h. ground (arith, outside, h.1, h.2, h.3)) rest)
      ]
    ]
