-- ===== src/Modules/Jit/Range.antt =====
-- modules/jit.rs: the code range that `fde_pc_range` finds.
use framehopunwind.Base.{
  ℕ, ◌≤◌, ◌<◌, ◌≡◌, ◌⊎◌, inl, inr, refl, sym, subst, Bool, true, false, ◌&&◌, Option, none, some,
  List, [], ◌∷◌, ltb, if◌then◌else◌, u64_max, wrapping_add, Bool-cases, arith,
}
use framehopunwind.Modules.Jit.{Entry, cie, fde, malformed, scan_fdes, scanned_range, fde_pc_range}

-- Some FDE of the list starts at `start` and ends, by an addition that wraps, at `end`.
abbrev pub HasFde : ℕ → ℕ → List Entry → Type 0
HasFde start end [] = ⊥
HasFde start end (cie ∷ l) = HasFde start end l
HasFde start end (fde s len ∷ l) = ((start ≡ s) × (end ≡ wrapping_add s len)) ⊎ HasFde start end l
HasFde start end (malformed ∷ l) = HasFde start end l

abbrev pub is_malformed : List Entry → Bool
is_malformed [] = false
is_malformed (cie ∷ l) = is_malformed l
is_malformed (fde s len ∷ l) = is_malformed l
is_malformed (malformed ∷ l) = true

-- What the loop has made of `lo` and `hi`, on FDEs of which `Has` tells.
record Extremes (Has : ℕ → ℕ → Type 0) (lo hi lo' hi' : ℕ) (found' : Bool) : Type 0 where
  below : (lo' ≤ lo) × (hi ≤ hi')
  covers : (s e : ℕ) → Has s e → (lo' ≤ s) × (e ≤ hi') × (found' ≡ true)
  low : (lo' ≡ lo) ⊎ ((s : ℕ) × (e : ℕ) × Has s e × (s ≡ lo'))
  high : (hi' ≡ hi) ⊎ ((s : ℕ) × (e : ℕ) × Has s e × (e ≡ hi'))

abbrev ScanResult : (ℕ → ℕ → Type 0) → Bool → ℕ → ℕ → Bool → Option (ℕ × ℕ × Bool) → Type 0
ScanResult Has bad lo hi found none = bad ≡ true
ScanResult Has bad lo hi found (some (lo', hi', found')) =
    Extremes Has lo hi lo' hi' found' × (found ≡ true → found' ≡ true) × (bad ≡ false)

replaced : (b : Bool) (x old r : ℕ) → r ≡ (if b then x else old) → (r ≡ old) ⊎ (x ≡ r)
replaced true x old r e = inr (sym e)
replaced false x old r e = inl e

extend :
    (s len : ℕ) (l : List Entry) (lo hi : ℕ) (found : Bool) (r : Option (ℕ × ℕ × Bool))
    → ScanResult
        (λ a b. HasFde a b l)
        (is_malformed l)
        (if ltb s lo then s else lo)
        (if ltb hi (wrapping_add s len) then wrapping_add s len else hi)
        true
        r
    → ScanResult (λ a b. HasFde a b (fde s len ∷ l)) (is_malformed l) lo hi found r
extend s len l lo hi found none h = h
extend s len l lo hi found (some (lo', hi', found')) (x, stays, good) = (
  record {
    below = ground (arith, x.below);
    covers = λ a b has. elim has [
      | inl (es, ee) ↦ (ground (arith, x.below), ground (arith, x.below), stays refl)
      | inr later ↦ x.covers a b later
    ];
    low = elim x.low [
      | inl e ↦ elim (replaced (ltb s lo) s lo lo' e) [
        | inl old ↦ inl old
        | inr new ↦ inr (s, wrapping_add s len, inl (refl, refl), new)
      ]
      | inr (a, b, has, e) ↦ inr (a, b, inr has, e)
    ];
    high = elim x.high [
      | inl e ↦ elim (replaced (ltb hi (wrapping_add s len)) (wrapping_add s len) hi hi' e) [
        | inl old ↦ inl old
        | inr new ↦ inr (s, wrapping_add s len, inl (refl, refl), new)
      ]
      | inr (a, b, has, e) ↦ inr (a, b, inr has, e)
    ];
  },
  λ _. stays refl,
  good,
)

scan_fdes_lem :
    (l : List Entry) (lo hi : ℕ) (found : Bool)
    → ScanResult (λ a b. HasFde a b l) (is_malformed l) lo hi found (scan_fdes l lo hi found)
unfolding scan_fdes
scan_fdes_lem [] lo hi found = (
  record {
    below = (omega arith, omega arith);
    covers = λ s e has. absurd has;
    low = inl refl;
    high = inl refl;
  },
  λ h. h,
  refl,
)
scan_fdes_lem (cie ∷ l) lo hi found = scan_fdes_lem l lo hi found
scan_fdes_lem (fde s len ∷ l) lo hi found =
    extend s len l lo hi found
      (scan_fdes l (if ltb s lo then s else lo)
        (if ltb hi (wrapping_add s len) then wrapping_add s len else hi) true)
      (scan_fdes_lem l (if ltb s lo then s else lo)
        (if ltb hi (wrapping_add s len) then wrapping_add s len else hi) true)
scan_fdes_lem (malformed ∷ l) lo hi found = refl

-- The range of the section, or why there is none.
abbrev pub RangeResult : List Entry → Option (ℕ × ℕ) → Type 0
RangeResult l none =
    (is_malformed l ≡ true) ⊎ ((s e s' e' : ℕ) → HasFde s e l → HasFde s' e' l → e ≤ s')
RangeResult l (some (lo, hi)) =
    (lo < hi)
    × (is_malformed l ≡ false)
    × ((s e : ℕ) → HasFde s e l → (lo ≤ s) × (e ≤ hi))
    × ((e : ℕ) × HasFde lo e l)
    × ((s : ℕ) × HasFde s hi l)

HasFde-le : (s e : ℕ) (l : List Entry) → HasFde s e l → e ≤ u64_max
HasFde-le s e [] has = absurd has
HasFde-le s e (cie ∷ l) has = HasFde-le s e l has
HasFde-le s e (fde a len ∷ l) (inl (es, ee)) = omega arith
HasFde-le s e (fde a len ∷ l) (inr has) = HasFde-le s e l has
HasFde-le s e (malformed ∷ l) has = HasFde-le s e l has

ends_at :
    (l : List Entry) (lo hi : ℕ) (found : Bool)
    → Extremes (λ a b. HasFde a b l) u64_max 0 lo hi found
    → lo < hi
    → (s : ℕ) × HasFde s hi l
ends_at l lo hi found x more = elim x.high [
  | inl e ↦ absurd (omega arith)
  | inr (s, b, has, e) ↦ (s, subst (λ v. HasFde s v l) e has)
]

starts_at :
    (l : List Entry) (lo hi : ℕ) (found : Bool)
    → Extremes (λ a b. HasFde a b l) u64_max 0 lo hi found
    → lo < hi
    → (e : ℕ) × HasFde lo e l
starts_at l lo hi found x more =
    let (s, last) = ends_at l lo hi found x more in
    let top = HasFde-le s hi l last in
    elim x.low [
      | inl e ↦ absurd (omega arith)
      | inr (a, b, has, e) ↦ (b, subst (λ v. HasFde v b l) e has)
    ]

range_lem :
    (l : List Entry) (r : Option (ℕ × ℕ × Bool))
    → ScanResult (λ a b. HasFde a b l) (is_malformed l) u64_max 0 false r
    → RangeResult l (scanned_range r)
unfolding scanned_range
range_lem l none bad = inl bad
range_lem l (some (lo, hi, found)) (x, stays, good) = elim (Bool-cases (found && ltb lo hi)) [
  | inl usable ↦
      let more : lo < hi = ground arith in
      rw usable (
        more,
        good,
        λ s e has. ((x.covers s e has).0, (x.covers s e has).1),
        starts_at l lo hi found x more,
        ends_at l lo hi found x more,
      )
  | inr empty ↦ rw empty (inr (λ s e s' e' h h'. ground (arith, x.covers s e h, x.covers s' e' h')))
]

-- `fde_pc_range` finds a range exactly if the section is well-formed and some FDE ends above the
-- start of one. It then covers every FDE, and is the smallest range that does: an FDE starts at its
-- start, and one ends at its end.
pub fde_pc_range_lem : (entries : List Entry) → RangeResult entries (fde_pc_range entries)
unfolding fde_pc_range
fde_pc_range_lem entries =
    range_lem entries (scan_fdes entries u64_max 0 false) (scan_fdes_lem entries u64_max 0 false)
