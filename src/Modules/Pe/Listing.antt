-- ===== src/Modules/Pe/Listing.antt =====
-- modules/pe.rs: what the loop that lists the modules ends with.
use framehopunwind.Base.{
  ℕ, zero, suc, ◌+◌, ◌≤◌, ◌<◌, ◌≡◌, ◌⊎◌, inl, inr, refl, sym, ◌∙◌, ap, subst, true, Option, none,
  some, is_some, List, [], ◌∷◌, length, take, leb, Bool-cases, arith,
}
use framehopunwind.Modules.Pe.{Windows, list_once, resized, listed_or, list_modules}

take-all : (len : ℕ) (l : List ℕ) → length l ≤ len → take len l ≡ l
take-all zero [] fits = refl
take-all zero (x ∷ l) fits = absurd (omega (arith, fits))
take-all (suc len) [] fits = refl
take-all (suc len) (x ∷ l) fits = ap (λ r. x ∷ r) (take-all len l (omega (arith, fits)))

-- A list that is given is that of this attempt, or of a later one.
listed_or-cases :
    (len : ℕ) (o later : Option (List ℕ)) (handles : List ℕ)
    → listed_or later (list_once len o) ≡ some handles
    → (o ≡ some handles) ⊎ (later ≡ some handles)
unfolding list_once
listed_or-cases len none later handles = λ e. ground (arith, e)
listed_or-cases len (some l) later handles = elim (Bool-cases (leb (length l) len)) [
  | inl fits ↦ rw fits (λ e. inl (ap some (sym (take-all len l (ground (arith, fits)))) ∙ e))
  | inr more ↦ rw more (λ e. inr e)
]

listed_or-done :
    (len : ℕ) (l : List ℕ) (later : ℕ → Option (List ℕ))
    → (len < length l → is_some (later (length l + 8)) ≡ true)
    → is_some (listed_or (later (resized (list_once len (some l)))) (list_once len (some l))) ≡ true
unfolding list_once
listed_or-done len l later next = elim (Bool-cases (leb (length l) len)) [
  | inl fits ↦ rw fits refl
  | inr more ↦ rw more (next (ground (arith, more)))
]

module _ (win : Windows) where
  -- Every list that the loop gives is whole: the one loaded at some attempt within the limit.
  pub list_modules-whole :
      (left attempt len : ℕ) (handles : List ℕ)
      → list_modules win left attempt len ≡ some handles
      → (i : ℕ) × (i < attempt + left) × (win.process_modules i ≡ some handles)
  unfolding list_modules
  list_modules-whole zero attempt len handles e = cc
  list_modules-whole (suc left) attempt len handles e =
      let once = list_once len (win.process_modules attempt) in
      let later = list_modules win left (attempt + 1) (resized once) in
      elim (listed_or-cases len (win.process_modules attempt) later handles e) [
        | inl here ↦ (attempt, omega arith, here)
        | inr there ↦
            let (i, lt, is) = list_modules-whole left (attempt + 1) (resized once) handles there in
            (i, omega (arith, lt), is)
      ]

  list_modules-ends :
      (lists : ℕ → List ℕ) (i left attempt len : ℕ)
      → ((k : ℕ) → win.process_modules k ≡ some (lists k))
      → length (lists (i + 1)) ≤ length (lists i) + 8
      → attempt ≤ i + 1
      → i + 1 < attempt + left
      → (attempt ≡ i + 1 → length (lists i) + 8 ≤ len)
      → is_some (list_modules win left attempt len) ≡ true
  unfolding list_modules
  list_modules-ends lists i zero attempt len answers few early fits roomy =
      absurd (omega (arith, early, fits))
  list_modules-ends lists i (suc left) attempt len answers few early fits roomy =
      let later = list_modules win left (attempt + 1) in
      subst (λ o. is_some (listed_or (later (resized (list_once len o))) (list_once len o)) ≡ true)
        (sym (answers attempt))
        (listed_or-done len (lists attempt) later (λ more.
          let before : ¬ (attempt ≡ i + 1) = λ e.
            let same = ap (λ k. length (lists k)) e in
            let room = roomy e in omega (arith, more, few, same, room) in
          list_modules-ends lists i left (attempt + 1) (length (lists attempt) + 8) answers few
            (omega (arith, early, before)) (omega (arith, fits))
            (λ e.
              let same : length (lists attempt) ≡ length (lists i) =
                ap (λ k. length (lists k)) (omega (arith, e)) in
              omega (arith, same))))

  some_of : (o : Option (List ℕ)) → is_some o ≡ true → (handles : List ℕ) × (o ≡ some handles)
  some_of none e = cc
  some_of (some l) e = (l, refl)

  -- If between the attempt `i` and the next at most 8 modules are loaded, and the next is among the
  -- attempts that are left (with a buffer that has room for it, should it be the first): the loop
  -- ends with the list of all modules that are loaded at one of its attempts.
  pub list_modules-done :
      (lists : ℕ → List ℕ) (i left attempt len : ℕ)
      → ((k : ℕ) → win.process_modules k ≡ some (lists k))
      → length (lists (i + 1)) ≤ length (lists i) + 8
      → attempt ≤ i + 1
      → i + 1 < attempt + left
      → (attempt ≡ i + 1 → length (lists i) + 8 ≤ len)
      → (k : ℕ) × (k < attempt + left) × (list_modules win left attempt len ≡ some (lists k))
  list_modules-done lists i left attempt len answers few early fits roomy =
      let (handles, is) =
        some_of (list_modules win left attempt len)
          (list_modules-ends lists i left attempt len answers few early fits roomy) in
      let (k, lt, loaded) = list_modules-whole left attempt len handles is in
      (k, lt, is ∙ (sym loaded ∙ answers k))
