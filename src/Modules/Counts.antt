-- ===== src/Modules/Counts.antt =====
-- modules/mod.rs: how each step of a refresh changes the number of published modules at a key.
use framehopunwind.Base.{
  ℕ, ◌+◌, ◌-◌, ◌≤◌, ◌≡◌, inl, inr, refl, ◌∙◌, ap, Bool, true, false, not, Option, none, some,
  is_some, List, [], ◌∷◌, HashMap, HashSet, get, contains, count, Distinct, ◌==◌, if◌then◌else◌,
  Bool-cases, arith,
}
use framehopunwind.Framehop.{Framehop, ModuleLaws}
use framehopunwind.Modules.Registry.{Tracker}
use framehopunwind.Modules.Refresh.{
  EnumResult, keys_where, differs, remove_all, add_all, remove_static, is_empty,
}

-- Whether the module of a key is new: loaded now, and not known with the same fingerprint.
abbrev pub is_fresh : Option ℕ → Option ℕ → Bool
is_fresh none known = false
is_fresh (some fp) none = true
is_fresh (some fp) (some old) = not (fp == old)

-- Whether it is loaded now, and was known with the same fingerprint.
abbrev pub is_kept : Option ℕ → Option ℕ → Bool
is_kept none known = false
is_kept (some fp) none = false
is_kept (some fp) (some old) = fp == old

-- 1 if the entry of `k` passes the test.
abbrev pub passes : (ℕ → ℕ → Bool) → ℕ → Option ℕ → ℕ
passes p k none = 0
passes p k (some fp) = if p k fp then 1 else 0

pub count-keys_where :
    (p : ℕ → ℕ → Bool) (k : ℕ) (m : HashMap ℕ)
    → Distinct m
    → count k (keys_where p m) ≡ passes p k (get k m)
unfolding keys_where count get
count-keys_where p k [] d = refl
count-keys_where p k ((j, fp) ∷ m) d = ground (arith, count-keys_where p k m d.1)

pub count-is_empty : (k : ℕ) (l : List ℕ) → is_empty l ≡ true → count k l ≡ 0
unfolding is_empty count
count-is_empty k [] e = refl
count-is_empty k (x ∷ l) e = cc

-- The arithmetic of one key: `w` modules of it published before, `n` found new, `c` removed as
-- changed, `a` published after those two steps, and `g` removed as gone.
pub one_key :
    (jit : Bool) (current known : Option ℕ) (n w a c g : ℕ)
    → a ≡ n + (w - c)
    → c ≡ passes (λ k fp. differs fp current) 0 known
    → g ≡ passes (λ k fp. not (is_some current)) 0 known
    → n ≤ (if is_fresh current known then 1 else 0)
    → w ≤ 1
    → (jit ≡ true → known ≡ none)
    → (jit ≡ true → current ≡ none)
    → (jit ≡ false → known ≡ none → w ≡ 0)
    → (if jit then a else a - g) ≡ (if jit then w else n + (if is_kept current known then w else 0))
one_key jit none none n w a c g = ground arith
one_key jit none (some old) n w a c g = ground arith
one_key jit (some fp) none n w a c g = ground arith
one_key jit (some fp) (some old) n w a c g = ground arith

pub one_key_le :
    (current known : Option ℕ) (n w : ℕ)
    → n ≤ (if is_fresh current known then 1 else 0)
    → w ≤ 1
    → n + (if is_kept current known then w else 0) ≤ 1
one_key_le none none n w = ground arith
one_key_le none (some old) n w = ground arith
one_key_le (some fp) none n w = ground arith
one_key_le (some fp) (some old) n w = ground arith

module _ {fh : Framehop} (laws : ModuleLaws fh) where
  open laws use {start, count_at, count_at-add, count_at-remove}

  -- How many of the modules found start at `k`.
  abbrev pub starts_at : ℕ → List (ℕ × fh.Module) → ℕ
  starts_at k [] = 0
  starts_at k ((j, m) ∷ l) = (if start m == k then 1 else 0) + starts_at k l

  -- What the scan promises: one entry per loaded module, at most one new module for a key, only
  -- where the key is new or its fingerprint changed, and no loaded module at a JIT module's key.
  pub record Scanned (res : EnumResult fh) (t : Tracker fh) : Type 0 where
    pub once : Distinct res.current
    pub fresh :
        (k : ℕ)
        → starts_at k res.new_modules
          ≤ (if is_fresh (get k res.current) (get k t.reg.static_mods) then 1 else 0)
    pub apart : (k : ℕ) → contains k t.reg.jit_keys ≡ true → get k res.current ≡ none

  pub remove_all-count :
      (k : ℕ) (l : List ℕ) (u : fh.Unwinder)
      → count_at (remove_all fh l u) k ≡ count_at u k - count k l
  unfolding remove_all count
  remove_all-count k [] u = ground arith
  remove_all-count k (j ∷ l) u =
      remove_all-count k l (fh.remove_module u j) ∙ ground (arith, count_at-remove u j k)

  pub add_all-count :
      (k : ℕ) (l : List (ℕ × fh.Module)) (u : fh.Unwinder)
      → count_at (add_all fh l u) k ≡ starts_at k l + count_at u k
  unfolding add_all
  add_all-count k [] u = ground arith
  add_all-count k ((j, m) ∷ l) u =
      add_all-count k l (fh.add_module u m) ∙ ground (arith, count_at-add u m k)

  pub remove_static-count :
      (jit : HashSet) (k : ℕ) (l : List ℕ) (u : fh.Unwinder)
      → count_at (remove_static fh jit l u) k
        ≡ (if contains k jit then count_at u k else count_at u k - count k l)
  unfolding remove_static count
  remove_static-count jit k [] u = ground arith
  remove_static-count jit k (j ∷ l) u =
      let same : j ≡ k → contains j jit ≡ contains k jit = λ e. ap (λ x. contains x jit) e in
      elim (Bool-cases (contains j jit)) [
        | inl known ↦ rw known (remove_static-count jit k l u ∙ ground (arith, same))
        | inr unknown ↦ rw unknown (
            remove_static-count jit k l (fh.remove_module u j)
            ∙ ground (arith, same, count_at-remove u j k))
      ]

  pub starts_at-is_empty :
      (k : ℕ) (l : List (ℕ × fh.Module)) → is_empty l ≡ true → starts_at k l ≡ 0
  unfolding is_empty
  starts_at-is_empty k [] e = refl
  starts_at-is_empty k (x ∷ l) e = cc
