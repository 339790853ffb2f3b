-- ===== src/Fixture.antt =====
-- A small unwinding library for the tests: a module is its base address, and a frame is unwound by
-- its frame pointer.
use framehopunwind.Base.{
  ℕ, ◌+◌, ◌-◌, ◌≡◌, ◌≢◌, refl, false, Option, none, some, List, [], ◌∷◌, ◌==◌, if◌then◌else◌, arith,
}
use framehopunwind.Framehop.{Framehop, SpLaws, ModuleLaws, Unwound, caller, root, failed}

abbrev pub without : List ℕ → ℕ → List ℕ
without [] k = []
without (m ∷ l) k = let rest = without l k in if m == k then l else m ∷ rest

abbrev pub highest : List ℕ → ℕ
highest [] = 0
highest (m ∷ l) = m + highest l

abbrev pub Regs : Type 0
Regs = record { lr : ℕ; stack : ℕ; frame : ℕ }

abbrev pub by_frame : Regs → Option ℕ → Option ℕ → Unwound × Regs × Unit {0}
by_frame r none up = (failed, r, tt)
by_frame r (some ra) none = (failed, r, tt)
by_frame r (some ra) (some fp) = (
  if ra == 0 then root else caller ra false,
  record { lr = ra; stack = r.frame + 16; frame = fp },
  tt,
)

abbrev pub toy : Framehop
toy = record {
  Module = ℕ;
  Unwinder = List ℕ;
  Cache = Unit {0};
  UnwindRegs = Regs;
  FrameAddress = ℕ;
  new_module = λ name range base info. range.0;
  new_cache = tt;
  new_unwinder = [];
  add_module = λ u m. m ∷ u;
  remove_module = without;
  max_known_code_address = highest;
  from_instruction_pointer = λ ip. ip;
  return_address = λ ra. ra;
  regs_x86_64 = λ ip s bp. record { lr = ip; stack = s; frame = bp };
  regs_aarch64 = λ mask lr s fp. record { lr = lr; stack = s; frame = fp };
  sp = λ r. r.stack;
  set_sp = λ s r. record { lr = r.lr; stack = s; frame = r.frame };
  set_fp = λ f r. record { lr = r.lr; stack = r.stack; frame = f };
  set_lr = λ l r. record { lr = l; stack = r.stack; frame = r.frame };
  unwind_frame = λ u a r cache read. by_frame r (read (r.frame + 8)) (read r.frame);
}

pub toy-SpLaws : SpLaws toy
toy-SpLaws = record {
  sp_x86_64 = λ ip s bp. refl;
  sp_aarch64 = λ mask lr s f. refl;
  sp-set_sp = λ s r. refl;
}

unfoldable pub count_of : List ℕ → ℕ → ℕ
count_of [] k = 0
count_of (m ∷ l) k = (if m == k then 1 else 0) + count_of l k

pub count_of-without :
    (l : List ℕ) (j k : ℕ) → count_of (without l j) k ≡ count_of l k - (if j == k then 1 else 0)
unfolding count_of
count_of-without [] j k = ground arith
count_of-without (m ∷ l) j k = ground (arith, count_of-without l j k)

unfoldable pub find_at : List ℕ → ℕ → Option ℕ
find_at [] k = none
find_at (m ∷ l) k = let rest = find_at l k in if m == k then some m else rest

pub find_at-add : (u : List ℕ) (m : ℕ) → count_of u m ≡ 0 → find_at (m ∷ u) m ≡ some m
unfolding find_at
find_at-add u m h = ground arith

pub find_at-add_other : (u : List ℕ) (m k : ℕ) → m ≢ k → find_at (m ∷ u) k ≡ find_at u k
unfolding find_at
find_at-add_other u m k ne = ground arith

pub find_at-without : (l : List ℕ) (j k : ℕ) → j ≢ k → find_at (without l j) k ≡ find_at l k
unfolding find_at
find_at-without [] j k ne = refl
find_at-without (m ∷ l) j k ne = ground (arith, find_at-without l j k)

unfoldable pub toy-ModuleLaws : ModuleLaws toy
unfolding count_of find_at
toy-ModuleLaws = record {
  start = λ m. m;
  count_at = count_of;
  start-new_module = λ name lo hi base info. refl;
  count_at-new = λ k. refl;
  count_at-add = λ u m k. refl;
  count_at-remove = count_of-without;
  module_at = find_at;
  module_at-add = find_at-add;
  module_at-add_other = find_at-add_other;
  module_at-remove_other = find_at-without;
}
