-- ===== src/Modules/Scanning.antt =====
-- modules/mod.rs: what holds of the result of a scan while it is built, module by module.
use framehopunwind.Base.{
  ℕ, ◌+◌, ◌≤◌, ◌≡◌, refl, sym, ◌∙◌, ap, subst, Bool, true, false, Option, none, some, List, [], ◌∷◌,
  ◌++◌, HashMap, get, insert, get-insert, Distinct, insert-Distinct, ◌==◌, if◌then◌else◌, arith,
}
use framehopunwind.Framehop.{Framehop, ModuleLaws}
use framehopunwind.Modules.Refresh.{EnumResult, is_known}
use framehopunwind.Modules.Counts.{is_fresh, starts_at}

-- What a scan adds to its result for one loaded image: its key and fingerprint, and its module, if
-- it could be built and is not known already.
abbrev pub push_module {ℓ} : {M : Type ℓ} → ℕ → Option M → List (ℕ × M) → List (ℕ × M)
push_module key none l = l
push_module key (some m) l = l ++ ((key, m) ∷ [])

-- The arithmetic of one key, `n` modules before and `n'` after.
pub added-fresh :
    (seen known : Option ℕ) (key k fp n n' : ℕ)
    → n ≤ (if is_fresh seen known then 1 else 0)
    → (key ≡ k → seen ≡ none)
    → n' ≤ n + (if key == k then 1 else 0)
    → (key ≡ k → is_known known fp ≡ true → n' ≡ n)
    → n' ≤ (if is_fresh (if key == k then some fp else seen) known then 1 else 0)
added-fresh none none key k fp n n' = ground arith
added-fresh none (some old) key k fp n n' = ground arith
added-fresh (some s) none key k fp n n' = ground arith
added-fresh (some s) (some old) key k fp n n' = ground arith

module _ {fh : Framehop} where
  abbrev pub add_image : HashMap ℕ → ℕ → ℕ → Option fh.Module → EnumResult fh → EnumResult fh
  add_image known key fp m res = record {
    current = insert key fp res.current;
    new_modules =
        if is_known (get key known) fp then res.new_modules else push_module key m res.new_modules;
  }

module _ {fh : Framehop} (laws : ModuleLaws fh) where
  open laws use {start}

  -- A module starts at its key.
  abbrev pub StartsAt : ℕ → Option fh.Module → Type 0
  StartsAt key none = Unit
  StartsAt key (some m) = start m ≡ key

  -- Each image is listed once, and a module only where it is new.
  pub record Fine (known : HashMap ℕ) (res : EnumResult fh) : Type 0 where
    pub once : Distinct res.current
    pub fresh :
        (k : ℕ)
        → starts_at laws k res.new_modules
          ≤ (if is_fresh (get k res.current) (get k known) then 1 else 0)

  starts_at-push :
      (k key : ℕ) (m : Option fh.Module) (l : List (ℕ × fh.Module))
      → StartsAt key m
      → starts_at laws k (push_module key m l) ≤ starts_at laws k l + (if key == k then 1 else 0)
  starts_at-push k key none l f = omega arith
  starts_at-push k key (some m) [] f = ground arith
  starts_at-push k key (some m) (x ∷ l) f = ground (arith, starts_at-push k key (some m) l f)

  pushed-le :
      (b : Bool) (k key : ℕ) (m : Option fh.Module) (l : List (ℕ × fh.Module))
      → StartsAt key m
      → starts_at laws k (if b then l else push_module key m l)
        ≤ starts_at laws k l + (if key == k then 1 else 0)
  pushed-le true k key m l f = omega arith
  pushed-le false k key m l f = starts_at-push k key m l f

  pushed-same :
      (b : Bool) (k key : ℕ) (m : Option fh.Module) (l : List (ℕ × fh.Module))
      → b ≡ true
      → starts_at laws k (if b then l else push_module key m l) ≡ starts_at laws k l
  pushed-same b k key m l e = rw e refl

  pub add_image-Fine :
      (known : HashMap ℕ) (key fp : ℕ) (m : Option fh.Module) (res : EnumResult fh)
      → StartsAt key m
      → get key res.current ≡ none
      → Fine known res
      → Fine known (add_image known key fp m res)
  add_image-Fine known key fp m res f new fine =
      let b = is_known (get key known) fp in
      let after = if b then res.new_modules else push_module key m res.new_modules in
      record {
        once = insert-Distinct key fp res.current fine.once;
        fresh = λ k.
            subst (λ o. starts_at laws k after ≤ (if is_fresh o (get k known) then 1 else 0))
              (sym (get-insert key k fp res.current))
              (added-fresh (get k res.current) (get k known) key k fp
                (starts_at laws k res.new_modules) (starts_at laws k after) (fine.fresh k)
                (λ e. ap (λ x. get x res.current) (sym e) ∙ new)
                (pushed-le b k key m res.new_modules f)
                (λ e is.
                  pushed-same b k key m res.new_modules
                    (ap (λ x. is_known (get x known) fp) e ∙ is)));
      }
