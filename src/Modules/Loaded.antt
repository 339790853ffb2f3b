-- ===== src/Modules/Loaded.antt =====
-- modules/mod.rs: what a refresh is to publish, said of the loaded images and not of the scan.
use framehopunwind.Base.{
  ℕ, ◌+◌, ◌≡◌, refl, sym, ◌∙◌, ap, subst, Bool, true, false, not, ◌&&◌, Option, none, some, is_some,
  List, [], ◌∷◌, HashMap, get, get-insert, contains, ◌==◌, if◌then◌else◌, arith,
}
use framehopunwind.Framehop.{Framehop, ModuleLaws}
use framehopunwind.Modules.Registry.{Tracker}
use framehopunwind.Modules.Published.{published_at}
use framehopunwind.Modules.Refresh.{EnumResult, is_known}
use framehopunwind.Modules.Counts.{is_fresh, is_kept, starts_at}
use framehopunwind.Modules.Rescan.{refreshed_at}
use framehopunwind.Modules.Scanning.{add_image, push_module, StartsAt}

-- An image as it is loaded: its address, its fingerprint, and its module if one can be built from
-- it. `none`: it is not one to publish.
abbrev pub Image : Type 0 → Type 0
Image M = Option (ℕ × ℕ × Option M)

abbrev pub or_else : Option ℕ → Option ℕ → Option ℕ
or_else none o = o
or_else (some x) o = some x

module _ {M : Type 0} where
  abbrev pub own_fingerprint : ℕ → Image M → Option ℕ
  own_fingerprint k none = none
  own_fingerprint k (some (key, fp, m)) = if key == k then some fp else none

  -- The fingerprint of the image that is loaded at `k`, if there is one.
  abbrev pub fingerprint_at : ℕ → List (Image M) → Option ℕ
  fingerprint_at k [] = none
  fingerprint_at k (i ∷ l) = or_else (fingerprint_at k l) (own_fingerprint k i)

  -- Whether the image stands at `k`, was not known with its fingerprint, and has a module.
  abbrev pub adds_new : HashMap ℕ → ℕ → Image M → Bool
  adds_new known k none = false
  adds_new known k (some (key, fp, m)) = key == k && is_fresh (some fp) (get key known) && is_some m

  -- How many such images there are.
  abbrev pub new_at : HashMap ℕ → ℕ → List (Image M) → ℕ
  new_at known k [] = 0
  new_at known k (i ∷ l) = (if adds_new known k i then 1 else 0) + new_at known k l

pub or_else-none : (o : Option ℕ) → or_else o none ≡ o
or_else-none none = refl
or_else-none (some x) = refl

pub or_else_assoc : (a b c : Option ℕ) → or_else a (or_else b c) ≡ or_else (or_else a b) c
or_else_assoc none b c = refl
or_else_assoc (some x) b c = refl

module _ {fh : Framehop} where
  -- The result of a scan to which the images are added one by one.
  abbrev pub add_one : HashMap ℕ → Image fh.Module → EnumResult fh → EnumResult fh
  add_one known none res = res
  add_one known (some (key, fp, m)) res = add_image known key fp m res

  abbrev pub add_images : HashMap ℕ → List (Image fh.Module) → EnumResult fh → EnumResult fh
  add_images known [] res = res
  add_images known (i ∷ l) res = add_images known l (add_one known i res)

  add_one-get :
      (known : HashMap ℕ) (i : Image fh.Module) (res : EnumResult fh) (k : ℕ)
      → get k (add_one known i res).current ≡ or_else (own_fingerprint k i) (get k res.current)
  add_one-get known none res k = refl
  add_one-get known (some (key, fp, m)) res k = ground (arith, get-insert key k fp res.current)

  pub add_images-get :
      (known : HashMap ℕ) (l : List (Image fh.Module)) (res : EnumResult fh) (k : ℕ)
      → get k (add_images known l res).current ≡ or_else (fingerprint_at k l) (get k res.current)
  add_images-get known [] res k = refl
  add_images-get known (i ∷ l) res k =
      add_images-get known l (add_one known i res) k
      ∙ ap (or_else (fingerprint_at k l)) (add_one-get known i res k)
      ∙ or_else_assoc (fingerprint_at k l) (own_fingerprint k i) (get k res.current)

module _ {fh : Framehop} (laws : ModuleLaws fh) where
  -- The images' modules start at their addresses.
  abbrev pub Starts : Image fh.Module → Type 0
  Starts none = Unit
  Starts (some (key, fp, m)) = StartsAt laws key m

  abbrev pub AllStart : List (Image fh.Module) → Type 0
  AllStart [] = Unit
  AllStart (i ∷ l) = Starts i × AllStart l

  starts_at-push_module :
      (k key : ℕ) (m : Option fh.Module) (l : List (ℕ × fh.Module))
      → StartsAt laws key m
      → starts_at laws k (push_module key m l)
        ≡ (if key == k && is_some m then 1 else 0) + starts_at laws k l
  starts_at-push_module k key none l f = ground arith
  starts_at-push_module k key (some m) [] f = ground arith
  starts_at-push_module k key (some m) (x ∷ l) f =
      ground (arith, starts_at-push_module k key (some m) l f)

  is_fresh-is_known : (fp : ℕ) (o : Option ℕ) → is_fresh (some fp) o ≡ not (is_known o fp)
  is_fresh-is_known fp none = refl
  is_fresh-is_known fp (some old) = ground arith

  pushed-count :
      (b : Bool) (k key : ℕ) (m : Option fh.Module) (l : List (ℕ × fh.Module))
      → StartsAt laws key m
      → starts_at laws k (if b then l else push_module key m l)
        ≡ (if key == k && not b && is_some m then 1 else 0) + starts_at laws k l
  pushed-count true k key m l f = ground arith
  pushed-count false k key m l f = ground (arith, starts_at-push_module k key m l f)

  add_one-count :
      (known : HashMap ℕ) (i : Image fh.Module) (res : EnumResult fh) (k : ℕ)
      → Starts i
      → starts_at laws k (add_one known i res).new_modules
        ≡ (if adds_new known k i then 1 else 0) + starts_at laws k res.new_modules
  add_one-count known none res k f = omega arith
  add_one-count known (some (key, fp, m)) res k f =
      pushed-count (is_known (get key known) fp) k key m res.new_modules f
      ∙ ap (λ b. (if key == k && b && is_some m then 1 else 0) + starts_at laws k res.new_modules)
          (sym (is_fresh-is_known fp (get key known)))

  pub add_images-count :
      (known : HashMap ℕ) (l : List (Image fh.Module)) (res : EnumResult fh) (k : ℕ)
      → AllStart l
      → starts_at laws k (add_images known l res).new_modules
        ≡ new_at known k l + starts_at laws k res.new_modules
  add_images-count known [] res k f = omega arith
  add_images-count known (i ∷ l) res k (here, there) =
      add_images-count known l (add_one known i res) k there
      ∙ omega (arith, add_one-count known i res k here)

  -- How many modules at `k` are to be published after a refresh, by what is loaded: the JIT module
  -- that was; otherwise the new ones, and the one that was if the image loaded at `k` has the
  -- fingerprint that the registry has.
  abbrev pub loaded_at : ℕ → List (Image fh.Module) → Tracker fh → ℕ
  loaded_at k l t =
      if contains k t.reg.jit_keys
      then published_at laws t k
      else new_at t.reg.static_mods k l
        + (if is_kept (fingerprint_at k l) (get k t.reg.static_mods)
            then published_at laws t k
            else 0)

  -- A scan that has added all loaded images publishes that.
  pub refreshed_at-loaded_at :
      (k : ℕ) (l : List (Image fh.Module)) (t : Tracker fh)
      → AllStart l
      → refreshed_at laws k
          (add_images t.reg.static_mods l (record { current = []; new_modules = [] }))
          t
        ≡ loaded_at k l t
  unfolding get
  refreshed_at-loaded_at k l t f =
      let none_yet : EnumResult fh = record { current = []; new_modules = [] } in
      let same =
        add_images-get t.reg.static_mods l none_yet k ∙ or_else-none (fingerprint_at k l) in
      let cnt = add_images-count t.reg.static_mods l none_yet k f in
      subst
        (λ o. refreshed_at laws k (add_images t.reg.static_mods l none_yet) t ≡ (
          if contains k t.reg.jit_keys
          then published_at laws t k
          else new_at t.reg.static_mods k l
            + (if is_kept o (get k t.reg.static_mods) then published_at laws t k else 0)))
        same (ground (arith, cnt))
