-- ===== src/Modules/Refresh.antt =====
-- modules/mod.rs: `refresh` on ELF and Windows.
use framehopunwind.Base.{
  ℕ, Bool, true, false, not, ◌&&◌, Option, none, some, List, [], ◌∷◌, HashMap, HashSet, get,
  contains, contains_key, ◌==◌, if◌then◌else◌,
}
use framehopunwind.Framehop.{Framehop}
use framehopunwind.Publish.{with_writer}
use framehopunwind.Modules.Registry.{Tracker}

-- What `enumerate_static` found.
pub record EnumResult (fh : Framehop) : Type 0 where
  pub current : HashMap ℕ
  pub new_modules : List (ℕ × fh.Module)

-- What is fed to the standard library's `DefaultHasher`.
pub data Fed : Type 0 where
  u64s : (parts : List ℕ) → Fed
  bytes : (name : List ℕ) → Fed

-- `hasher` is what a new hasher finishes with when it is fed a list.
unfoldable pub fingerprint_of : (List Fed → ℕ) → List ℕ → List ℕ → ℕ
fingerprint_of hasher parts name = hasher (u64s parts ∷ bytes name ∷ [])

-- `known.get(&key) == Some(&fp)`, the test of every scan
abbrev pub is_known : Option ℕ → ℕ → Bool
is_known none fp = false
is_known (some old) fp = old == fp

-- The keys whose entries pass the test.
unfoldable pub keys_where : (ℕ → ℕ → Bool) → HashMap ℕ → List ℕ
keys_where p [] = []
keys_where p ((k, fp) ∷ m) = let rest = keys_where p m in if p k fp then k ∷ rest else rest

unfoldable pub is_gone : HashMap ℕ → ℕ → ℕ → Bool
is_gone current k fp = not (contains_key k current)

abbrev pub differs : ℕ → Option ℕ → Bool
differs fp none = false
differs fp (some nfp) = not (nfp == fp)

unfoldable pub is_changed : HashMap ℕ → ℕ → ℕ → Bool
is_changed current k fp = differs fp (get k current)

unfoldable pub is_empty {ℓ} : {A : Type ℓ} → List A → Bool
is_empty [] = true
is_empty (x ∷ l) = false

-- `counts.is_some() && counts == reg.load_counts`
unfoldable pub same_counts : Option (ℕ × ℕ) → Option (ℕ × ℕ) → Bool
same_counts none _ = false
same_counts (some c) none = false
same_counts (some (adds, subs)) (some (a, s)) = adds == a && subs == s

module _ (fh : Framehop) where
  unfoldable pub remove_all : List ℕ → fh.Unwinder → fh.Unwinder
  remove_all [] u = u
  remove_all (k ∷ l) u = remove_all l (fh.remove_module u k)

  unfoldable pub add_all : List (ℕ × fh.Module) → fh.Unwinder → fh.Unwinder
  add_all [] u = u
  add_all ((k, m) ∷ l) u = add_all l (fh.add_module u m)

  -- The last loop passes over the keys of JIT modules.
  unfoldable pub remove_static : HashSet → List ℕ → fh.Unwinder → fh.Unwinder
  remove_static jit_keys [] u = u
  remove_static jit_keys (k ∷ l) u =
      remove_static jit_keys l (if contains k jit_keys then u else fh.remove_module u k)

  unfoldable pub refresh_unw :
      HashSet → List ℕ → List (ℕ × fh.Module) → List ℕ → fh.Unwinder → fh.Unwinder
  refresh_unw jit_keys changed new_modules removed unw =
      remove_static jit_keys removed (add_all new_modules (remove_all changed unw))

module _ {fh : Framehop} where
  unfoldable pub apply_enum : EnumResult fh → Tracker fh → Tracker fh
  unfolding keys_where is_empty refresh_unw
  apply_enum res t =
      let removed = keys_where (is_gone res.current) t.reg.static_mods in
      let changed = keys_where (is_changed res.current) t.reg.static_mods in
      if is_empty res.new_modules && is_empty removed && is_empty changed then t else record {
        reg = record (t.reg) { static_mods = res.current };
        published =
            with_writer (refresh_unw fh t.reg.jit_keys changed res.new_modules removed) t.published;
      }

  unfoldable pub refresh_with : Option (EnumResult fh) → Tracker fh → Tracker fh
  refresh_with none t = t
  refresh_with (some res) t = apply_enum res t

  abbrev pub set_counts : Option (ℕ × ℕ) → Tracker fh → Tracker fh
  set_counts counts t = record t { reg = record (t.reg) { load_counts = counts } }

  -- ELF: the loader's counts are read before the scan, and recorded if it is made. The scan cannot
  -- fail.
  unfoldable pub refresh_elf : Option (ℕ × ℕ) → EnumResult fh → Tracker fh → Tracker fh
  unfolding same_counts
  refresh_elf counts res t =
      if same_counts counts t.reg.load_counts then t else apply_enum res (set_counts counts t)

  -- Elsewhere there are no counts, and on Windows the enumeration may fail.
  unfoldable pub refresh_other : Option (EnumResult fh) → Tracker fh → Tracker fh
  unfolding refresh_with
  refresh_other res t = refresh_with res t
