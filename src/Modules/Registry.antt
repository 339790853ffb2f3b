-- ===== src/Modules/Registry.antt =====
-- modules/mod.rs: the registry of published modules, and the operations on JIT modules.
use framehopunwind.Base.{
  ℕ, Bool, false, not, Option, none, some, List, HashMap, HashSet, get, insert, remove, contains,
  set_insert, set_remove, length, ◌==◌, if◌then◌else◌,
}
use framehopunwind.Framehop.{Framehop}
use framehopunwind.Publish.{Snapshot, with_writer}

pub record Registry (fh : Framehop) : Type 0 where
  pub static_mods : HashMap ℕ
  pub jit_keys : HashSet
  pub jit_by_eh_frame : HashMap ℕ
  pub jit_eh_frame_by_key : HashMap ℕ
  pub load_counts : Option (ℕ × ℕ)
  pub batching : Bool
  pub pending : List (ℕ × ℕ × fh.Module)

-- REGISTRY and CURRENT.
pub record Tracker (fh : Framehop) : Type 0 where
  pub reg : Registry fh
  pub published : Option (Snapshot fh)

abbrev pub initial_tracker : (fh : Framehop) → Tracker fh
initial_tracker fh = record {
  reg = record {
    static_mods = List.[];
    jit_keys = List.[];
    jit_by_eh_frame = List.[];
    jit_eh_frame_by_key = List.[];
    load_counts = none;
    batching = false;
    pending = List.[];
  };
  published = none;
}

-- `get(..) == Some(&key)`
abbrev pub names : ℕ → Option ℕ → Bool
names key none = false
names key (some j) = j == key

module _ (fh : Framehop) where
  unfoldable pub add_jit_unw : Bool → ℕ → fh.Module → fh.Unwinder → fh.Unwinder
  add_jit_unw known key module_ unw =
      fh.add_module (if known then fh.remove_module unw key else unw) module_

module _ {fh : Framehop} where
  -- `forget_jit_eh_frame`, for the eh_frame address that was on record for `key`.
  unfoldable pub forget_at : ℕ → Registry fh → Option ℕ → Registry fh
  forget_at key reg none = reg
  forget_at key reg (some eh_frame_addr) = record reg {
    jit_eh_frame_by_key = remove key reg.jit_eh_frame_by_key;
    jit_by_eh_frame =
        if names key (get eh_frame_addr reg.jit_by_eh_frame)
        then remove eh_frame_addr reg.jit_by_eh_frame
        else reg.jit_by_eh_frame;
  }

  unfoldable pub forget_jit_eh_frame : ℕ → Registry fh → Registry fh
  unfolding forget_at
  forget_jit_eh_frame key reg = forget_at key reg (get key reg.jit_eh_frame_by_key)

  -- The two insertions that record `eh_frame_addr` for `key`; `prev` is what the first replaces.
  unfoldable pub record_eh_frame : ℕ → ℕ → Registry fh → Option ℕ → Registry fh
  record_eh_frame key eh_frame_addr reg none = record reg {
    jit_by_eh_frame = insert eh_frame_addr key reg.jit_by_eh_frame;
    jit_eh_frame_by_key = insert key eh_frame_addr reg.jit_eh_frame_by_key;
  }
  record_eh_frame key eh_frame_addr reg (some prev_key) = record reg {
    jit_by_eh_frame = insert eh_frame_addr key reg.jit_by_eh_frame;
    jit_eh_frame_by_key = insert key eh_frame_addr (remove prev_key reg.jit_eh_frame_by_key);
  }

  unfoldable pub add_jit_reg : ℕ → ℕ → Registry fh → Registry fh
  unfolding forget_jit_eh_frame record_eh_frame
  add_jit_reg key eh_frame_addr reg =
      let forgotten : Registry fh =
        forget_jit_eh_frame key (record reg { jit_keys = set_insert key reg.jit_keys }) in
      record_eh_frame key eh_frame_addr forgotten (get eh_frame_addr forgotten.jit_by_eh_frame)

  unfoldable pub add_jit_module : ℕ → ℕ → fh.Module → Tracker fh → Tracker fh
  unfolding add_jit_reg add_jit_unw
  add_jit_module key eh_frame_addr module_ t = record {
    reg = add_jit_reg key eh_frame_addr t.reg;
    published = with_writer (add_jit_unw fh (contains key t.reg.jit_keys) key module_) t.published;
  }

  unfoldable pub remove_jit_reg : ℕ → Registry fh → Registry fh
  unfolding forget_jit_eh_frame
  remove_jit_reg key reg =
      forget_jit_eh_frame key (record reg { jit_keys = set_remove key reg.jit_keys })

  unfoldable pub remove_jit_locked : ℕ → Tracker fh → Tracker fh
  unfolding remove_jit_reg
  remove_jit_locked key t = if not (contains key t.reg.jit_keys) then t else record {
    reg = remove_jit_reg key t.reg;
    published = with_writer (λ unw. fh.remove_module unw key) t.published;
  }

  unfoldable pub remove_jit_module : ℕ → Tracker fh → Tracker fh
  unfolding remove_jit_locked
  remove_jit_module key t = remove_jit_locked key t

  unfoldable pub remove_jit_found : Option ℕ → Tracker fh → Tracker fh
  remove_jit_found none t = t
  remove_jit_found (some key) t = remove_jit_locked key t

  unfoldable pub remove_jit_module_by_eh_frame : ℕ → Tracker fh → Tracker fh
  unfolding remove_jit_found
  remove_jit_module_by_eh_frame eh_frame_addr t =
      remove_jit_found (get eh_frame_addr t.reg.jit_by_eh_frame) t

  unfoldable pub jit_module_count : Tracker fh → ℕ
  jit_module_count t = length t.reg.jit_keys
