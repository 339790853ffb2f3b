-- ===== src/Modules/MacOs.antt =====
-- modules/mod.rs: the macOS entry points that dyld's callbacks call.
use framehopunwind.Base.{
  ℕ, true, false, not, List, [], ◌∷◌, ◌++◌, insert, remove, contains, contains_key, HashMap, ◌==◌,
  if◌then◌else◌,
}
use framehopunwind.Framehop.{Framehop}
use framehopunwind.Publish.{with_writer}
use framehopunwind.Modules.Registry.{Registry, Tracker}

module _ (fh : Framehop) where
  unfoldable pub insert_all : List (ℕ × ℕ × fh.Module) → HashMap ℕ → HashMap ℕ
  insert_all [] m = m
  insert_all ((k, fp, x) ∷ l) m = insert_all l (insert k fp m)

  unfoldable pub add_pending : List (ℕ × ℕ × fh.Module) → fh.Unwinder → fh.Unwinder
  add_pending [] u = u
  add_pending ((k, fp, m) ∷ l) u = add_pending l (fh.add_module u m)

  -- `pending.retain(|(k, _, _)| *k != key)`
  unfoldable pub drop_pending : ℕ → List (ℕ × ℕ × fh.Module) → List (ℕ × ℕ × fh.Module)
  drop_pending key [] = []
  drop_pending key ((k, fp, m) ∷ l) =
      let rest = drop_pending key l in if k == key then rest else (k, fp, m) ∷ rest

module _ {fh : Framehop} where
  unfoldable pub macos_begin_batch : Tracker fh → Tracker fh
  macos_begin_batch t = record t { reg = record (t.reg) { batching = true } }

  unfoldable pub end_batch : List (ℕ × ℕ × fh.Module) → Tracker fh → Tracker fh
  unfolding insert_all add_pending
  end_batch [] t = t
  end_batch (x ∷ l) t = record {
    reg = record (t.reg) { static_mods = insert_all fh (x ∷ l) t.reg.static_mods };
    published = with_writer (add_pending fh (x ∷ l)) t.published;
  }

  unfoldable pub macos_end_batch : Tracker fh → Tracker fh
  unfolding end_batch
  macos_end_batch t =
      end_batch t.reg.pending (record t { reg = record (t.reg) { batching = false; pending = [] } })

  unfoldable pub macos_add_image : ℕ → ℕ → fh.Module → Tracker fh → Tracker fh
  macos_add_image key fp module_ t =
      if t.reg.batching
      then record t {
        reg = record (t.reg) { pending = t.reg.pending ++ ((key, fp, module_) ∷ []) };
      }
      else record {
        reg = record (t.reg) { static_mods = insert key fp t.reg.static_mods };
        published =
            with_writer
              (λ unw.
                fh.add_module
                  (if contains_key key t.reg.static_mods then fh.remove_module unw key else unw)
                  module_)
              t.published;
      }

  abbrev unbatch : ℕ → Registry fh → Registry fh
  unbatch key reg = record reg {
    pending = if reg.batching then drop_pending fh key reg.pending else reg.pending;
  }

  unfoldable pub macos_remove_image : ℕ → Tracker fh → Tracker fh
  unfolding drop_pending
  macos_remove_image key t =
      let reg : Registry fh = unbatch key t.reg in
      if not (contains_key key reg.static_mods) then record t { reg = reg } else record {
        reg = record reg { static_mods = remove key reg.static_mods };
        published =
            if contains key reg.jit_keys
            then t.published
            else with_writer (λ unw. fh.remove_module unw key) t.published;
      }
