-- ===== src/Slots.antt =====
-- state.rs: the slot pool that cursors claim their caches and hazard cells from.
pub mod Layout
pub mod Growth
pub mod Claims
mod Tests
use mathlib.Core.List.{flatten}
use framehopunwind.Base.{
  ℕ, zero, suc, ◌+◌, ◌*◌, ◌/◌, ◌%◌, ◌^◌, ◌≡◌, Bool, true, false, ◌&&◌, Option, none, some, List, [],
  ◌∷◌, ltb, ◌==◌, if◌then◌else◌, get_elem?, set, replicate, modify, map_option, u64_max,
}
use framehopunwind.Target.{Arch}
use framehopunwind.Framehop.{Framehop}
use framehopunwind.Arch.{zeroed, make_regs}
use framehopunwind.Hazard.{slot_chunk_size, max_slot_chunks}

-- `DEFAULT_SLOTS`
abbrev pub default_slots : ℕ
default_slots = 16

-- `SLOTS_PER_THREAD`
abbrev pub slots_per_thread : ℕ
slots_per_thread = 2

-- Per-walk state. The `snapshot` pointer is 0 where it is null.
pub record SlotInner (fh : Framehop) : Type 0 where
  pub cache : fh.Cache
  pub regs : fh.UnwindRegs
  pub cur_addr : fh.FrameAddress
  pub cur_ip : ℕ
  pub done : Bool
  pub snapshot : ℕ
  pub stack_lo : ℕ
  pub stack_hi : ℕ
  pub stack_lo2 : ℕ
  pub stack_hi2 : ℕ

pub record Slot (fh : Framehop) : Type 0 where
  pub in_use : Bool
  pub seq : ℕ
  pub hazard : ℕ
  pub inner : SlotInner fh

-- SLOT_CHUNKS (a null pointer is `none`), SLOTS_ALLOCATED and REGISTERED_THREADS.
pub record Pool (fh : Framehop) : Type 0 where
  pub slot_chunks : List (Option (List (Slot fh)))
  pub slots_allocated : ℕ
  pub registered_threads : ℕ

module _ (arch : Arch) (fh : Framehop) where
  unfoldable pub placeholder_inner : SlotInner fh
  placeholder_inner = record {
    cache = fh.new_cache;
    regs = make_regs arch fh zeroed u64_max;
    cur_addr = fh.from_instruction_pointer 0;
    cur_ip = 0;
    done = true;
    snapshot = 0;
    stack_lo = 0;
    stack_hi = 0;
    stack_lo2 = 0;
    stack_hi2 = 0;
  }

  unfoldable pub new_slot : Slot fh
  new_slot = record { in_use = false; seq = 0; hazard = 0; inner = placeholder_inner }

  -- The body of the loop of `ensure_slots`: one more chunk.
  unfoldable pub add_chunk : Pool fh → Pool fh
  add_chunk p = record p {
    slot_chunks =
        set p.slot_chunks (p.slots_allocated / slot_chunk_size)
          (some (replicate slot_chunk_size new_slot));
    slots_allocated = p.slots_allocated + slot_chunk_size;
  }

  unfoldable pub needs_chunk : ℕ → Pool fh → Bool
  needs_chunk n p =
      ltb p.slots_allocated n && ltb p.slots_allocated (slot_chunk_size * max_slot_chunks)

  unfoldable pub ensure_slots_loop : ℕ → ℕ → Pool fh → Pool fh
  unfolding needs_chunk add_chunk
  ensure_slots_loop zero n p = p
  ensure_slots_loop (suc fuel) n p =
      let rest = ensure_slots_loop fuel n (add_chunk p) in if needs_chunk n p then rest else p

  -- One round for each chunk that the table can hold.
  unfoldable pub ensure_slots : ℕ → Pool fh → Pool fh
  unfolding ensure_slots_loop
  ensure_slots n p = ensure_slots_loop max_slot_chunks n p

  unfoldable pub init : ℕ → Pool fh → Pool fh
  unfolding ensure_slots
  init num_slots p = ensure_slots (if num_slots == 0 then default_slots else num_slots) p

  unfoldable pub thread_registered : Pool fh → Pool fh
  unfolding ensure_slots
  thread_registered p =
      let threads = (p.registered_threads + 1) % 2 ^ 64 in
      ensure_slots ((default_slots + slots_per_thread * threads) % 2 ^ 64)
        (record p { registered_threads = threads })

abbrev pub flat_option {ℓ} : {A : Type ℓ} → Option (Option A) → Option A
flat_option none = none
flat_option (some o) = o

-- The statics before the first call.
abbrev pub initial_pool : (fh : Framehop) → Pool fh
initial_pool fh = record {
  slot_chunks = replicate max_slot_chunks none;
  slots_allocated = 0;
  registered_threads = 0;
}

module _ {fh : Framehop} where
  unfoldable pub slot_chunk : ℕ → Pool fh → Option (List (Slot fh))
  slot_chunk i p = flat_option (get_elem? p.slot_chunks i)

  -- `map_while`: the chunks up to the first null pointer.
  unfoldable pub chunks_while : List (Option (List (Slot fh))) → List (List (Slot fh))
  chunks_while [] = []
  chunks_while (none ∷ l) = []
  chunks_while (some c ∷ l) = c ∷ chunks_while l

  unfoldable pub slots : Pool fh → List (Slot fh)
  unfolding chunks_while
  slots p = flatten (chunks_while p.slot_chunks)

  abbrev pub get_in : ℕ → Option (List (Slot fh)) → Option (Slot fh)
  get_in i none = none
  get_in i (some c) = get_elem? c i

  unfoldable pub slot : ℕ → Pool fh → Option (Slot fh)
  unfolding slot_chunk
  slot idx p = get_in (idx % slot_chunk_size) (slot_chunk (idx / slot_chunk_size) p)

  -- A store through the reference that `slot` returns.
  unfoldable pub update_slot : ℕ → (Slot fh → Slot fh) → Pool fh → Pool fh
  update_slot idx f p = record p {
    slot_chunks =
        modify p.slot_chunks (idx / slot_chunk_size)
          (map_option (λ c. modify c (idx % slot_chunk_size) f));
  }

  -- The scan of `claim_slot`: the first slot whose compare-exchange of `in_use` succeeds.
  unfoldable pub first_free : ℕ → List (Slot fh) → Option (ℕ × Slot fh)
  first_free i [] = none
  first_free i (s ∷ l) = let rest = first_free (i + 1) l in if s.in_use then rest else some (i, s)

  -- The successful compare-exchange of the scan, and the bump of the sequence number.
  unfoldable pub take_first : Pool fh → Option (ℕ × Slot fh) → Option (ℕ × ℕ) × Pool fh
  take_first p none = (none, p)
  take_first p (some (i, s)) = (
    some (i, (s.seq + 1) % 2 ^ 64),
    update_slot i (λ t. record t { in_use = true; seq = (t.seq + 1) % 2 ^ 64 }) p,
  )

  -- The slot index and the claim nonce.
  unfoldable pub claim_slot : Pool fh → Option (ℕ × ℕ) × Pool fh
  claim_slot p = take_first p (first_free 0 (slots p))

  unfoldable pub nonce_is : ℕ → Option (Slot fh) → Bool
  nonce_is nonce none = false
  nonce_is nonce (some s) = s.seq == nonce

  unfoldable pub nonce_matches : ℕ → ℕ → Pool fh → Bool
  unfolding nonce_is
  nonce_matches idx nonce p = nonce_is nonce (slot idx p)

  abbrev pub released : ℕ → Slot fh → Slot fh
  released nonce s = record s {
    seq = (nonce + 1) % 2 ^ 64;
    hazard = 0;
    inner = record (s.inner) { snapshot = 0 };
    in_use = false;
  }

  -- The compare-exchange of `seq` decides; the stores follow if it succeeds.
  unfoldable pub release_slot : ℕ → ℕ → Pool fh → Pool fh
  unfolding nonce_matches
  release_slot idx nonce p =
      if nonce_matches idx nonce p then update_slot idx (released nonce) p else p
