-- ===== src/Hazard.antt =====
-- state.rs: readers and the writer on the shared snapshot pointer, one atomic access at a time.
-- Every interleaving is allowed. Pointers are numbers, and the null pointer is 0.
pub mod Invariant
pub mod Safety
pub mod Reclaim
mod Tests
use framehopunwind.Base.{
  ℕ, zero, suc, ◌+◌, ◌*◌, ◌≤◌, ◌<◌, ◌≡◌, ◌≢◌, Bool, true, false, List, [], ◌∷◌, ◌++◌, ◌==◌, ◌||◌,
  if◌then◌else◌, update,
}

-- `SLOT_CHUNK`
abbrev pub slot_chunk_size : ℕ
slot_chunk_size = 16

-- `MAX_SLOT_CHUNKS`
abbrev pub max_slot_chunks : ℕ
max_slot_chunks = 64

-- Where the cursor of one slot stands between `claim_slot` and the end of `release_slot`.
pub data Reader : Type 0 where
  free : Reader  -- `in_use` is false
  claimed : Reader  -- at the head of the loop of `acquire_snapshot`
  loaded : (p : ℕ) → Reader  -- before the store to `hazard`
  published : (p : ℕ) → Reader  -- before the second load of CURRENT
  holding : (p : ℕ) → Reader  -- `acquire_snapshot` has returned `p`
  empty : Reader  -- it has returned null
  cleared : Reader  -- `release_slot`, before the store to `in_use`

-- Where the owner of the WRITER mutex stands in `with_writer`.
pub data Writer : Type 0 where
  idle : Writer  -- the mutex is free
  building : Writer  -- CURRENT is cloned and changed
  boxed : (new : ℕ) → Writer  -- before the swap of CURRENT
  scanning : (kept todo : List ℕ) (i : ℕ) → Writer  -- `reclaim`; slot `i` is read next

pub record Shared : Type 0 where
  pub current : ℕ  -- CURRENT
  pub hazard : ℕ → ℕ
  pub reader : ℕ → Reader
  pub writer : Writer
  pub retired : List ℕ  -- `WriterState.retired`, while `reclaim` does not run
  pub chunks : ℕ  -- chunks published in SLOT_CHUNKS
  pub alive : ℕ → Bool  -- the boxes that are allocated

-- Slots that a scan by `slots` can see.
abbrev pub slots_published : Shared → ℕ
slots_published s = slot_chunk_size * s.chunks

-- One access by the cursor of a slot. The first load of CURRENT is only `Acquire`: it may return
-- any pointer, also one that was swapped out or freed long ago.
pub data ReaderStep (current : ℕ) : Reader → ℕ → Reader → ℕ → Type 0 where
  claim : {h : ℕ} → ReaderStep current free h claimed h
  load : {h : ℕ} (p : ℕ) → p ≢ 0 → ReaderStep current claimed h (loaded p) h
  load_null : {h : ℕ} → ReaderStep current claimed h empty 0
  store_hazard : {p h : ℕ} → ReaderStep current (loaded p) h (published p) p
  recheck_same : {p h : ℕ} → current ≡ p → ReaderStep current (published p) h (holding p) h
  recheck_swapped : {p h : ℕ} → current ≢ p → ReaderStep current (published p) h claimed h
  clear : {p h : ℕ} → ReaderStep current (holding p) h cleared 0
  clear_empty : {h : ℕ} → ReaderStep current empty h cleared 0
  release : {h : ℕ} → ReaderStep current cleared h free h

-- `guard.retired.push(old)`, unless `old` is null.
abbrev pub push_retired : ℕ → List ℕ → List ℕ
push_retired old l = if old == 0 then l else (l ++ (old ∷ []))

-- `slots().any(|s| s.hazard.load(..) == p)` over the `k` slots from `i` on.
unfoldable pub is_hazarded_from : (ℕ → ℕ) → ℕ → ℕ → ℕ → Bool
is_hazarded_from hazard p zero i = false
is_hazarded_from hazard p (suc k) i = hazard i == p || is_hazarded_from hazard p k (i + 1)

unfoldable pub is_hazarded : Shared → ℕ → Bool
unfolding is_hazarded_from
is_hazarded s p = is_hazarded_from s.hazard p (slots_published s) 0

-- `reclaim` with no reader moving meanwhile: `retain` keeps the snapshots for which the closure
-- returns true, in their order.
unfoldable pub retain_hazarded : (ℕ → Bool) → List ℕ → List ℕ
retain_hazarded hazarded [] = []
retain_hazarded hazarded (p ∷ l) =
    let rest = retain_hazarded hazarded l in if hazarded p then p ∷ rest else rest

-- The closure of `reclaim` drops the others.
unfoldable pub drop_boxes : (ℕ → Bool) → List ℕ → (ℕ → Bool) → ℕ → Bool
drop_boxes hazarded [] alive = alive
drop_boxes hazarded (p ∷ l) alive =
    drop_boxes hazarded l (if hazarded p then alive else update alive p false)

unfoldable pub reclaim : Shared → Shared
unfolding is_hazarded retain_hazarded drop_boxes
reclaim s = record s {
  retired = retain_hazarded (is_hazarded s) s.retired;
  alive = drop_boxes (is_hazarded s) s.retired s.alive;
}

-- One access by `with_writer`. `Box::into_raw` returns a pointer that is not null and not in use,
-- perhaps one that was freed before.
pub data WriterStep (s : Shared) : Shared → Type 0 where
  lock : s.writer ≡ idle → WriterStep s (record s { writer = building })
  box :
      (new : ℕ)
      → s.writer ≡ building
      → new ≢ 0
      → s.alive new ≡ false
      → WriterStep s (record s { alive = update s.alive new true; writer = boxed new })
  swap :
      {new : ℕ}
      → s.writer ≡ boxed new
      → WriterStep s (record s {
        current = new;
        retired = [];
        writer = scanning [] (push_retired s.current s.retired) 0;
      })
  pass :
      {kept todo : List ℕ} {p i : ℕ}
      → s.writer ≡ scanning kept (p ∷ todo) i
      → i < slots_published s
      → s.hazard i ≢ p
      → WriterStep s (record s { writer = scanning kept (p ∷ todo) (i + 1) })
  keep :
      {kept todo : List ℕ} {p i : ℕ}
      → s.writer ≡ scanning kept (p ∷ todo) i
      → i < slots_published s
      → s.hazard i ≡ p
      → WriterStep s (record s { writer = scanning (kept ++ (p ∷ [])) todo 0 })
  drop_box :
      {kept todo : List ℕ} {p i : ℕ}
      → s.writer ≡ scanning kept (p ∷ todo) i
      → slots_published s ≤ i
      → WriterStep s (record s { alive = update s.alive p false; writer = scanning kept todo 0 })
  unlock :
      {kept : List ℕ} {i : ℕ}
      → s.writer ≡ scanning kept [] i
      → WriterStep s (record s { retired = kept; writer = idle })

-- Any reader, the writer or `ensure_slots` moves next.
pub data Step (s : Shared) : Shared → Type 0 where
  reads :
      (i : ℕ) {r : Reader} {h : ℕ}
      → i < slots_published s
      → ReaderStep s.current (s.reader i) (s.hazard i) r h
      → Step s (record s { reader = update s.reader i r; hazard = update s.hazard i h })
  writes : {t : Shared} → WriterStep s t → Step s t
  grows : s.chunks < max_slot_chunks → Step s (record s { chunks = s.chunks + 1 })

-- The statics before the first call.
abbrev pub initial : Shared
initial = record {
  current = 0;
  hazard = λ _. 0;
  reader = λ _. free;
  writer = idle;
  retired = [];
  chunks = 0;
  alive = λ _. false;
}

pub data Reach : Shared → Type 0 where
  start : Reach initial
  later : {s t : Shared} → Reach s → Step s t → Reach t
