-- ===== src/Hazard/Invariant.antt =====
-- state.rs: who owns each allocated snapshot, and what the hazard cells protect.
use framehopunwind.Base.{
  ℕ, ◌+◌, ◌≤◌, ◌<◌, ◌≡◌, ◌≢◌, inl, inr, Bool-cases, refl, true, false, List, [], ◌∷◌, ◌==◌,
  if◌then◌else◌, update, count, count-append, arith,
}
use framehopunwind.Hazard.{
  Reader, free, loaded, published, holding, Writer, idle, building, boxed, scanning, Shared,
  slots_published, ReaderStep, claim, load, recheck_same, push_retired, WriterStep, lock, box, swap,
  pass, keep, drop_box, unlock, Step, reads, writes, grows, initial, Reach, start, later,
  max_slot_chunks,
}

-- How often the writer's own variables name a snapshot.
abbrev pub writer_owns : ℕ → Writer → ℕ
writer_owns p idle = 0
writer_owns p building = 0
writer_owns p (boxed new) = if new == p then 1 else 0
writer_owns p (scanning kept todo i) = count p kept + count p todo

abbrev pub current_owns : ℕ → ℕ → ℕ
current_owns p c = if c == 0 then 0 else if c == p then 1 else 0

-- All owners of `p`: CURRENT, the retired list, the writer.
abbrev pub owners : Shared → ℕ → ℕ
owners s p = current_owns p s.current + count p s.retired + writer_owns p s.writer

pub record Inv (s : Shared) : Type 0 where
  pub counted : (p : ℕ) → owners s p ≡ (if s.alive p then 1 else 0)
  pub held : (i p : ℕ) → s.reader i ≡ holding p → (s.alive p ≡ true) × (s.hazard i ≡ p)
  pub sought : (i p : ℕ) → s.reader i ≡ loaded p → p ≢ 0
  pub stored : (i p : ℕ) → s.reader i ≡ published p → (s.hazard i ≡ p) × (p ≢ 0)
  pub active : (i : ℕ) → slots_published s ≤ i → s.reader i ≡ free
  pub scanned :
      (kept todo : List ℕ) (p n j : ℕ)
      → s.writer ≡ scanning kept (p ∷ todo) n
      → j < n
      → s.reader j ≢ holding p
  pub nonnull : (new : ℕ) → s.writer ≡ boxed new → new ≢ 0
  pub drained : (kept todo : List ℕ) (n : ℕ) → s.writer ≡ scanning kept todo n → s.retired ≡ []
  pub null_dead : s.alive 0 ≡ false
  pub bounded : s.chunks ≤ max_slot_chunks

initial-Inv : Inv initial
unfolding count
initial-Inv = record {
  counted = λ p. refl;
  held = λ i p e. cc;
  sought = λ i p e. cc;
  stored = λ i p e. cc;
  active = λ i h. refl;
  scanned = λ kept todo p n j e. cc;
  nonnull = λ new e. cc;
  drained = λ kept todo n e. refl;
  null_dead = refl;
  bounded = omega arith;
}

count-push_retired :
    (p old : ℕ) (l : List ℕ) → count p (push_retired old l) ≡ count p l + current_owns p old
unfolding count
count-push_retired p old l = elim (Bool-cases (old == 0)) [
  | inl null ↦ rw null (omega arith)
  | inr nonnull ↦ rw nonnull (ground (arith, count-append p l (old ∷ [])))
]

-- The writer leaves the readers and the pool alone.
writer_frame :
    {s t : Shared}
    → WriterStep s t
    → (i : ℕ) → (t.reader i ≡ s.reader i) × (t.hazard i ≡ s.hazard i) × (t.chunks ≡ s.chunks)
writer_frame (lock w) i = (refl, refl, refl)
writer_frame _ i = (refl, refl, refl)

module _ {s : Shared} (inv : Inv s) where
  open inv use {
    counted, held, sought, stored, active, scanned, nonnull, drained, null_dead, bounded,
  }

  reader_held :
      (i : ℕ) {q r : Reader} {g h : ℕ}
      → s.reader i ≡ q
      → s.hazard i ≡ g
      → ReaderStep s.current q g r h
      → (j p : ℕ) → update s.reader i r j ≡ holding p
      → (s.alive p ≡ true) × (update s.hazard i h j ≡ p)
  unfolding count
  reader_held i eq eg (recheck_same same) j p e = ground (arith, held j p, stored i p, counted p)
  reader_held i eq eg st j p e = ground (arith, held j p)

  reader_stored :
      (i : ℕ) {q r : Reader} {g h : ℕ}
      → s.reader i ≡ q
      → s.hazard i ≡ g
      → ReaderStep s.current q g r h
      → (j p : ℕ) → update s.reader i r j ≡ published p
      → (update s.hazard i h j ≡ p) × (p ≢ 0)
  reader_stored i eq eg claim j p e = ground (arith, stored j p)
  reader_stored i eq eg st j p e = ground (arith, stored j p, sought i p)

  reader_sought :
      (i : ℕ) {q r : Reader} {g h : ℕ}
      → ReaderStep s.current q g r h
      → (j p : ℕ) → update s.reader i r j ≡ loaded p
      → p ≢ 0
  reader_sought i (load p' nonnull) j p e = ground (arith, sought j p)
  reader_sought i st j p e = ground (arith, sought j p)

  reader_scanned :
      (i : ℕ) {q r : Reader} {g h : ℕ}
      → s.reader i ≡ q
      → s.hazard i ≡ g
      → ReaderStep s.current q g r h
      → (kept todo : List ℕ) (p n j : ℕ) → s.writer ≡ scanning kept (p ∷ todo) n
      → j < n
      → update s.reader i r j ≢ holding p
  unfolding count
  reader_scanned i eq eg (recheck_same same) kept todo p n j w lt e =
      ground (arith, scanned kept todo p n j, counted p, stored i p)
  reader_scanned i eq eg st kept todo p n j w lt e = ground (arith, scanned kept todo p n j)

  reader-Inv :
      (i : ℕ) {r : Reader} {h : ℕ}
      → i < slots_published s
      → ReaderStep s.current (s.reader i) (s.hazard i) r h
      → Inv (record s { reader = update s.reader i r; hazard = update s.hazard i h })
  reader-Inv i lt st = record {
    counted = counted;
    held = reader_held i refl refl st;
    sought = reader_sought i st;
    stored = reader_stored i refl refl st;
    active = λ j h. ground (arith, active j);
    scanned = reader_scanned i refl refl st;
    nonnull = nonnull;
    drained = drained;
    null_dead = null_dead;
    bounded = bounded;
  }

  writer_counted :
      {t : Shared} → WriterStep s t → (p : ℕ) → owners t p ≡ (if t.alive p then 1 else 0)
  unfolding count
  writer_counted (lock w) p = ground (arith, counted p)
  writer_counted (box new w n a) p = ground (arith, counted p)
  writer_counted (swap {new} w) p =
      ground (arith, counted p, count-push_retired p s.current s.retired, nonnull new)
  writer_counted (pass w lt ne) p = ground (arith, counted p)
  writer_counted (keep {kept} {p = q} w lt eq) p =
      ground (arith, counted p, count-append p kept (q ∷ []))
  writer_counted (drop_box w le) p = ground (arith, counted p)
  writer_counted (unlock {kept} {i} w) p = ground (arith, counted p, drained kept [] i w)

  writer_held :
      {t : Shared}
      → WriterStep s t
      → (i p : ℕ) → t.reader i ≡ holding p
      → (t.alive p ≡ true) × (t.hazard i ≡ p)
  writer_held (drop_box {kept} {todo} {p = q} {i = n} w le) i p e =
      ground (arith, held i p, active i, scanned kept todo q n i)
  writer_held st i p e = ground (arith, held i p)

  writer_scanned :
      {t : Shared}
      → WriterStep s t
      → (kept todo : List ℕ) (p n j : ℕ) → t.writer ≡ scanning kept (p ∷ todo) n
      → j < n
      → t.reader j ≢ holding p
  writer_scanned (pass {kept = k} {todo = l} {p = q} {i} w lt ne) kept todo p n j e h =
      ground (arith, held j p, scanned k l q i j)
  writer_scanned st kept todo p n j e h = ground arith

  writer_nonnull : {t : Shared} → WriterStep s t → (new : ℕ) → t.writer ≡ boxed new → new ≢ 0
  writer_nonnull (box new w n a) other e = ground arith
  writer_nonnull st other e = ground arith

  writer_drained :
      {t : Shared}
      → WriterStep s t
      → (kept todo : List ℕ) (n : ℕ) → t.writer ≡ scanning kept todo n
      → t.retired ≡ []
  writer_drained (swap w) kept todo n e = refl
  writer_drained (pass {kept = k} {todo = l} {p} {i} w lt ne) kept todo n e = drained k (p ∷ l) i w
  writer_drained (keep {kept = k} {todo = l} {p} {i} w lt eq) kept todo n e = drained k (p ∷ l) i w
  writer_drained (drop_box {kept = k} {todo = l} {p} {i} w le) kept todo n e = drained k (p ∷ l) i w
  writer_drained st kept todo n e = ground arith

  writer_null_dead : {t : Shared} → WriterStep s t → t.alive 0 ≡ false
  writer_null_dead (box new w n a) = ground arith
  writer_null_dead st = ground arith

  writer-Inv : {t : Shared} → WriterStep s t → Inv t
  writer-Inv {t} st = record {
    counted = writer_counted st;
    held = writer_held st;
    sought = λ i p e. ground (arith, sought i p, writer_frame st i);
    stored = λ i p e. ground (arith, stored i p, writer_frame st i);
    active = λ i h. ground (arith, active i, writer_frame st i);
    scanned = writer_scanned st;
    nonnull = writer_nonnull st;
    drained = writer_drained st;
    null_dead = writer_null_dead st;
    bounded = ground (arith, writer_frame st 0, bounded);
  }

-- Every access by a reader, the writer or `ensure_slots` keeps the invariant.
pub Step-Inv : {s t : Shared} → Step s t → Inv s → Inv t
Step-Inv (reads i lt st) inv = reader-Inv inv i lt st
Step-Inv (writes st) inv = writer-Inv inv st
Step-Inv (grows lt) inv = record {
  counted = inv.counted;
  held = inv.held;
  sought = inv.sought;
  stored = inv.stored;
  active = λ i h. inv.active i (omega arith);
  scanned = inv.scanned;
  nonnull = inv.nonnull;
  drained = inv.drained;
  null_dead = inv.null_dead;
  bounded = omega arith;
}

pub Reach-Inv : {s : Shared} → Reach s → Inv s
Reach-Inv start = initial-Inv
Reach-Inv (later r st) = Step-Inv st (Reach-Inv r)
