-- ===== src/Hazard/Safety.antt =====
-- state.rs: what the hazard pointers guarantee in every reachable state.
use framehopunwind.Base.{
  ℕ, ◌+◌, ◌≤◌, ◌≡◌, ◌≢◌, refl, ◌∙◌, ap, true, false, List, ◌∷◌, ◌==◌, if◌then◌else◌, count, arith,
}
use framehopunwind.Hazard.{
  holding, idle, scanning, Shared, slots_published, WriterStep, lock, box, swap, pass, keep,
  drop_box, unlock, Step, reads, writes, grows, Reach, later,
}
use framehopunwind.Hazard.Invariant.{owners, Inv, Reach-Inv}

-- In every reachable state, a snapshot that `acquire_snapshot` has returned to some slot's cursor,
-- and that this cursor has not released, is still allocated, and the slot's hazard cell names it.
pub no_use_after_free :
    {s : Shared}
    → Reach s
    → (i p : ℕ) → s.reader i ≡ holding p
    → (s.alive p ≡ true) × (s.hazard i ≡ p)
no_use_after_free r i p e = (Reach-Inv r).held i p e

-- Only the writer frees: a snapshot that a step frees is the one that its scan has brought to the end
-- of the slots.
freed :
    {s t : Shared}
    → WriterStep s t
    → (p : ℕ) → s.alive p ≡ true
    → t.alive p ≡ false
    → (kept : List ℕ) × (todo : List ℕ) × (n : ℕ) × (s.writer ≡ scanning kept (p ∷ todo) n)
      × (slots_published s ≤ n)
      × (t.current ≡ s.current)
freed (lock w) p live dead = cc
freed (box new w nonnull fresh) p live dead = absurd (ground (arith, live, dead))
freed (swap w) p live dead = cc
freed (pass w lt ne) p live dead = cc
freed (keep w lt is) p live dead = cc
freed (drop_box {kept = kept} {todo = todo} {p = q} {i = n} w le) p live dead =
    let is : q ≡ p = ground (arith, live, dead) in
    (kept, todo, n, w ∙ ap (λ x. scanning kept (x ∷ todo) n) is, le, refl)
freed (unlock w) p live dead = cc

drop_unheld :
    {s t : Shared}
    → Inv s
    → Inv t
    → WriterStep s t
    → (p : ℕ) → s.alive p ≡ true
    → t.alive p ≡ false
    → (s.current ≢ p) × ((j : ℕ) → s.reader j ≢ holding p) × (owners t p ≡ 0)
drop_unheld {s} {t} inv inv' st p live dead =
    let (kept, todo, n, w, le, same) = freed st p live dead in
    let gone : owners t p ≡ 0 = inv'.counted p ∙ rw dead refl in
    (
      ground (arith, gone, same, live, inv.null_dead),
      λ j held. ground (arith, inv.scanned kept todo p n j w, inv.active j, le, held),
      gone,
    )

-- Whenever a step from a reachable state frees a snapshot, it is not the published one, no reader
-- holds it, in whichever slot, and nothing names it afterwards: not CURRENT, not the retired list
-- and not the writer. So no snapshot is freed while it is held, nor freed twice.
pub drop_once :
    {s t : Shared}
    → Reach s
    → Step s t
    → (p : ℕ) → s.alive p ≡ true
    → t.alive p ≡ false
    → (s.current ≢ p) × ((j : ℕ) → s.reader j ≢ holding p) × (owners t p ≡ 0)
drop_once r (reads i lt st) p live dead = cc
drop_once r (grows lt) p live dead = cc
drop_once {s} {t} r (writes st) p live dead =
    drop_unheld (Reach-Inv r) (Reach-Inv (later r (writes st))) st p live dead

-- In every reachable state in which no writer runs, the allocated snapshots are exactly the
-- published one, if that is not null, and those on the retired list, and these are all different:
-- nothing leaks and nothing that is listed was freed.
pub allocated_exactly :
    {s : Shared}
    → Reach s
    → s.writer ≡ idle
    → (p : ℕ)
    → (if s.current == 0 then 0 else if s.current == p then 1 else 0) + count p s.retired
      ≡ (if s.alive p then 1 else 0)
allocated_exactly r e p = ground (arith, (Reach-Inv r).counted p)
