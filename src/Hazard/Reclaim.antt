-- ===== src/Hazard/Reclaim.antt =====
-- state.rs: a run of `reclaim` that no reader interrupts.
use framehopunwind.Base.{
  ℕ, zero, suc, ◌+◌, ◌≡◌, refl, Bool, false, List, [], ◌∷◌, ◌++◌, ◌==◌, ◌||◌, inl, inr,
  if◌then◌else◌, update, Bool-cases, arith,
}
use mathlib.Core.List.{append-nil, append_assoc}
use framehopunwind.Hazard.{
  idle, scanning, Shared, slots_published, is_hazarded_from, is_hazarded, retain_hazarded,
  drop_boxes, reclaim, WriterStep, pass, keep, drop_box, unlock,
}

-- Steps of the writer alone.
pub data WriterRun : Shared → Shared → Type 0 where
  stop : {s : Shared} → WriterRun s s
  go : {s t u : Shared} → WriterStep s t → WriterRun t u → WriterRun s u

run_trans : {s t u : Shared} → WriterRun s t → WriterRun t u → WriterRun s u
run_trans stop r = r
run_trans (go st q) r = go st (run_trans q r)

-- The state of the scan after the head of `todo` was kept or dropped.
abbrev decided : Shared → Bool → List ℕ → ℕ → List ℕ → Shared
decided s b kept p todo =
    if b
    then record s { writer = scanning (kept ++ (p ∷ [])) todo 0 }
    else record s { alive = update s.alive p false; writer = scanning kept todo 0 }

decide_runs :
    (s : Shared) (k : ℕ) (kept todo : List ℕ) (p i : ℕ)
    → s.writer ≡ scanning kept (p ∷ todo) i
    → k + i ≡ slots_published s
    → WriterRun s (decided s (is_hazarded_from s.hazard p k i) kept p todo)
unfolding is_hazarded_from
decide_runs s zero kept todo p i w e = go (drop_box w (omega arith)) stop
decide_runs s (suc k) kept todo p i w e = elim (Bool-cases (s.hazard i == p)) [
  | inl hit ↦ rw (hit, ◌||◌) (go (keep w (omega arith) (ground arith)) stop)
  | inr miss ↦
      rw (miss, ◌||◌)
        (go (pass w (omega arith) (ground arith)) (
          decide_runs (record s { writer = scanning kept (p ∷ todo) (i + 1) }) k kept todo p (i + 1)
            refl (omega arith)))
]

-- What the scan leaves when it has gone through `todo`, by the hazard cells `b`.
abbrev scanned_all : Shared → (ℕ → Bool) → List ℕ → List ℕ → Shared
scanned_all s b kept todo = record s {
  retired = kept ++ retain_hazarded b todo;
  alive = drop_boxes b todo s.alive;
  writer = idle;
}

scan_runs :
    (s : Shared) (kept todo : List ℕ)
    → s.writer ≡ scanning kept todo 0
    → WriterRun s (scanned_all s (is_hazarded s) kept todo)
unfolding retain_hazarded drop_boxes is_hazarded
scan_runs s kept [] w = rw append-nil (go (unlock w) stop)
scan_runs s kept (p ∷ todo) w =
    run_trans (decide_runs s (slots_published s) kept todo p 0 w (omega arith))
      (elim (Bool-cases (is_hazarded s p)) [
        | inl hit ↦ rw hit (
            rw append_assoc at (
              scan_runs (record s { writer = scanning (kept ++ (p ∷ [])) todo 0 })
                (kept ++ (p ∷ [])) todo refl))
        | inr miss ↦ rw miss (
            scan_runs (record s { alive = update s.alive p false; writer = scanning kept todo 0 })
              kept todo refl)
      ])

-- Whatever the hazard cells hold, a scan that starts on the snapshots `todo` runs to its end by
-- the writer's own steps, and, if no reader moves meanwhile, it ends as `reclaim` on that list: the
-- snapshots that a hazard cell of a published slot names stay on the retired list, in order, the
-- others are freed, and the mutex is free.
pub reclaim_runs :
    (s : Shared) (todo : List ℕ)
    → s.writer ≡ scanning [] todo 0
    → WriterRun s (record (reclaim (record s { retired = todo })) { writer = idle })
unfolding reclaim is_hazarded
reclaim_runs s todo w = scan_runs s [] todo w
