-- ===== src/Hazard/Tests.antt =====
-- Runs of the hazard-pointer protocol, and the theorems at them.
use framehopunwind.Base.{
  ℕ, zero, suc, ◌+◌, ◌≤◌, ◌≡◌, ◌≢◌, refl, true, false, List, [], ◌∷◌, ◌==◌, if◌then◌else◌, count,
  update, arith,
}
use framehopunwind.Hazard.{
  holding, idle, scanning, Shared, slots_published, claim, load, store_hazard, recheck_same, lock,
  box, swap, pass, drop_box, unlock, reads, writes, grows, Reach, start, later, reclaim,
}
use framehopunwind.Hazard.Invariant.{owners}
use framehopunwind.Hazard.Safety.{no_use_after_free, drop_once, allocated_exactly}
use framehopunwind.Hazard.Reclaim.{WriterRun, reclaim_runs}

record Run : Type 0 where
  last : Shared
  reach : Reach last

-- The first chunk is published, and then snapshot 8.
abbrev one_snapshot : Run
one_snapshot = record {
  last = _;
  reach =
      later
        (later
          (later (later (later start (grows (omega arith))) (writes (lock refl)))
            (writes (box 8 refl (omega arith) refl)))
          (writes (swap refl)))
        (writes (unlock refl));
}

-- The cursor of slot 2 takes it.
abbrev one_reader : Run
one_reader = record {
  last = _;
  reach =
      later
        (later
          (later (later one_snapshot.reach (reads 2 (omega arith) claim))
            (reads 2 (omega arith) (load 8 (omega arith))))
          (reads 2 (omega arith) store_hazard))
        (reads 2 (omega arith) (recheck_same refl));
}

-- The writer publishes snapshot 9 meanwhile.
abbrev replaced : Run
replaced = record {
  last = _;
  reach =
      later
        (later (later one_reader.reach (writes (lock refl)))
          (writes (box 9 refl (omega arith) refl)))
        (writes (swap refl));
}

no_use_after_free_example : (replaced.last.alive 8 ≡ true) × (replaced.last.hazard 2 ≡ 8)
no_use_after_free_example = no_use_after_free replaced.reach 2 8 refl

-- The index of the slot that is read after `k` others.
abbrev after_slots : ℕ → ℕ
after_slots zero = 0
after_slots (suc k) = after_slots k + 1

after_slots-is : (k : ℕ) → after_slots k ≡ k
after_slots-is zero = refl
after_slots-is (suc k) = omega (arith, after_slots-is k)

scan_on :
    (s : Shared) (kept todo : List ℕ) (p : ℕ)
    → ((j : ℕ) → s.hazard j ≢ p)
    → (k : ℕ) → k ≤ slots_published s
    → Reach (record s { writer = scanning kept (p ∷ todo) 0 })
    → Reach (record s { writer = scanning kept (p ∷ todo) (after_slots k) })
scan_on s kept todo p unnamed zero le r = r
scan_on s kept todo p unnamed (suc k) le r =
    later (scan_on s kept todo p unnamed k (omega (arith, le)) r)
      (writes (pass refl (omega (arith, le, after_slots-is k)) (unnamed (after_slots k))))

-- Snapshot 9 takes the place of 8, which nobody holds, and the 16 slots have been scanned.
abbrev unheld : Run
unheld = record {
  last = _;
  reach =
      later
        (later (later one_snapshot.reach (writes (lock refl)))
          (writes (box 9 refl (omega arith) refl)))
        (writes (swap refl));
}

abbrev scanned_through : Shared
scanned_through = record (unheld.last) { writer = scanning [] (8 ∷ []) 16 }

scanned_through-Reach : Reach scanned_through
scanned_through-Reach = scan_on unheld.last [] [] 8 (λ j. omega arith) 16 (omega arith) unheld.reach

abbrev dropped : Shared
dropped = record scanned_through {
  alive = update scanned_through.alive 8 false;
  writer = scanning [] [] 0;
}

drop_once_example :
    (scanned_through.current ≢ 8)
    × ((j : ℕ) → scanned_through.reader j ≢ holding 8)
    × (owners dropped 8 ≡ 0)
drop_once_example =
    drop_once {t = dropped} scanned_through-Reach (writes (drop_box refl (omega arith))) 8 refl refl

allocated_exactly_example :
    (if one_reader.last.current == 0 then 0 else if one_reader.last.current == 8 then 1 else 0)
      + count 8 one_reader.last.retired
    ≡ (if one_reader.last.alive 8 then 1 else 0)
allocated_exactly_example = allocated_exactly one_reader.reach refl 8

reclaim_runs_example :
    WriterRun replaced.last
      (record (reclaim (record replaced.last { retired = 8 ∷ [] })) { writer = idle })
reclaim_runs_example = reclaim_runs replaced.last (8 ∷ []) refl

reclaim_keeps_held : (reclaim (record replaced.last { retired = 8 ∷ [] })).retired ≡ 8 ∷ []
unfolding reclaim
reclaim_keeps_held = refl

reclaim_frees_rest : (reclaim (record replaced.last { retired = 7 ∷ 8 ∷ [] })).retired ≡ 8 ∷ []
unfolding reclaim
reclaim_frees_rest = refl
