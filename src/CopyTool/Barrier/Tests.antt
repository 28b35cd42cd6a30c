-- ===== src/CopyTool/Barrier/Tests.antt =====
-- The barrier with two threads, a manager and a worker.
use system_programming_cse.Common.{◌≡◌, refl, some, [], ◌∷◌, arith, get_elem?}
use system_programming_cse.CopyTool.Barrier.{
  outside, passed, Barrier, barrier_wait, arrive, Reach, here, next, opening,
}
use system_programming_cse.CopyTool.Barrier.Order.{passed_after_all}

abbrev both_passed : Barrier
both_passed = record { count = 0; total = 2; threads = passed ∷ passed ∷ [] }

both_come : Reach (opening 2) both_passed
unfolding barrier_wait
both_come = next (next here (arrive 0 refl)) (arrive 1 refl)

passed_after_all_example : ¬ (get_elem? both_passed.threads 1 ≡ some outside)
passed_after_all_example = passed_after_all 0 1 (omega arith) both_come refl
