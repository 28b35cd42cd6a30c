-- ===== src/CopyTool/Signals/Tests.antt =====
-- The worker of CopyTool.Threads.Tests sleeps until the manager has put the pair of the one file.
use system_programming_cse.Common.{refl, false, [], ◌∷◌, arith}
use system_programming_cse.CopyTool.Buffer.{add_pair, take_pair}
use system_programming_cse.CopyTool.Buffer.Tests.{empty_buffer}
use system_programming_cse.CopyTool.Walk.{process_directory}
use system_programming_cse.CopyTool.Barrier.{passed, barrier_wait}
use system_programming_cse.CopyTool.Threads.{apply, set_done, looking, look, add_bytes, begin}
use system_programming_cse.CopyTool.Threads.Tests.{plan, last}
use system_programming_cse.CopyTool.Signals.{
  wakes, is_signalled, signal_not_full, Threaded, manager_acts, manager_ends, manager_arrives,
  worker_looks, worker_waits, worker_copies, worker_closes, worker_arrives, Reach, here, next,
  threads,
}

-- All have passed the barrier.
abbrev pub all_ended : Threaded
all_ended = record {
  system = last;
  manager_sleeps = false;
  sleepers = false ∷ [];
  barrier = record { count = 0; total = 2; threads = passed ∷ passed ∷ [] };
}

pub sleeps_first : Reach (threads 1 (begin empty_buffer plan (looking ∷ []))) all_ended
unfolding process_directory apply look set_done add_bytes add_pair take_pair threads is_signalled
    signal_not_full barrier_wait
sleeps_first =
    next
      (next
        (next
          (next
            (next
              (next
                (next
                  (next
                    (next
                      (next
                        (next (next here (worker_waits 0 refl refl refl))
                          (manager_acts refl refl refl refl))
                        (manager_acts refl refl refl refl))
                      (manager_acts refl refl refl (wakes 0 refl)))
                    (worker_looks 0 refl refl refl))
                  (manager_acts refl refl refl refl))
                (worker_copies 0 10 refl (omega arith)))
              (manager_ends refl refl refl))
            (worker_closes 0 refl))
          (worker_looks 0 refl refl refl))
        (manager_arrives refl refl))
      (worker_arrives 0 refl refl)
