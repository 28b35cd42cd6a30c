-- ===== src/CopyTool/Threads/Tests.antt =====
-- One worker copies the one file of a directory.
use system_programming_cse.Common.{
  ◌≡◌, ◌<◌, ◌^◌, refl, true, some, List, [], ◌∷◌, ◌++◌, arith, codes, length,
}
use system_programming_cse.CopyTool.Buffer.{add_pair, take_pair}
use system_programming_cse.CopyTool.Buffer.Refine.{contents}
use system_programming_cse.CopyTool.Buffer.Tests.{slots, empty_buffer, created}
use system_programming_cse.CopyTool.Walk.{
  Dir, listing, nil, cons, regular, Action, process_directory,
}
use system_programming_cse.CopyTool.Walk.Descriptors.{puts}
use system_programming_cse.CopyTool.Threads.{
  apply, set_done, looking, finished, look, add_bytes, System, manage, manager_ends, worker_looks,
  worker_copies, worker_closes, Reach, here, next, begin,
}
use system_programming_cse.CopyTool.Threads.Results.{pairs_in_order, worker_ends_last}

abbrev pub one_file : Dir
one_file = listing (cons (regular (codes "f") (some 4) (some 5)) nil)

abbrev pub plan : List Action
plan = process_directory 4096 one_file (codes "s") (codes "d")

-- Everything is copied, ten bytes, and the worker has left its loop.
abbrev pub last : System
last = record {
  buffer = record empty_buffer {
    slots = 4 ∷ 5 ∷ 7 ∷ 7 ∷ [];
    head = 2;
    tail = 2;
    num_regular_files = 1;
    total_bytes_copied = 10;
    is_done = true;
  };
  todo = [];
  workers = finished ∷ [];
  handed = (4, 5) ∷ [];
}

pub whole_run : Reach (begin empty_buffer plan (looking ∷ [])) last
unfolding process_directory apply look set_done add_bytes add_pair take_pair
whole_run =
    next
      (next
        (next
          (next
            (next
              (next
                (next (next (next here (manage refl refl)) (manage refl refl)) (manage refl refl))
                (worker_looks 0 refl refl))
              (manage refl refl))
            (worker_copies 0 10 refl (omega arith)))
          (manager_ends refl refl))
        (worker_closes 0 refl))
      (worker_looks 0 refl refl)

pairs_in_order_example : last.handed ++ contents last.buffer ++ puts last.todo ≡ puts plan
pairs_in_order_example =
    pairs_in_order slots 2 (omega arith) (omega arith) refl created (refl, tt) plan whole_run

few : length (puts plan) < 2 ^ 31
unfolding process_directory
few = omega arith

worker_ends_last_example :
    (last.handed ≡ puts plan)
    × (last.buffer.num_regular_files ≡ length last.handed)
    × (last.buffer.num_regular_files < 2 ^ 31)
    × (last.todo ≡ [])
worker_ends_last_example =
    worker_ends_last slots 2 (omega arith) (omega arith) refl created (refl, tt) 4096 one_file
      (codes "s") (codes "d") 0 whole_run refl few
