-- ===== src/CopyTool/Main/Report.antt =====
-- What `main` of hw5.c prints when all threads have ended.
use system_programming_cse.Common.{
  ℕ, ◌+◌, ◌*◌, ◌%◌, ◌^◌, ◌<◌, ◌≡◌, refl, ◌⊎◌, inl, inr, some, List, [], ◌∷◌, Text, length,
}
use system_programming_cse.Common.Strings.{pos, atoi}
use system_programming_cse.CopyTool.Walk.{Dir, process_directory}
use system_programming_cse.CopyTool.Walk.Counts.{Kind, found}
use system_programming_cse.CopyTool.Threads.{System, AllFinished}
use system_programming_cse.CopyTool.Threads.Counters.{bytes_copied}
use system_programming_cse.CopyTool.Barrier.Order.{AllPassed}
use system_programming_cse.CopyTool.Signals.{Threaded, Step, Reach, threads}
use system_programming_cse.CopyTool.Signals.Sleepers.{threads-Rested}
use system_programming_cse.CopyTool.Signals.Progress.{project, next-Step, todo_done, Reach-Rested}
use system_programming_cse.CopyTool.Main.Started.{
  with_sizes-Started, totals, Started-run, Started-statistics, length-workers,
}
use system_programming_cse.CopyTool.Main.{World, started, start, statistics}

-- `main` over a directory, with five arguments of which the sizes are positive, with memory for its
-- buffer and with all its threads created, where the double of the size, the number of the threads and the
-- numbers of things found are `int`s, and no wait ends without a signal or a broadcast: after any steps of
-- its threads, some thread can go on, or all have passed the barrier, and then the numbers that `main` prints
-- are the sizes that were asked for, the numbers of regular files, FIFOs and directories that a count of the
-- directory finds, and the bytes that the workers have copied, as a `size_t`.
pub start-totals :
    (w : World) (path_max : ℕ) (tree : Text → Dir) (program size workers src dest : Text)
    {out : Text} {num_workers buffer_size : ℕ} {s : System} {p : Threaded}
    → ((n : ℕ) (slots : List ℕ) → w.storage n ≡ some slots → length slots ≡ n)
    → buffer_size * 2 < 2 ^ 31
    → num_workers + 1 < 2 ^ 31
    → ((k : Kind) → found k (tree src) < 2 ^ 31)
    → start w path_max tree (program ∷ size ∷ workers ∷ src ∷ dest ∷ [])
      ≡ started out num_workers buffer_size s
    → (r : Reach (threads num_workers s) p)
    → ((q : Threaded) × Step p q)
      ⊎ (AllFinished p.system.workers
          × AllPassed p.barrier.threads
          × (atoi size ≡ pos buffer_size)
          × (atoi workers ≡ pos num_workers)
          × (statistics num_workers buffer_size p.system.buffer
              ≡ totals num_workers buffer_size (tree src) (bytes_copied (project r) % 2 ^ 64)))
unfolding start threads
start-totals w path_max tree program size workers src dest {num_workers = n} {s = s} room small few
      counted e r =
    let plan = process_directory path_max (tree src) src dest in
    let (size_read, workers_read, pos_size, pos_workers, begun) =
      with_sizes-Started w plan (atoi size) (atoi workers) e in
    let run = project r in
    let inv = (Started-run w plan room small pos_size pos_workers begun run).0 in
    let length_workers = length-workers w plan room small pos_size pos_workers begun run in
    let rested = Reach-Rested r (threads-Rested n s length_workers pos_workers) in
    elim (next-Step rested inv) [
      | inr step ↦ inl step
      | inl (all, passed) ↦ inr (
        all,
        passed,
        size_read,
        workers_read,
        Started-statistics w plan room small pos_size pos_workers begun run path_max (tree src) src
            dest refl (todo_done rested inv all),
      )
    ]
