-- ===== src/CopyTool/Main/Tests.antt =====
-- `main` with a buffer of two pairs and one worker, over a directory with one file.
use system_programming_cse.Common.{
  ℕ, zero, suc, ◌%◌, ◌^◌, ◌<◌, ◌≡◌, refl, ◌⊎◌, true, some, List, [], ◌∷◌, Text, arith, codes,
  length,
}
use system_programming_cse.Common.Strings.{pos, atoi}
use system_programming_cse.CopyTool.Buffer.{create_buffer}
use system_programming_cse.CopyTool.Buffer.Tests.{empty_buffer}
use system_programming_cse.CopyTool.Walk.{is_link}
use system_programming_cse.CopyTool.Walk.Counts.{Kind, files, directories, fifos, found}
use system_programming_cse.CopyTool.Threads.{looking, begin, AllFinished}
use system_programming_cse.CopyTool.Barrier.Order.{AllPassed}
use system_programming_cse.CopyTool.Signals.{Threaded, Step}
use system_programming_cse.CopyTool.Signals.Progress.{project}
use system_programming_cse.CopyTool.Signals.Tests.{all_ended, sleeps_first}
use system_programming_cse.CopyTool.Threads.Tests.{one_file, plan, last}
use system_programming_cse.CopyTool.Threads.Counters.{bytes_copied}
use system_programming_cse.CopyTool.Main.{World, started, stopped, start, statistics, stats_text}
use system_programming_cse.CopyTool.Main.Started.{totals}
use system_programming_cse.CopyTool.Main.Report.{start-totals}

abbrev sevens : ℕ → List ℕ
sevens zero = []
sevens (suc n) = 7 ∷ sevens n

length-sevens : (n : ℕ) → length (sevens n) ≡ n
length-sevens zero = refl
length-sevens (suc n) = omega (arith, length-sevens n)

abbrev pub world : World
world = record { limit = some 1024; has_memory = true; storage = λ n. some (sevens n) }

abbrev pub limit_text : Text
limit_text = codes "Current file descriptor limit: 1024. If it exceeds, program will exit.\n"

start-world :
    start world 4096
      (λ name. one_file)
      (codes "hw5" ∷ codes "2" ∷ codes "1" ∷ codes "s" ∷ codes "d" ∷ [])
    ≡ started limit_text 1 2 (begin empty_buffer plan (looking ∷ []))
unfolding start create_buffer atoi
start-world = refl

start_usage :
    start world 4096 (λ name. one_file) (codes "hw5" ∷ [])
    ≡ stopped (codes "Usage: %s <buffer_size> <num_workers> <src_dir> <dest_dir>\n") 1
unfolding start
start_usage = refl

pub storage_room : (n : ℕ) (slots : List ℕ) → world.storage n ≡ some slots → length slots ≡ n
storage_room n slots e = ground (arith, length-sevens n)

few_found : (k : Kind) → found k one_file < 2 ^ 31
unfolding found is_link
few_found files = omega arith
few_found directories = omega arith
few_found fifos = omega arith

start-totals_example :
    ((q : Threaded) × Step all_ended q)
    ⊎ (AllFinished last.workers
        × AllPassed all_ended.barrier.threads
        × (atoi (codes "2") ≡ pos 2)
        × (atoi (codes "1") ≡ pos 1)
        × (statistics 1 2 last.buffer
            ≡ totals 1 2 one_file (bytes_copied (project sleeps_first) % 2 ^ 64)))
start-totals_example =
    start-totals world 4096 (λ name. one_file) (codes "hw5") (codes "2") (codes "1") (codes "s")
      (codes "d") storage_room (omega arith) (omega arith) few_found start-world sleeps_first

stats_text_seen :
    stats_text
      (λ s ns. 61500)
      (record { tv_sec = 5; tv_nsec = 0 })
      (record { tv_sec = 66; tv_nsec = 500000000 })
      (totals 1 2 one_file 10)
    ≡ codes
        "\n---------------STATISTICS--------------------\nConsumers: 1 - Buffer Size: 2\nNumber of Regular Files: 1\nNumber of FIFOs: 0\nNumber of Directories: 0\nTOTAL BYTES COPIED: 10\nTOTAL TIME: 01:01.500 (min:sec.millisec)\n"
unfolding stats_text found is_link
stats_text_seen = refl
