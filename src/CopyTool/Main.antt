-- ===== src/CopyTool/Main.antt =====
-- `main` of hw5.c: its arguments, the threads that it starts, and the statistics that it prints when they
-- have ended. SIGINT, which ends the program at any time, is left out.
pub mod Started
pub mod Report
pub mod Tests
use system_programming_cse.Common.{
  ℕ, zero, suc, ◌+◌, ◌-◌, ◌*◌, ◌/◌, ◌%◌, Bool, true, false, Option, none, some, List, [], ◌∷◌, ◌++◌,
  if◌then◌else◌, Text, codes, take, ltb,
}
use system_programming_cse.Common.Strings.{ℤ, pos, negsuc, atoi, decimal, long_decimal, padded}
use system_programming_cse.Common.Longs.{minus}
use system_programming_cse.CopyTool.Buffer.{Buffer, create_buffer}
use system_programming_cse.CopyTool.Walk.{Action, Dir, process_directory}
use system_programming_cse.CopyTool.Threads.{Worker, looking, System, begin}

-- What the calls of `main` find: the limit of `getrlimit`, and the two results of `malloc`, the second for
-- the number of `int`s asked for.
pub record World : Type 0 where
  pub limit : Option ℕ
  pub has_memory : Bool
  pub storage : ℕ → Option (List ℕ)

pub data Start : Type 0 where
  -- what was written, and the exit status
  stopped : Text → ℕ → Start
  -- what was written, the number of workers, the size of the buffer, and the threads
  started : Text → ℕ → ℕ → System → Start

usage : Text
usage = codes "Usage: %s <buffer_size> <num_workers> <src_dir> <dest_dir>\n"

not_positive : Text
not_positive = codes "Buffer size and number of workers must be positive integers.\n"

-- The text of `perror` is left out.
check_fd_limit : Option ℕ → Option Text
check_fd_limit none = none
check_fd_limit (some limit) = some (
    take 99 (
      codes "Current file descriptor limit: "
      ++ long_decimal limit
      ++ codes ". If it exceeds, program will exit.\n"))

-- The loop that starts the workers.
abbrev pub new_workers : ℕ → List Worker
new_workers zero = []
new_workers (suc n) = looking ∷ new_workers n

-- The threads of a buffer, or the exit in `create_buffer`; `plan` is what the manager will do.
pub with_buffer : Text → ℕ → ℕ → List Action → Option Buffer → Start
with_buffer out buffer_size num_workers plan none = stopped out 1
with_buffer out buffer_size num_workers plan (some b) =
    started out num_workers buffer_size (begin b plan (new_workers num_workers))

pub with_limit : World → ℕ → ℕ → List Action → Option Text → Start
unfolding with_buffer
with_limit w buffer_size num_workers plan none = stopped [] 1
with_limit w buffer_size num_workers plan (some out) =
    with_buffer out buffer_size num_workers plan
      (create_buffer w.has_memory (w.storage (buffer_size * 2)) buffer_size)

unfoldable pub with_sizes : World → List Action → ℤ → ℤ → Start
unfolding with_limit check_fd_limit not_positive
with_sizes w plan (pos (suc m)) (pos (suc n)) =
    with_limit w (suc m) (suc n) plan (check_fd_limit w.limit)
with_sizes w plan _ _ = stopped not_positive 1

-- `main` up to the joins; the list is `argv`. `path_max` is PATH_MAX, and `tree` says what lies in a
-- directory.
pub start : World → ℕ → (Text → Dir) → List Text → Start
unfolding with_sizes usage atoi process_directory
start w path_max tree (program ∷ buffer_size ∷ num_workers ∷ src_dir ∷ dest_dir ∷ []) =
    with_sizes w (process_directory path_max (tree src_dir) src_dir dest_dir) (atoi buffer_size)
      (atoi num_workers)
start w path_max tree argv = stopped usage 1

-- What `clock_gettime` gives.
pub record Clock : Type 0 where
  pub tv_sec : ℕ
  pub tv_nsec : ℕ

-- The numbers that `main` prints.
pub record Statistics : Type 0 where
  pub consumers : ℕ
  pub buffer_size : ℕ
  pub num_regular_files : ℕ
  pub num_fifo : ℕ
  pub num_directories : ℕ
  pub total_bytes_copied : ℕ

-- The threads have been joined; the numbers are read from the buffer.
pub statistics : ℕ → ℕ → Buffer → Statistics
statistics num_workers buffer_size b = record {
  consumers = num_workers;
  buffer_size = buffer_size;
  num_regular_files = b.num_regular_files;
  num_fifo = b.num_fifo;
  num_directories = b.num_directories;
  total_bytes_copied = b.total_bytes_copied;
}

-- The monotonic clock has not gone back. `thousandths` is `(long)(elapsed * 1000)`, computed in `double`
-- from the differences of the seconds and the nanoseconds.
time_text : (ℕ → ℤ → ℕ) → Clock → Clock → Text
time_text thousandths from to =
    let seconds = to.tv_sec - from.tv_sec in
    let milliseconds = thousandths seconds (minus to.tv_nsec from.tv_nsec) % 1000 in
    padded 2 (seconds / 60)
    ++ codes ":"
    ++ padded 2 (seconds % 60)
    ++ codes "."
    ++ padded 3 milliseconds

pub stats_text : (ℕ → ℤ → ℕ) → Clock → Clock → Statistics → Text
unfolding time_text
stats_text thousandths from to s = take 499 (
    codes "\n---------------STATISTICS--------------------\nConsumers: "
    ++ decimal s.consumers
    ++ codes " - Buffer Size: "
    ++ decimal s.buffer_size
    ++ codes "\nNumber of Regular Files: "
    ++ decimal s.num_regular_files
    ++ codes "\nNumber of FIFOs: "
    ++ decimal s.num_fifo
    ++ codes "\nNumber of Directories: "
    ++ decimal s.num_directories
    ++ codes "\nTOTAL BYTES COPIED: "
    ++ long_decimal s.total_bytes_copied
    ++ codes "\nTOTAL TIME: "
    ++ time_text thousandths from to
    ++ codes " (min:sec.millisec)\n")
