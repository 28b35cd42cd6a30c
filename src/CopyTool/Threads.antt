-- ===== src/CopyTool/Threads.antt =====
-- The manager thread and the worker threads of hw5.c over one buffer, interleaved in any order.
pub mod Invariant
pub mod Results
pub mod Counters
pub mod Flag
pub mod Tests
use system_programming_cse.Common.{
  ℕ, ◌+◌, ◌%◌, ◌^◌, ◌<◌, ◌≡◌, ◌==◌, ◌&&◌, not, Bool, true, false, Option, none, some, List, [], ◌∷◌,
  ◌++◌, if◌then◌else◌, get_elem?, set,
}
use system_programming_cse.CopyTool.Buffer.{Buffer, Pair, is_full, add_pair, take_pair}
use system_programming_cse.CopyTool.Walk.{
  Action, make_dir, count_dir, open_read, open_write, close, put, count_file, make_fifo, count_fifo,
}

-- What a call of the manager does to the buffer. `none` is the wait for `not_full`: the test is made
-- again whenever the manager wakes up, for whatever reason. The `int`s that count are numbers here, without
-- a bound.
unfoldable pub apply : Action → Buffer → Option Buffer
apply (put p) b = if is_full b then none else some (add_pair p b)
apply count_dir b = some (record b { num_directories = b.num_directories + 1 })
apply count_file b = some (record b { num_regular_files = b.num_regular_files + 1 })
apply count_fifo b = some (record b { num_fifo = b.num_fifo + 1 })
apply _ b = some b

-- The end of `manager_thread`, up to the barrier.
unfoldable pub set_done : Buffer → Buffer
set_done b = record b { is_done = true }

-- Where `worker_thread` stands: before it looks at the buffer, in the loop that copies a pair's
-- bytes, or at the barrier.
pub data Worker : Type 0 where
  looking : Worker
  copying : Pair → Worker
  finished : Worker

-- The critical section of a worker; `none` is the wait for `not_empty`.
unfoldable pub look : Buffer → Option (Worker × Buffer)
look b =
    if b.count == 0 && not b.is_done
    then none
    else if b.count == 0 && b.is_done
    then some (finished, b)
    else let (p, b') = take_pair b in some (copying p, b')

-- `total_bytes_copied += n`, a `size_t`.
unfoldable pub add_bytes : ℕ → Buffer → Buffer
add_bytes n b = record b { total_bytes_copied = (b.total_bytes_copied + n) % 2 ^ 64 }

-- `todo` is what the manager still has to do. The pairs that workers have taken, in the order in
-- which they took them, are written down in `handed`; the program does not store them.
pub record System : Type 0 where
  pub buffer : Buffer
  pub todo : List Action
  pub workers : List Worker
  pub handed : List Pair

abbrev pub pairs_of : Worker → List Pair
pairs_of (copying p) = p ∷ []
pairs_of _ = []

-- One critical section of one thread. How many bytes a `read` returns, and whether a `write` fails,
-- is left open: a worker may stop copying at any time.
pub data Step (s : System) : System → Type 0 where
  manage :
      {a : Action} {rest : List Action} {b : Buffer}
      → s.todo ≡ a ∷ rest
      → apply a s.buffer ≡ some b
      → Step s (record s { buffer = b; todo = rest })
  manager_ends :
      s.todo ≡ [] → s.buffer.is_done ≡ false → Step s (record s { buffer = set_done s.buffer })
  worker_looks :
      (i : ℕ) {w : Worker} {b : Buffer}
      → get_elem? s.workers i ≡ some looking
      → look s.buffer ≡ some (w, b)
      → Step s
          (record s { buffer = b; workers = set s.workers i w; handed = s.handed ++ pairs_of w })
  worker_copies :
      (i n : ℕ) {p : Pair}
      → get_elem? s.workers i ≡ some (copying p)
      → 0 < n
      → Step s (record s { buffer = add_bytes n s.buffer })
  worker_closes :
      (i : ℕ) {p : Pair}
      → get_elem? s.workers i ≡ some (copying p)
      → Step s (record s { workers = set s.workers i looking })

pub data Reach (s : System) : System → Type 0 where
  here : Reach s s
  next : {t u : System} → Reach s t → Step t u → Reach s u

-- The threads just after `main` has created them.
abbrev pub begin : Buffer → List Action → List Worker → System
begin b todo workers = record { buffer = b; todo = todo; workers = workers; handed = [] }

abbrev pub AllLooking : List Worker → Type 0
AllLooking [] = Unit {0}
AllLooking (w ∷ ws) = (w ≡ looking) × AllLooking ws

abbrev pub AllFinished : List Worker → Type 0
AllFinished [] = Unit {0}
AllFinished (w ∷ ws) = (w ≡ finished) × AllFinished ws
