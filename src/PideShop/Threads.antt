-- ===== src/PideShop/Threads.antt =====
-- Final/thread_pool.c, and the parts of Final/server.c that give its threads their numbers and start them.
-- `malloc` and `pthread_create` succeed, as the code takes for granted.
pub mod Numbers
use system_programming_cse.Common.{
  ℕ, zero, suc, ◌+◌, Option, none, some, List, [], ◌∷◌, ◌++◌, length,
}
use system_programming_cse.Common.Options.{◌>>=◌}
use system_programming_cse.Common.Strings.{ℤ, pos, negsuc}

-- The functions that threads run.
pub data Routine : Type 0 where
  cook_worker delivery_worker manager_worker client_handler : Routine

-- What a thread gets as its argument: a pool, the number of a worker, a socket, or NULL.
pub data Argument : Type 0 where
  pool null : Argument
  number socket : ℕ → Argument

pub record Thread : Type 0 where
  pub worker : Routine
  pub argument : Argument

-- `thread_pool_t`, with the handles in `threads`. The tasks are those of the shop.
pub record ThreadPool : Type 0 where
  pub threads : List ℕ
  pub thread_count : ℤ
  pub task_sem : ℕ
  pub task_index : ℕ

-- `pthread_create`: a thread has as its handle how many were created before it.
unfoldable pub create_thread : Routine → Argument → List Thread → ℕ × List Thread
create_thread worker argument ts =
    (length ts, ts ++ record { worker = worker; argument = argument } ∷ [])

-- The rounds of a loop from 0 below `n`.
abbrev pub rounds : ℤ → ℕ
rounds (pos n) = n
rounds (negsuc n) = 0

-- The loop of `init_thread_pool`: each worker gets the pool.
pool_loop : Routine → ℕ → List Thread → List ℕ × List Thread
unfolding create_thread
pool_loop worker zero ts = ([], ts)
pool_loop worker (suc n) ts =
    let (handle, more) = create_thread worker pool ts in
    let (handles, all) = pool_loop worker n more in (handle ∷ handles, all)

unfoldable pub init_thread_pool : Routine → ℤ → List Thread → ThreadPool × List Thread
unfolding pool_loop
init_thread_pool worker thread_count ts =
    let (handles, all) = pool_loop worker (rounds thread_count) ts in
    (record { threads = handles; thread_count = thread_count; task_sem = 0; task_index = 0 }, all)

-- `get_unique_cook_id` and `get_unique_moto_id`, each with a semaphore and a counter of its own: the number
-- and the next one, or nothing where `sem_wait` does not return. The semaphore has its value again at the
-- end.
get_unique_id : (semaphore counter : ℕ) → Option (ℕ × ℕ)
get_unique_id zero counter = none
get_unique_id (suc v) counter = some (counter, counter + 1)

-- The loop of `main` that starts the workers of a pool: the handles that it writes over those of the
-- pool.
start_loop : Routine → ℕ → ℕ → ℕ → List Thread → Option (List ℕ × List Thread)
unfolding create_thread get_unique_id
start_loop worker semaphore counter zero ts = some ([], ts)
start_loop worker semaphore counter (suc n) ts = do
  (id, next) ← get_unique_id semaphore counter
  let (handle, more) = create_thread worker (number id) ts
  (handles, all) ← start_loop worker semaphore next n more
  some (handle ∷ handles, all)

-- A pool with its workers started, or nothing where `main` waits for a number for ever.
unfoldable pub start_workers :
    Routine → ℕ → ThreadPool → List Thread → Option (ThreadPool × List Thread)
unfolding start_loop
start_workers worker semaphore p ts = do
  (handles, all) ← start_loop worker semaphore 1 (rounds p.thread_count) ts
  some (record p { threads = handles }, all)
