-- ===== src/PideShop/Threads/Numbers.antt =====
-- Which threads Final/thread_pool.c and Final/server.c start, and which handles they keep.
use system_programming_cse.Common.{
  ℕ, zero, suc, ◌+◌, ◌≡◌, ◌∙◌, ap, ap₂, sym, some, List, [], ◌∷◌, ◌++◌, length, length-append,
  append_assoc, append-nil,
}
use system_programming_cse.Common.Strings.{ℤ}
use system_programming_cse.Common.Options.{◌>>=◌}
use system_programming_cse.PideShop.Threads.{
  Routine, pool, number, Thread, create_thread, pool_loop, get_unique_id, start_loop, rounds,
  ThreadPool, init_thread_pool, start_workers,
}

-- `n` numbers from `k`, and threads with these numbers.
abbrev pub counting : ℕ → ℕ → List ℕ
counting k zero = []
counting k (suc n) = k ∷ counting (k + 1) n

abbrev pub numbered_threads : Routine → List ℕ → List Thread
numbered_threads worker [] = []
numbered_threads worker (i ∷ is) =
    record { worker = worker; argument = number i } ∷ numbered_threads worker is

-- Threads that have the pool as their argument.
abbrev pub pool_threads : Routine → ℕ → List Thread
pool_threads worker zero = []
pool_threads worker (suc n) = record { worker = worker; argument = pool } ∷ pool_threads worker n

abbrev later : List Thread → Thread → ℕ → List ℕ
later ts t n = counting (length (ts ++ t ∷ [])) n

later-counting : (ts : List Thread) (t : Thread) (n : ℕ) → later ts t n ≡ counting (length ts + 1) n
later-counting ts t n = ap (λ k. counting k n) (length-append ts (t ∷ []))

pool_loop-pool_threads :
    (worker : Routine) (n : ℕ) (ts : List Thread)
    → pool_loop worker n ts ≡ (counting (length ts) n, ts ++ pool_threads worker n)
unfolding pool_loop create_thread
pool_loop-pool_threads worker zero ts = ap (λ xs. ([], xs)) (sym (append-nil ts))
pool_loop-pool_threads worker (suc n) ts =
    let t : Thread = record { worker = worker; argument = pool } in
    ap (λ r. (length ts ∷ r.0, r.1)) (pool_loop-pool_threads worker n (ts ++ t ∷ []))
    ∙ ap₂ (λ x y. (length ts ∷ x, y)) (later-counting ts t n)
        (append_assoc ts (t ∷ []) (pool_threads worker n))

start_loop-numbered_threads :
    (worker : Routine) (v counter n : ℕ) (ts : List Thread)
    → start_loop worker (suc v) counter n ts
      ≡ some (counting (length ts) n, ts ++ numbered_threads worker (counting counter n))
unfolding start_loop get_unique_id create_thread
start_loop-numbered_threads worker v counter zero ts =
    ap (λ xs. some ([], xs)) (sym (append-nil ts))
start_loop-numbered_threads worker v counter (suc n) ts =
    let t : Thread = record { worker = worker; argument = number counter } in
    ap (λ o. o >>= λ r. some (length ts ∷ r.0, r.1))
      (start_loop-numbered_threads worker v (counter + 1) n (ts ++ t ∷ []))
    ∙ ap₂ (λ x y. some (length ts ∷ x, y)) (later-counting ts t n)
        (append_assoc ts (t ∷ []) (numbered_threads worker (counting (counter + 1) n)))

-- The workers that `init_thread_pool` starts.
pub init_thread_pool-pool_threads :
    (worker : Routine) (count : ℤ) (ts : List Thread)
    → init_thread_pool worker count ts ≡ (
      record {
        threads = counting (length ts) (rounds count);
        thread_count = count;
        task_sem = 0;
        task_index = 0;
      },
      ts ++ pool_threads worker (rounds count),
    )
unfolding init_thread_pool
init_thread_pool-pool_threads worker count ts =
    ap (λ r. (record { threads = r.0; thread_count = count; task_sem = 0; task_index = 0 }, r.1))
      (pool_loop-pool_threads worker (rounds count) ts)

-- Where the semaphore lets a thread pass, the workers that `main` starts have the numbers from 1 on.
pub start_workers-numbered_threads :
    (worker : Routine) (v : ℕ) (p : ThreadPool) (ts : List Thread)
    → start_workers worker (suc v) p ts
      ≡ some (
        record p { threads = counting (length ts) (rounds p.thread_count) },
        ts ++ numbered_threads worker (counting 1 (rounds p.thread_count)),
      )
unfolding start_workers
start_workers-numbered_threads worker v p ts =
    ap (λ o. o >>= λ r. some (record p { threads = r.0 }, r.1))
      (start_loop-numbered_threads worker v 1 (rounds p.thread_count) ts)
