-- ===== src/CopyTool/Signals.antt =====
-- The waits of hw5.c with the signals that end them: the threads of CopyTool.Threads, which of them sleep in
-- `pthread_cond_wait`, and the barrier before their ends. A thread that sleeps wakes up by a signal or a
-- broadcast only.
pub mod Sleepers
pub mod Kept
pub mod Progress
pub mod Tests
use system_programming_cse.Common.{
  ℕ, suc, ◌+◌, ◌<◌, ◌≡◌, ◌≢◌, Bool, true, false, none, some, List, [], ◌∷◌, ◌++◌, get_elem?, set,
}
use system_programming_cse.CopyTool.Buffer.{Buffer, Pair}
use system_programming_cse.CopyTool.Walk.{Action, put}
use system_programming_cse.CopyTool.Barrier.{Barrier, outside, barrier_wait, opening}
use system_programming_cse.CopyTool.Threads.{
  apply, set_done, Worker, looking, copying, finished, look, add_bytes, System, pairs_of,
}

-- `pthread_cond_signal` wakes one of the threads that sleep, if there is one.
pub data Signal (sleepers : List Bool) : List Bool → Type 0 where
  wakes : (i : ℕ) → get_elem? sleepers i ≡ some true → Signal sleepers (set sleepers i false)
  wakes_nobody : ((i : ℕ) → get_elem? sleepers i ≢ some true) → Signal sleepers sleepers

-- `pthread_cond_broadcast` wakes them all.
abbrev pub broadcast : List Bool → List Bool
broadcast [] = []
broadcast (s ∷ ss) = false ∷ broadcast ss

-- The manager signals `not_empty` when it has put a pair.
pub is_signalled : Action → Bool
is_signalled (put p) = true
is_signalled _ = false

abbrev pub Signals : Bool → List Bool → List Bool → Type 0
Signals true before after = Signal before after
Signals false before after = after ≡ before

-- A worker that has taken a pair signals `not_full`, for which only the manager waits.
pub signal_not_full : Worker → Bool → Bool
signal_not_full (copying p) manager_sleeps = false
signal_not_full _ manager_sleeps = manager_sleeps

-- The threads, whether the manager sleeps on `not_full`, which workers sleep on `not_empty`, and the barrier,
-- where the manager is number 0 and worker `i` is number `i + 1`.
pub record Threaded : Type 0 where
  pub system : System
  pub manager_sleeps : Bool
  pub sleepers : List Bool
  pub barrier : Barrier

-- A critical section of one thread, up to its end, its wait, or its signal. A thread that wakes up tests again.
pub data Step (s : Threaded) : Threaded → Type 0 where
  manager_acts :
      {a : Action} {rest : List Action} {b : Buffer} {sleepers : List Bool}
      → s.manager_sleeps ≡ false
      → s.system.todo ≡ a ∷ rest
      → apply a s.system.buffer ≡ some b
      → Signals (is_signalled a) s.sleepers sleepers
      → Step s
          (record s { system = record s.system { buffer = b; todo = rest }; sleepers = sleepers })
  manager_waits :
      {a : Action} {rest : List Action}
      → s.manager_sleeps ≡ false
      → s.system.todo ≡ a ∷ rest
      → apply a s.system.buffer ≡ none
      → Step s (record s { manager_sleeps = true })
  manager_ends :
      s.manager_sleeps ≡ false
      → s.system.todo ≡ []
      → s.system.buffer.is_done ≡ false
      → Step s (record s {
        system = record s.system { buffer = set_done s.system.buffer };
        sleepers = broadcast s.sleepers;
      })
  manager_arrives :
      s.system.buffer.is_done ≡ true
      → get_elem? s.barrier.threads 0 ≡ some outside
      → Step s (record s { barrier = barrier_wait 0 s.barrier })
  worker_looks :
      (i : ℕ) {w : Worker} {b : Buffer}
      → get_elem? s.sleepers i ≡ some false
      → get_elem? s.system.workers i ≡ some looking
      → look s.system.buffer ≡ some (w, b)
      → Step s (record s {
        system = record s.system {
          buffer = b;
          workers = set s.system.workers i w;
          handed = s.system.handed ++ pairs_of w;
        };
        manager_sleeps = signal_not_full w s.manager_sleeps;
      })
  worker_waits :
      (i : ℕ)
      → get_elem? s.sleepers i ≡ some false
      → get_elem? s.system.workers i ≡ some looking
      → look s.system.buffer ≡ none
      → Step s (record s { sleepers = set s.sleepers i true })
  worker_copies :
      (i n : ℕ) {p : Pair}
      → get_elem? s.system.workers i ≡ some (copying p)
      → 0 < n
      → Step s (record s { system = record s.system { buffer = add_bytes n s.system.buffer } })
  worker_closes :
      (i : ℕ) {p : Pair}
      → get_elem? s.system.workers i ≡ some (copying p)
      → Step s (record s { system = record s.system { workers = set s.system.workers i looking } })
  worker_arrives :
      (i : ℕ)
      → get_elem? s.system.workers i ≡ some finished
      → get_elem? s.barrier.threads (suc i) ≡ some outside
      → Step s (record s { barrier = barrier_wait (suc i) s.barrier })

pub data Reach (s : Threaded) : Threaded → Type 0 where
  here : Reach s s
  next : {t u : Threaded} → Reach s t → Step t u → Reach s u

-- No thread sleeps, and none has come to the barrier.
abbrev pub awake : List Worker → List Bool
awake [] = []
awake (w ∷ ws) = false ∷ awake ws

-- The threads that `main` creates, with `barrier_total`.
unfoldable pub threads : ℕ → System → Threaded
threads num_workers s = record {
  system = s;
  manager_sleeps = false;
  sleepers = awake s.workers;
  barrier = opening (num_workers + 1);
}
