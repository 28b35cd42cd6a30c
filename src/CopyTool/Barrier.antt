-- ===== src/CopyTool/Barrier.antt =====
-- `barrier_wait` of hw5.c, which the manager and the workers call before they exit.
pub mod Order
mod Tests
use system_programming_cse.Common.{
  ℕ, zero, suc, ◌+◌, ◌≡◌, ◌==◌, some, List, [], ◌∷◌, if◌then◌else◌, get_elem?, set,
}

-- Where a thread stands: before the call, in `pthread_cond_wait`, or behind the call.
pub data Phase : Type 0 where
  outside asleep passed : Phase

-- barrier_count and barrier_total, with the phase of each thread.
pub record Barrier : Type 0 where
  pub count : ℕ
  pub total : ℕ
  pub threads : List Phase

abbrev pub wake : Phase → Phase
wake asleep = passed
wake p = p

-- `pthread_cond_broadcast` wakes every thread that sleeps.
abbrev pub wake_all : List Phase → List Phase
wake_all [] = []
wake_all (p ∷ ps) = wake p ∷ wake_all ps

-- The call by thread `i`, up to its wait or its return.
unfoldable pub barrier_wait : ℕ → Barrier → Barrier
barrier_wait i b =
    if b.count + 1 == b.total
    then record b { count = 0; threads = wake_all (set b.threads i passed) }
    else record b { count = b.count + 1; threads = set b.threads i asleep }

-- A thread that has not called yet calls. The wait is in no loop, so a thread that wakes up with no
-- broadcast (`spurious`, which POSIX permits) passes too.
pub data Step (b : Barrier) : Barrier → Type 0 where
  arrive : (i : ℕ) → get_elem? b.threads i ≡ some outside → Step b (barrier_wait i b)

pub data SpuriousStep (b : Barrier) : Barrier → Type 0 where
  regular : {c : Barrier} → Step b c → SpuriousStep b c
  spurious :
      (i : ℕ)
      → get_elem? b.threads i ≡ some asleep
      → SpuriousStep b (record b { threads = set b.threads i passed })

pub data Reach (b : Barrier) : Barrier → Type 0 where
  here : Reach b b
  next : {c d : Barrier} → Reach b c → Step c d → Reach b d

pub data SpuriousReach (b : Barrier) : Barrier → Type 0 where
  here : SpuriousReach b b
  next : {c d : Barrier} → SpuriousReach b c → SpuriousStep c d → SpuriousReach b d

abbrev pub all_outside : ℕ → List Phase
all_outside zero = []
all_outside (suc n) = outside ∷ all_outside n

-- `main` sets barrier_total to the number of threads.
abbrev pub opening : ℕ → Barrier
opening n = record { count = 0; total = n; threads = all_outside n }
