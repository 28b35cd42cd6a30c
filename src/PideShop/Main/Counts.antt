-- ===== src/PideShop/Main/Counts.antt =====
-- How many threads of each kind Final/server.c starts.
use system_programming_cse.Common.{
  ℕ, zero, suc, ◌+◌, ◌≡◌, ◌≤◌, ltb, if◌then◌else◌, refl, ap, List, [], ◌∷◌, ◌++◌, length,
  length-append, arith,
}
use system_programming_cse.Common.Sums.{sum, sum-append}
use system_programming_cse.PideShop.Orders.{open_shop}
use system_programming_cse.PideShop.Orders.Bounds.{open_shop-length}
use system_programming_cse.PideShop.Threads.{
  Routine, cook_worker, delivery_worker, manager_worker, client_handler, Argument, pool, number,
  null, Thread,
}
use system_programming_cse.PideShop.Threads.Numbers.{counting, numbered_threads, pool_threads}

-- The threads of the server: the workers of `init_thread_pool`, the manager, and the workers of `main`.
abbrev pub all_threads : ℕ → ℕ → List Thread
all_threads n m =
    pool_threads cook_worker n
    ++ pool_threads delivery_worker m
    ++ record { worker = manager_worker; argument = null } ∷ []
    ++ numbered_threads cook_worker (counting 1 n)
    ++ numbered_threads delivery_worker (counting 1 m)

length-counting : (k n : ℕ) → length (counting k n) ≡ n
length-counting k zero = refl
length-counting k (suc n) = ap suc (length-counting (k + 1) n)

length-pool_threads : (worker : Routine) (n : ℕ) → length (pool_threads worker n) ≡ n
length-pool_threads worker zero = refl
length-pool_threads worker (suc n) = ap suc (length-pool_threads worker n)

length-numbered_threads :
    (worker : Routine) (is : List ℕ) → length (numbered_threads worker is) ≡ length is
length-numbered_threads worker [] = refl
length-numbered_threads worker (i ∷ is) = ap suc (length-numbered_threads worker is)

-- The threads that stand before the workers that `main` starts.
abbrev pub first_threads : ℕ → ℕ → List Thread
first_threads n m =
    pool_threads cook_worker n
    ++ pool_threads delivery_worker m
    ++ record { worker = manager_worker; argument = null } ∷ []

pub first_length : (n m : ℕ) → length (first_threads n m) ≡ n + m + 1
first_length n m = omega (
  arith,
  length-append (pool_threads cook_worker n ++ pool_threads delivery_worker m)
      (record { worker = manager_worker; argument = null } ∷ []),
  length-append (pool_threads cook_worker n) (pool_threads delivery_worker m),
  length-pool_threads cook_worker n,
  length-pool_threads delivery_worker m,
)

pub with_cooks_length :
    (n m : ℕ)
    → length (first_threads n m ++ numbered_threads cook_worker (counting 1 n)) ≡ n + m + 1 + n
with_cooks_length n m = omega (
  arith,
  length-append (first_threads n m) (numbered_threads cook_worker (counting 1 n)),
  first_length n m,
  length-numbered_threads cook_worker (counting 1 n),
  length-counting 1 n,
)

-- How many threads run a function.
abbrev is_worker : Routine → Routine → ℕ
is_worker cook_worker cook_worker = 1
is_worker delivery_worker delivery_worker = 1
is_worker manager_worker manager_worker = 1
is_worker client_handler client_handler = 1
is_worker _ _ = 0

abbrev pub how_many : Routine → List Thread → ℕ
how_many worker ts = sum (λ t. is_worker worker t.worker) ts

sum-pool_threads :
    (f : Thread → ℕ) (c : ℕ) (worker : Routine) (n : ℕ)
    → ((argument : Argument) → f (record { worker = worker; argument = argument }) ≡ c)
    → c ≤ 1
    → sum f (pool_threads worker n) ≡ (if ltb 0 c then n else 0)
sum-pool_threads f c worker zero h le = ground arith
sum-pool_threads f c worker (suc n) h le =
    ground (arith, h pool, sum-pool_threads f c worker n h le)

sum-numbered_threads :
    (f : Thread → ℕ) (c : ℕ) (worker : Routine) (is : List ℕ)
    → ((argument : Argument) → f (record { worker = worker; argument = argument }) ≡ c)
    → c ≤ 1
    → sum f (numbered_threads worker is) ≡ (if ltb 0 c then length is else 0)
sum-numbered_threads f c worker [] h le = ground arith
sum-numbered_threads f c worker (i ∷ is) h le =
    ground (arith, h (number i), sum-numbered_threads f c worker is h le)

-- The cooks and the couriers among the threads are those of the shop.
pub how_many-all_threads :
    (n m : ℕ)
    → (how_many cook_worker (all_threads n m) ≡ length (open_shop n m).cooks)
      × (how_many delivery_worker (all_threads n m) ≡ length (open_shop n m).carried)
how_many-all_threads n m = (
  omega (
    arith,
    open_shop-length n m,
    split cook_worker,
    sum-pool_threads (λ t. is_worker cook_worker t.worker) 1 cook_worker n (λ x. refl)
        (omega arith),
    sum-pool_threads (λ t. is_worker cook_worker t.worker) 0 delivery_worker m (λ x. refl)
        (omega arith),
    sum-numbered_threads (λ t. is_worker cook_worker t.worker) 1 cook_worker (counting 1 n)
        (λ x. refl) (omega arith),
    sum-numbered_threads (λ t. is_worker cook_worker t.worker) 0 delivery_worker (counting 1 m)
        (λ x. refl) (omega arith),
    length-counting 1 n,
  ),
  omega (
    arith,
    open_shop-length n m,
    split delivery_worker,
    sum-pool_threads (λ t. is_worker delivery_worker t.worker) 0 cook_worker n (λ x. refl)
        (omega arith),
    sum-pool_threads (λ t. is_worker delivery_worker t.worker) 1 delivery_worker m (λ x. refl)
        (omega arith),
    sum-numbered_threads (λ t. is_worker delivery_worker t.worker) 0 cook_worker (counting 1 n)
        (λ x. refl) (omega arith),
    sum-numbered_threads (λ t. is_worker delivery_worker t.worker) 1 delivery_worker (counting 1 m)
        (λ x. refl) (omega arith),
    length-counting 1 m,
  ),
)
  where
    split :
        (worker : Routine)
        → how_many worker (all_threads n m)
          ≡ how_many worker (pool_threads cook_worker n)
            + how_many worker (pool_threads delivery_worker m)
            + how_many worker (record { worker = manager_worker; argument = null } ∷ [])
            + how_many worker (numbered_threads cook_worker (counting 1 n))
            + how_many worker (numbered_threads delivery_worker (counting 1 m))
    split worker =
        let f : Thread → ℕ = λ t. is_worker worker t.worker in
        let first = pool_threads cook_worker n in
        let second = pool_threads delivery_worker m in
        let third : List Thread = record { worker = manager_worker; argument = null } ∷ [] in
        let fourth = numbered_threads cook_worker (counting 1 n) in
        let fifth = numbered_threads delivery_worker (counting 1 m) in
        omega (
          arith,
          sum-append f first second,
          sum-append f (first ++ second) third,
          sum-append f (first ++ second ++ third) fourth,
          sum-append f (first ++ second ++ third ++ fourth) fifth,
        )
