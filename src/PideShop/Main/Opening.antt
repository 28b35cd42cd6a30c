-- ===== src/PideShop/Main/Opening.antt =====
-- When Final/server.c opens the shop, and with which threads.
use system_programming_cse.Common.{
  ℕ, suc, ◌+◌, ◌≡◌, ◌∙◌, ap, ap₂, Bool, true, false, Option, some, List, [], ◌∷◌, ◌++◌, length,
  arith, Text, codes, text_eq, ◌&&◌,
}
use system_programming_cse.Common.Options.{◌>>=◌}
use system_programming_cse.Common.Strings.{ℤ, atoi}
use system_programming_cse.PideShop.Orders.{open_shop}
use system_programming_cse.PideShop.Threads.{
  cook_worker, delivery_worker, manager_worker, null, Thread, rounds, ThreadPool, create_thread,
  init_thread_pool, start_workers,
}
use system_programming_cse.PideShop.Threads.Numbers.{
  counting, numbered_threads, pool_threads, init_thread_pool-pool_threads,
  start_workers-numbered_threads,
}
use system_programming_cse.PideShop.Main.{
  Interface, World, serving, print_server_info, log_activity, host, find_host, fd_is_zero, low_bits,
  server_backlog, Semaphores, open_semaphores, Pools, start_again, start_pools, with_pools,
  with_semaphores, with_host, with_interfaces, start,
}
use system_programming_cse.PideShop.Main.Counts.{
  all_threads, first_threads, first_length, with_cooks_length, how_many, how_many-all_threads,
}

-- An interface with an address of its family and the name that `main` looks for.
abbrev pub is_en0 : Interface → Bool
is_en0 i = i.has_address && (i.is_inet && text_eq i.name (codes "en0"))

abbrev pub NoneEn0 : List Interface → Type 0
NoneEn0 [] = Unit {0}
NoneEn0 (i ∷ is) = (is_en0 i ≡ false) × NoneEn0 is

find_host-host :
    (before rest : List Interface) (i : Interface) (h : Text)
    → NoneEn0 before
    → is_en0 i ≡ true
    → i.host ≡ some h
    → find_host (before ++ i ∷ rest) ≡ host h
unfolding find_host
find_host-host [] rest i h n e f = ground (arith, e, f)
find_host-host (j ∷ before) rest i h (d, n) e f =
    ground (arith, d, find_host-host before rest i h n e f)

abbrev pub opened_pool : ℤ → ℕ → ThreadPool
opened_pool count first = record {
  threads = counting first (rounds count);
  thread_count = count;
  task_sem = 0;
  task_index = 0;
}

start_again_all :
    (sems : Semaphores) (cooks couriers : ℤ) (a b : ℕ) (p q : ThreadPool) (ts : List Thread)
    → sems.cook_id_sem ≡ suc a
    → sems.moto_id_sem ≡ suc b
    → start_again sems p q ts
      ≡ some (
        record p { threads = counting (length ts) (rounds p.thread_count) },
        record q {
          threads =
              counting
                (length (ts ++ numbered_threads cook_worker (counting 1 (rounds p.thread_count))))
                (rounds q.thread_count);
        },
        (ts ++ numbered_threads cook_worker (counting 1 (rounds p.thread_count)))
            ++ numbered_threads delivery_worker (counting 1 (rounds q.thread_count)),
      )
unfolding start_again
start_again_all sems cooks couriers a b p q ts e f =
    ap₂
      (λ v w. start_workers cook_worker v p ts >>= λ x.
        start_workers delivery_worker w q x.1 >>= λ y. some (x.0, y.0, y.1))
      e f
    ∙ ap (λ o. o >>= λ x. start_workers delivery_worker (suc b) q x.1 >>= λ y. some (x.0, y.0, y.1))
        (start_workers-numbered_threads cook_worker a p ts)
    ∙ ap
        (λ o. o >>= λ y.
          some (record p { threads = counting (length ts) (rounds p.thread_count) }, y.0, y.1))
        (start_workers-numbered_threads delivery_worker b q _)

start_pools-all_threads :
    (sems : Semaphores) (cooks couriers : ℤ) (a b : ℕ)
    → sems.cook_id_sem ≡ suc a
    → sems.moto_id_sem ≡ suc b
    → start_pools sems cooks couriers
      ≡ some (
        opened_pool cooks (rounds cooks + rounds couriers + 1),
        opened_pool couriers (rounds cooks + rounds couriers + 1 + rounds cooks),
        all_threads (rounds cooks) (rounds couriers),
      )
unfolding start_pools create_thread
start_pools-all_threads sems cooks couriers a b e f =
    let n = rounds cooks in
    let m = rounds couriers in
    let rest : ThreadPool × List Thread → ThreadPool × List Thread → Option Pools =
      λ r s. start_again sems r.0 s.0 (create_thread manager_worker null s.1).1 in
    ap (λ r. rest r (init_thread_pool delivery_worker couriers r.1))
      (init_thread_pool-pool_threads cook_worker cooks [])
    ∙ ap (rest (opened_pool cooks 0, pool_threads cook_worker n))
        (init_thread_pool-pool_threads delivery_worker couriers (pool_threads cook_worker n))
    ∙ start_again_all sems cooks couriers a b (opened_pool cooks 0)
        (opened_pool couriers (length (pool_threads cook_worker n))) (first_threads n m) e f
    ∙ ap₂ (λ k l. some (opened_pool cooks k, opened_pool couriers l, all_threads n m))
        (first_length n m) (with_cooks_length n m)

-- With four arguments, an interface `en0` with an address, semaphores that can be opened and do not stand
-- at 0 where workers take their numbers, and where the other calls succeed, `main` serves. A cook
-- and a courier of each number from 1 to the size of its pool has been started behind the manager, and
-- the pools hold the handles of these; before them each pool has started as many workers again, which
-- have the pool in place of a number, and to which no handle is left; so there are as many cooks and
-- couriers as `open_shop` says.
pub start-serving :
    (w : World) (program port cooks couriers speed : Text) (before rest : List Interface)
    (i : Interface) (ip : Text) (sems : Semaphores) (a b : ℕ)
    → w.getifaddrs ≡ some (before ++ i ∷ rest)
    → NoneEn0 before
    → is_en0 i ≡ true
    → i.host ≡ some ip
    → open_semaphores w (atoi cooks) (atoi couriers) ≡ some sems
    → sems.cook_id_sem ≡ suc a
    → sems.moto_id_sem ≡ suc b
    → w.fopen ≡ true
    → fd_is_zero w.socket ≡ false
    → w.setsockopt w.socket ≡ true
    → w.bind w.socket ip (low_bits (atoi port)) ≡ true
    → w.listen w.socket server_backlog ≡ true
    → let n = rounds (atoi cooks) in
      let m = rounds (atoi couriers) in
      (start w program (port ∷ cooks ∷ couriers ∷ speed ∷ [])
        ≡ serving (record {
          server_fd = w.socket;
          delivery_speed = atoi speed;
          log = codes "Server started\n" ∷ [];
          out = print_server_info ip (atoi port) ∷ codes "Server started\n" ∷ [];
          threads = all_threads n m;
          cook_task_pool = opened_pool (atoi cooks) (n + m + 1);
          delivery_task_pool = opened_pool (atoi couriers) (n + m + 1 + n);
        }))
      × (how_many cook_worker (all_threads n m) ≡ length (open_shop n m).cooks)
      × (how_many delivery_worker (all_threads n m) ≡ length (open_shop n m).carried)
unfolding start with_interfaces with_host with_semaphores with_pools log_activity
start-serving w program port cooks couriers speed before rest i ip sems a b ifs none_before en0 h s
      c m f k o d l =
    let (cooks_counted, couriers_counted) =
      how_many-all_threads (rounds (atoi cooks)) (rounds (atoi couriers)) in
    (
      ap (with_interfaces w (atoi port) (atoi cooks) (atoi couriers) (atoi speed)) ifs
          ∙ ap (with_host w (atoi port) (atoi cooks) (atoi couriers) (atoi speed))
              (find_host-host before rest i ip none_before en0 h)
          ∙ ap (with_semaphores w ip (atoi port) (atoi cooks) (atoi couriers) (atoi speed)) s
          ∙ rw (f, k, o, d, l)
              (ap (with_pools w ip (atoi port) (atoi speed))
                (start_pools-all_threads sems (atoi cooks) (atoi couriers) a b c m)),
      cooks_counted,
      couriers_counted,
    )
