-- ===== src/PideShop/Main/Tests.antt =====
-- A shop with two cooks and a courier, and one that cannot be opened.
use system_programming_cse.Common.{
  ℕ, ◌+◌, ◌≡◌, refl, Bool, true, false, Option, some, none, List, [], ◌∷◌, Text, codes, length,
}
use system_programming_cse.Common.Strings.{ℤ, pos, atoi}
use system_programming_cse.PideShop.Orders.{open_shop}
use system_programming_cse.PideShop.Threads.{cook_worker, delivery_worker, rounds}
use system_programming_cse.PideShop.Main.{
  Interface, World, failed, serving, print_server_info, start, open_semaphores, fd_is_zero,
}
use system_programming_cse.PideShop.Main.Counts.{all_threads, how_many}
use system_programming_cse.PideShop.Main.Opening.{opened_pool, start-serving}

abbrev is_some : Option ℕ → Bool
is_some none = false
is_some (some n) = true

abbrev count_of : ℤ → ℕ
count_of (pos n) = n
count_of _ = 0

abbrev lo : Interface
lo = record {
  name = codes "lo0";
  has_address = true;
  is_inet = true;
  host = some (codes "127.0.0.1");
}

abbrev en0 : Interface
en0 = record {
  name = codes "en0";
  has_address = true;
  is_inet = true;
  host = some (codes "10.0.0.7");
}

-- A descriptor that is one is good for the calls behind `socket`, and -1 is not.
abbrev world : List Interface → Option ℕ → World
world interfaces fd = record {
  getifaddrs = some interfaces;
  sem_open = λ name value. some (count_of value);
  fopen = true;
  socket = fd;
  setsockopt = is_some;
  bind = λ d ip port. is_some d;
  listen = λ d backlog. is_some d;
}

abbrev arguments : List Text
arguments = codes "8080" ∷ codes "2" ∷ codes "1" ∷ codes "30" ∷ []

no_en0 :
    start (world (lo ∷ []) (some 3)) (codes "server") arguments
    ≡ failed (codes "Failed to get IP address of en0 interface\n")
unfolding start
no_en0 = refl

-- The test for 0 behind `socket` lets -1 pass.
no_socket : start (world (en0 ∷ []) none) (codes "server") arguments ≡ failed (codes "setsockopt")
unfolding start
no_socket = refl

start-serving_example :
    (start (world (lo ∷ en0 ∷ []) (some 3)) (codes "server") arguments
      ≡ serving (record {
        server_fd = some 3;
        delivery_speed = atoi (codes "30");
        log = codes "Server started\n" ∷ [];
        out =
            print_server_info (codes "10.0.0.7") (atoi (codes "8080"))
            ∷ codes "Server started\n"
            ∷ [];
        threads = all_threads (rounds (atoi (codes "2"))) (rounds (atoi (codes "1")));
        cook_task_pool =
            opened_pool
              (atoi (codes "2"))
              (rounds (atoi (codes "2")) + rounds (atoi (codes "1")) + 1);
        delivery_task_pool =
            opened_pool (atoi (codes "1")) (
              rounds (atoi (codes "2"))
              + rounds (atoi (codes "1"))
              + 1
              + rounds (atoi (codes "2")));
      }))
    × (how_many cook_worker (all_threads (rounds (atoi (codes "2"))) (rounds (atoi (codes "1"))))
        ≡ length (open_shop (rounds (atoi (codes "2"))) (rounds (atoi (codes "1")))).cooks)
    × (how_many delivery_worker
          (all_threads (rounds (atoi (codes "2"))) (rounds (atoi (codes "1"))))
        ≡ length (open_shop (rounds (atoi (codes "2"))) (rounds (atoi (codes "1")))).carried)
unfolding atoi open_semaphores fd_is_zero
start-serving_example =
    start-serving (world (lo ∷ en0 ∷ []) (some 3)) (codes "server") (codes "8080") (codes "2")
      (codes "1") (codes "30") (lo ∷ []) [] en0 (codes "10.0.0.7") _ 1 0 refl (refl, tt) refl refl
      refl refl refl refl refl refl refl refl
