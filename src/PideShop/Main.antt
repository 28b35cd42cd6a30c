-- ===== src/PideShop/Main.antt =====
-- `main` of Final/server.c, up to its loop over the connections, and the handler of SIGINT. What `perror`
-- adds to a message is left out.
pub mod Counts
pub mod Opening
pub mod Connections
mod Tests
use system_programming_cse.Common.{
  ℕ, zero, suc, ◌-◌, ◌%◌, ◌^◌, Bool, true, false, Option, none, some, List, [], ◌∷◌, ◌++◌, ◌&&◌,
  not, if◌then◌else◌, Text, codes, text_eq, take,
}
use system_programming_cse.Common.Numerals.{signed_decimal}
use system_programming_cse.Common.Options.{◌>>=◌}
use system_programming_cse.Common.Strings.{ℤ, pos, negsuc, atoi, decimal}
use system_programming_cse.PideShop.Threads.{
  Routine, cook_worker, delivery_worker, manager_worker, client_handler, null, socket, Thread,
  rounds, ThreadPool, create_thread, init_thread_pool, start_workers,
}

-- An entry of the list of `getifaddrs`; `host` is what `getnameinfo` gives, or nothing where it fails.
pub record Interface : Type 0 where
  pub name : Text
  pub has_address : Bool
  pub is_inet : Bool
  pub host : Option Text

-- What the calls of `main` find. `sem_open` gives the value of the semaphore with the name, which it has
-- created with the given one if there was none, and `socket` the descriptor, where `none` is -1; the calls
-- behind it get the descriptor, the address and the port.
pub record World : Type 0 where
  pub getifaddrs : Option (List Interface)
  pub sem_open : Text → ℤ → Option ℕ
  pub fopen : Bool
  pub socket : Option ℕ
  pub setsockopt : Option ℕ → Bool
  pub bind : Option ℕ → Text → ℕ → Bool
  pub listen : Option ℕ → ℕ → Bool

-- The server that takes connections: its sockets, what it has logged and printed, and its threads.
pub record OpenServer : Type 0 where
  pub server_fd : Option ℕ
  pub delivery_speed : ℤ
  pub log : List Text
  pub out : List Text
  pub threads : List Thread
  pub cook_task_pool : ThreadPool
  pub delivery_task_pool : ThreadPool

pub data Start : Type 0 where
  -- the message with which `main` exits with EXIT_FAILURE
  failed : Text → Start
  -- `main` waits for ever in a semaphore
  stuck : Start
  serving : OpenServer → Start

-- What the loop over the interfaces comes to.
pub data FoundHost : Type 0 where
  no_host unresolved : FoundHost
  host : Text → FoundHost

resolved : Option Text → FoundHost
resolved none = unresolved
resolved (some h) = host h

pub find_host : List Interface → FoundHost
unfolding resolved
find_host [] = no_host
find_host (i ∷ is) =
    let rest = find_host is in
    if i.has_address && (i.is_inet && text_eq i.name (codes "en0")) then resolved i.host else rest

-- `htons` takes the low 16 bits of the port.
pub low_bits : ℤ → ℕ
low_bits (pos n) = n % 2 ^ 16
low_bits (negsuc n) = 2 ^ 16 - 1 - n % 2 ^ 16

abbrev server_backlog : ℕ
server_backlog = 200

pub fd_is_zero : Option ℕ → Bool
fd_is_zero (some zero) = true
fd_is_zero _ = false

-- The values of the five semaphores, if all could be opened.
pub record Semaphores : Type 0 where
  pub oven_sem : ℕ
  pub oven_capacity_sem : ℕ
  pub delivery_sem : ℕ
  pub cook_id_sem : ℕ
  pub moto_id_sem : ℕ

gather : Option ℕ → Option ℕ → Option ℕ → Option ℕ → Option ℕ → Option Semaphores
gather (some a) (some b) (some c) (some d) (some e) = some (record {
  oven_sem = a;
  oven_capacity_sem = b;
  delivery_sem = c;
  cook_id_sem = d;
  moto_id_sem = e;
})
gather _ _ _ _ _ = none

pub open_semaphores : World → ℤ → ℤ → Option Semaphores
unfolding gather
open_semaphores w cooks couriers =
    gather (w.sem_open (codes "/oven_sem") (pos 3))
      (w.sem_open (codes "/oven_capacity_sem") (pos 6)) (w.sem_open (codes "/delivery_sem") (pos 3))
      (w.sem_open (codes "/cook_id_sem") cooks) (w.sem_open (codes "/moto_id_sem") couriers)

pub print_server_info : Text → ℤ → Text
print_server_info ip_address port =
    codes "Server started on IP "
    ++ ip_address
    ++ codes " and port "
    ++ signed_decimal port
    ++ codes "\n"

-- A line into the log, and the same one to the console.
log_activity : Text → OpenServer → OpenServer
log_activity activity r = record r {
  log = r.log ++ (activity ++ codes "\n") ∷ [];
  out = r.out ++ (activity ++ codes "\n") ∷ [];
}

-- The pools of `main` with its workers, and all threads.
abbrev Pools : Type 0
Pools = ThreadPool × ThreadPool × List Thread

-- The workers that `main` starts once more.
start_again : Semaphores → ThreadPool → ThreadPool → List Thread → Option Pools
unfolding start_workers
start_again sems cook_pool delivery_pool ts = do
  (cook_task_pool, us) ← start_workers cook_worker sems.cook_id_sem cook_pool ts
  (delivery_task_pool, all) ← start_workers delivery_worker sems.moto_id_sem delivery_pool us
  some (cook_task_pool, delivery_task_pool, all)

-- Both pools, the manager, and the workers again.
start_pools : Semaphores → ℤ → ℤ → Option Pools
unfolding create_thread init_thread_pool start_again
start_pools sems cooks couriers =
    let (cook_pool, ts) = init_thread_pool cook_worker cooks [] in
    let (delivery_pool, us) = init_thread_pool delivery_worker couriers ts in
    let (manager, vs) = create_thread manager_worker null us in
    start_again sems cook_pool delivery_pool vs

with_pools : World → Text → ℤ → ℤ → Option Pools → Start
unfolding log_activity print_server_info
with_pools w ip port speed none = stuck
with_pools w ip port speed (some (cook_task_pool, delivery_task_pool, threads)) = serving (
    log_activity (codes "Server started") (record {
      server_fd = w.socket;
      delivery_speed = speed;
      log = [];
      out = print_server_info ip port ∷ [];
      threads = threads;
      cook_task_pool = cook_task_pool;
      delivery_task_pool = delivery_task_pool;
    }))

-- The log, the socket and its calls, one behind the other.
with_semaphores : World → Text → ℤ → ℤ → ℤ → ℤ → Option Semaphores → Start
unfolding with_pools start_pools fd_is_zero low_bits
with_semaphores w ip port cooks couriers speed none = failed (codes "sem_open")
with_semaphores w ip port cooks couriers speed (some sems) =
    if not w.fopen
    then failed (codes "fopen")
    else if fd_is_zero w.socket
    then failed (codes "socket failed")
    else if not (w.setsockopt w.socket)
    then failed (codes "setsockopt")
    else if not (w.bind w.socket ip (low_bits port))
    then failed (codes "bind failed")
    else if not (w.listen w.socket server_backlog)
    then failed (codes "listen")
    else with_pools w ip port speed (start_pools sems cooks couriers)

with_host : World → ℤ → ℤ → ℤ → ℤ → FoundHost → Start
unfolding with_semaphores open_semaphores
with_host w port cooks couriers speed no_host =
    failed (codes "Failed to get IP address of en0 interface\n")
with_host w port cooks couriers speed unresolved = failed (codes "getnameinfo() failed: ")
with_host w port cooks couriers speed (host ip) =
    with_semaphores w ip port cooks couriers speed (open_semaphores w cooks couriers)

with_interfaces : World → ℤ → ℤ → ℤ → ℤ → Option (List Interface) → Start
unfolding with_host find_host
with_interfaces w port cooks couriers speed none = failed (codes "getifaddrs")
with_interfaces w port cooks couriers speed (some is) =
    with_host w port cooks couriers speed (find_host is)

usage : Text → Text
usage program =
    codes "Usage: "
    ++ program
    ++ codes " <port> <cook_thread_pool_size> <delivery_thread_pool_size> <speed_m_per_min>\n"

-- The name of the program and the arguments behind it.
pub start : World → Text → List Text → Start
unfolding with_interfaces usage atoi
start w program (port ∷ cooks ∷ couriers ∷ speed ∷ []) =
    with_interfaces w (atoi port) (atoi cooks) (atoi couriers) (atoi speed) w.getifaddrs
start w program _ = failed (usage program)

-- The loop of `main` over what `accept` gives: a thread for each connection, until a call fails, which
-- ends the program.
pub accept_loop : List (Option ℕ) → OpenServer → OpenServer × Bool
unfolding log_activity create_thread
accept_loop [] r = (r, false)
accept_loop (none ∷ fds) r = (r, true)
accept_loop (some new_socket ∷ fds) r =
    let (_, threads) = create_thread client_handler (socket new_socket) r.threads in
    accept_loop fds
      (record (log_activity (codes "Accepted new client connection") r) { threads = threads })

-- What the handler of SIGINT cancels, prints and unlinks before it ends the program.
pub signal_handler : OpenServer → List ℕ × Text × List Text
signal_handler r = (
  take (rounds r.cook_task_pool.thread_count) r.cook_task_pool.threads
      ++ take (rounds r.delivery_task_pool.thread_count) r.delivery_task_pool.threads,
  codes "Server is quitting...\n",
  codes "/oven_sem"
      ∷ codes "/oven_capacity_sem"
      ∷ codes "/delivery_sem"
      ∷ codes "/cook_id_sem"
      ∷ codes "/moto_id_sem"
      ∷ [],
)
