-- ===== src/FileServer/Main.antt =====
-- Midterm/server.c: the loop of `main`, with the processes that it forks.
pub mod Processes
pub mod Killing
pub mod Counting
mod Tests
use system_programming_cse.Common.{
  ℕ, Bool, true, false, Option, none, some, List, [], ◌∷◌, ◌++◌, if◌then◌else◌, Text, codes,
}
use system_programming_cse.Common.Strings.{ℤ}
use system_programming_cse.FileServer.Command.{OperationType, no_operation, kill_server}
use system_programming_cse.FileServer.Requests.{
  Request, success, Queues, World, Env, send_response, join_waiting, handle_request,
}

-- `reading` is the process that reads the server's FIFO, `blocked` are its parents in `waitpid`, the
-- nearest one first. Every process has its own queues. `fifo` says whether the server's FIFO still
-- has its name.
pub data Server : Type 0 where
  serving : (reading : Queues) (blocked : List Queues) (fifo : Bool) (w : World) → Server
  ended : (fifo : Bool) (w : World) → Server

-- A waiting client takes the place of the first connected one. The response goes to descriptor 0,
-- which is no client's FIFO.
reassign : List ℕ → List ℕ → Queues
reassign [] connected = record { waiting_list = []; connected_list = connected }
reassign (pid ∷ waiting) [] = record { waiting_list = pid ∷ waiting; connected_list = [] }
reassign (pid ∷ waiting) (first ∷ connected) = record {
  waiting_list = waiting;
  connected_list = connected ++ pid ∷ [];
}

-- The start of an iteration.
pub loop_top : Queues → Queues
unfolding reassign
loop_top q = reassign q.waiting_list q.connected_list

-- The reading process exits, and its parent goes on.
exit_process : List Queues → Bool → World → Server
unfolding loop_top
exit_process [] fifo w = ended fifo w
exit_process (q ∷ qs) fifo w = serving (loop_top q) qs fifo w

-- A child without an operation puts the client into its own waiting list, answers and goes on in the
-- loop itself, while its parent waits for it.
child_connects : Env → ℕ → Queues → List Queues → Bool → World → Server
unfolding loop_top join_waiting send_response
child_connects env pid q qs fifo w =
    if env.fifo_opens
    then serving (loop_top (join_waiting pid q)) (q ∷ qs) fifo
        (send_response env success (codes "Connecteeeeeed.\n") pid w)
    else serving (loop_top q) qs fifo w

-- What the parent goes on with when a child has ended.
after_child : Option (Queues × World) → World → World
after_child none w = w
after_child (some (_, v)) w = v

-- A request that the reading process takes from the FIFO. `forks` says whether `fork` succeeds.
receive : Env → Bool → ℤ → OperationType → Request → Queues → List Queues → Bool → World → Server
unfolding exit_process child_connects handle_request after_child loop_top
receive env forks max_clients kill_server r q qs fifo w = exit_process qs false w
receive env false max_clients o r q qs fifo w = exit_process qs fifo w
receive env true max_clients no_operation r q qs fifo w =
    child_connects env r.client_pid q qs fifo w
receive env true max_clients o r q qs fifo w =
    serving (loop_top q) qs fifo (after_child (handle_request env max_clients r (q, w)) w)

pub step : Env → Bool → ℤ → Request → Server → Server
unfolding receive
step env forks max_clients r (ended fifo w) = ended fifo w
step env forks max_clients r (serving q qs fifo w) =
    receive env forks max_clients r.operation_type r q qs fifo w

-- Requests in the order in which they are read, each with what the system does for it.
pub run : ℤ → List (Env × Bool × Request) → Server → Server
unfolding step
run max_clients [] s = s
run max_clients ((env, forks, r) ∷ rs) s = run max_clients rs (step env forks max_clients r s)

abbrev pub empty_queues : Queues
empty_queues = record { waiting_list = []; connected_list = [] }

-- The server before its first request.
pub start : World → Server
start w = serving empty_queues [] true w
