-- ===== src/FileServer/Main/Counting.antt =====
-- The processes that are left after any requests of connected clients.
use system_programming_cse.Common.{
  ℕ, suc, ◌+◌, ◌-◌, ◌≡◌, ◌≢◌, refl, Bool, true, List, [], ◌∷◌, arith, length, if◌then◌else◌,
}
use system_programming_cse.Common.Strings.{ℤ}
use system_programming_cse.FileServer.Command.{OperationType, is_kill, no_operation, kill_server}
use system_programming_cse.FileServer.Requests.{Request, Queues, World, Env}
use system_programming_cse.FileServer.Main.{
  Server, serving, ended, exit_process, receive, step, run,
}
use system_programming_cse.FileServer.Main.Killing.{all_with, processes}

abbrev ends : OperationType → ℕ
ends o = if is_kill o then 1 else 0

-- The requests for killServer.
abbrev pub kill_requests : List Request → ℕ
kill_requests [] = 0
kill_requests (r ∷ rs) = ends r.operation_type + kill_requests rs

abbrev pub NoneConnects : List Request → Type 0
NoneConnects [] = Unit {0}
NoneConnects (r ∷ rs) = (r.operation_type ≢ no_operation) × NoneConnects rs

receive-processes :
    (env : Env) (max_clients : ℤ) (o : OperationType) (r : Request) (q : Queues) (qs : List Queues)
    (fifo : Bool) (w : World)
    → o ≢ no_operation
    → processes (receive env true max_clients o r q qs fifo w) ≡ suc (length qs) - ends o
unfolding receive exit_process
receive-processes env max_clients no_operation r q qs fifo w connects = absurd (connects refl)
receive-processes env max_clients kill_server r q [] fifo w connects = refl
receive-processes env max_clients kill_server r q (p ∷ ps) fifo w connects = omega arith
receive-processes env max_clients o r q qs fifo w connects = omega arith

step-processes :
    (env : Env) (max_clients : ℤ) (r : Request) (s : Server)
    → r.operation_type ≢ no_operation
    → processes (step env true max_clients r s) ≡ processes s - ends r.operation_type
unfolding step
step-processes env max_clients r (ended fifo w) connects = omega arith
step-processes env max_clients r (serving q qs fifo w) connects =
    receive-processes env max_clients r.operation_type r q qs fifo w connects

-- Each killServer ends a process, and no other request does.
pub run-processes :
    (env : Env) (max_clients : ℤ) (rs : List Request) (s : Server)
    → NoneConnects rs
    → processes (run max_clients (all_with env rs) s) ≡ processes s - kill_requests rs
unfolding run
run-processes env max_clients [] s h = omega arith
run-processes env max_clients (r ∷ rs) s (connects, more) =
    let one = step-processes env max_clients r s connects in
    let rest = run-processes env max_clients rs (step env true max_clients r s) more in
    omega (arith, one, rest)
