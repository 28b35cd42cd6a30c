-- ===== src/FileServer/Main/Processes.antt =====
-- How many processes of the server there are, and what their queues hold.
use system_programming_cse.Common.{
  ℕ, ◌≡◌, refl, ap, subst, Bool, true, false, Bool-cases, inl, inr, List, [], ◌∷◌, ◌++◌, arith,
  length, length-append,
}
use system_programming_cse.Common.Strings.{ℤ}
use system_programming_cse.FileServer.Command.{OperationType, no_operation, kill_server}
use system_programming_cse.FileServer.Requests.{Request, Queues, World, Env, join_waiting}
use system_programming_cse.FileServer.Main.{
  Server, serving, ended, reassign, loop_top, exit_process, child_connects, receive, step, run,
  start,
}

-- No process has a connected client, and the waiting list of each is that of its parent with one
-- client more.
abbrev pub Nested : Queues → List Queues → Type 0
Nested q [] = (q.waiting_list ≡ []) × (q.connected_list ≡ [])
Nested q (p ∷ ps) =
    ((pid : ℕ) × (q.waiting_list ≡ p.waiting_list ++ pid ∷ []))
    × (q.connected_list ≡ [])
    × Nested p ps

abbrev pub IsNested : Server → Type 0
IsNested (serving q qs fifo w) = Nested q qs
IsNested (ended fifo w) = Unit {0}

Nested-connected : (q : Queues) (qs : List Queues) → Nested q qs → q.connected_list ≡ []
Nested-connected q [] (_, h) = h
Nested-connected q (p ∷ ps) (_, h, _) = h

Nested-length : (q : Queues) (qs : List Queues) → Nested q qs → length q.waiting_list ≡ length qs
Nested-length q [] (h, _) = ap length h
Nested-length q (p ∷ ps) ((pid, h), _, n) =
    omega (arith, ap length h, length-append p.waiting_list (pid ∷ []), Nested-length p ps n)

reassign_none :
    (waiting connected : List ℕ)
    → connected ≡ []
    → reassign waiting connected ≡ record { waiting_list = waiting; connected_list = connected }
unfolding reassign
reassign_none [] connected h = refl
reassign_none (pid ∷ waiting) [] h = refl
reassign_none (pid ∷ waiting) (c ∷ connected) h = cc

-- Without connected clients the start of an iteration changes nothing.
pub loop_top_none : (q : Queues) → q.connected_list ≡ [] → loop_top q ≡ q
unfolding loop_top
loop_top_none q h = reassign_none q.waiting_list q.connected_list h

loop_top-Nested : (q : Queues) (qs : List Queues) → Nested q qs → Nested (loop_top q) qs
loop_top-Nested q qs n = rw (loop_top_none q (Nested-connected q qs n)) n

exit_process-IsNested :
    (q : Queues) (qs : List Queues) (fifo : Bool) (w : World)
    → Nested q qs
    → IsNested (exit_process qs fifo w)
unfolding exit_process
exit_process-IsNested q [] fifo w n = tt
exit_process-IsNested q (p ∷ ps) fifo w (_, _, n) = loop_top-Nested p ps n

child_connects-IsNested :
    (env : Env) (pid : ℕ) (q : Queues) (qs : List Queues) (fifo : Bool) (w : World)
    → Nested q qs
    → IsNested (child_connects env pid q qs fifo w)
unfolding child_connects join_waiting
child_connects-IsNested env pid q qs fifo w n = elim (Bool-cases env.fifo_opens) [
  | inl e ↦
      rw (e, child_connects)
        (loop_top-Nested (join_waiting pid q) (q ∷ qs) ((pid, refl), Nested-connected q qs n, n))
  | inr e ↦ rw (e, child_connects) (loop_top-Nested q qs n)
]

receive-IsNested :
    (env : Env) (forks : Bool) (max_clients : ℤ) (o : OperationType) (r : Request) (q : Queues)
    (qs : List Queues) (fifo : Bool) (w : World)
    → Nested q qs
    → IsNested (receive env forks max_clients o r q qs fifo w)
unfolding receive
receive-IsNested env forks max_clients kill_server r q qs fifo w n =
    exit_process-IsNested q qs false w n
receive-IsNested env false max_clients _ r q qs fifo w n = exit_process-IsNested q qs fifo w n
receive-IsNested env true max_clients no_operation r q qs fifo w n =
    child_connects-IsNested env r.client_pid q qs fifo w n
receive-IsNested env true max_clients _ r q qs fifo w n = loop_top-Nested q qs n

run-IsNested :
    (max_clients : ℤ) (rs : List (Env × Bool × Request)) (s : Server)
    → IsNested s
    → IsNested (run max_clients rs s)
unfolding run step
run-IsNested max_clients [] s n = n
run-IsNested max_clients ((env, forks, r) ∷ rs) (ended fifo w) n =
    run-IsNested max_clients rs (ended fifo w) tt
run-IsNested max_clients ((env, forks, r) ∷ rs) (serving q qs fifo w) n =
    run-IsNested max_clients rs (receive env forks max_clients r.operation_type r q qs fifo w)
      (receive-IsNested env forks max_clients r.operation_type r q qs fifo w n)

-- Whatever requests come and whatever the system does, the process that reads has no connected
-- client, and it has as many waiting clients as there are parents that wait for it.
pub run-start :
    (max_clients : ℤ) (rs : List (Env × Bool × Request)) (v : World) (q : Queues) (qs : List Queues)
    (fifo : Bool) (w : World)
    → run max_clients rs (start v) ≡ serving q qs fifo w
    → (q.connected_list ≡ []) × (length q.waiting_list ≡ length qs)
unfolding start
run-start max_clients rs v q qs fifo w e =
    let n = subst IsNested e (run-IsNested max_clients rs (start v) (refl, refl)) in
    (Nested-connected q qs n, Nested-length q qs n)
