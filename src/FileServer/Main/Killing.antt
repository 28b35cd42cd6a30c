-- ===== src/FileServer/Main/Killing.antt =====
-- Connections make processes, and killServer ends one of them.
use system_programming_cse.Common.{
  ℕ, suc, ◌+◌, ◌-◌, ◌≡◌, refl, ◌∙◌, ap, Bool, true, List, [], ◌∷◌, ◌++◌, arith, length, codes, map,
}
use system_programming_cse.Common.Strings.{ℤ, pos}
use system_programming_cse.FileServer.Command.{
  Command, OperationType, connect, no_operation, kill_server,
}
use system_programming_cse.FileServer.Requests.{
  Request, Response, success, Queues, World, Env, send_response, join_waiting,
}
use system_programming_cse.FileServer.Main.{
  Server, serving, ended, loop_top, exit_process, child_connects, receive, step, run, start,
}
use system_programming_cse.FileServer.Main.Processes.{loop_top_none}

abbrev pub blank_command : OperationType → Command
blank_command o = record { operation_type = o; filename = []; line = pos 0; payload = [] }

-- What a client sends first.
abbrev pub connecting : ℕ → Request
connecting pid = record {
  client_pid = pid;
  connection_type = connect;
  operation_type = no_operation;
  command = blank_command no_operation;
}

abbrev pub killing : ℕ → Request
killing pid = record {
  client_pid = pid;
  connection_type = connect;
  operation_type = kill_server;
  command = blank_command kill_server;
}

-- Requests for which the system does the same and `fork` succeeds.
abbrev pub all_with : Env → List Request → List (Env × Bool × Request)
all_with env [] = []
all_with env (r ∷ rs) = (env, true, r) ∷ all_with env rs

abbrev pub greeting : ℕ → ℕ × Response
greeting pid = (pid, record { status = success; body = codes "Connecteeeeeed.\n" })

abbrev pub greeted : List ℕ → List (ℕ × Response) → List (ℕ × Response)
greeted [] sent = sent
greeted (pid ∷ pids) sent = greeted pids (greeting pid ∷ sent)

abbrev pub processes : Server → ℕ
processes (serving q qs fifo w) = suc (length qs)
processes (ended fifo w) = 0

abbrev pub sent_by : Server → List (ℕ × Response)
sent_by (serving q qs fifo w) = w.sent
sent_by (ended fifo w) = w.sent

abbrev pub Reads : Server → Type 0
Reads (serving q qs fifo w) = q.connected_list ≡ []
Reads (ended fifo w) = ⊥

step-connecting :
    (env : Env) (max_clients : ℤ) (pid : ℕ) (s : Server)
    → env.fifo_opens ≡ true
    → env.answers ≡ true
    → Reads s
    → (processes (step env true max_clients (connecting pid) s) ≡ suc (processes s))
      × (sent_by (step env true max_clients (connecting pid) s) ≡ greeting pid ∷ sent_by s)
      × Reads (step env true max_clients (connecting pid) s)
unfolding step receive child_connects send_response loop_top join_waiting
step-connecting env max_clients pid (ended fifo w) opens answers h = absurd h
step-connecting env max_clients pid (serving q qs fifo w) opens answers h =
    let top = loop_top_none (join_waiting pid q) h in
    rw (opens, answers, child_connects, send_response)
      (refl, refl, ap (λ (u : Queues). u.connected_list) top ∙ h)

run-connecting :
    (env : Env) (max_clients : ℤ) (pids : List ℕ) (s : Server)
    → env.fifo_opens ≡ true
    → env.answers ≡ true
    → Reads s
    → (processes (run max_clients (all_with env (map connecting pids)) s)
        ≡ length pids + processes s)
      × (sent_by (run max_clients (all_with env (map connecting pids)) s)
          ≡ greeted pids (sent_by s))
unfolding run
run-connecting env max_clients [] s opens answers h = (omega arith, refl)
run-connecting env max_clients (pid ∷ pids) s opens answers h =
    let (one, sent, reads) = step-connecting env max_clients pid s opens answers h in
    let (rest, said) =
      run-connecting env max_clients pids (step env true max_clients (connecting pid) s) opens
        answers reads in
    (omega (arith, one, rest), said ∙ ap (greeted pids) sent)

-- However many clients connect to the server that has started, and whatever the limit is, all are told
-- that they are connected, and there is a process of the server for each of them besides the first.
pub start-greeted :
    (env : Env) (max_clients : ℤ) (pids : List ℕ) (w : World)
    → env.fifo_opens ≡ true
    → env.answers ≡ true
    → (processes (run max_clients (all_with env (map connecting pids)) (start w)) ≡ length pids + 1)
      × (sent_by (run max_clients (all_with env (map connecting pids)) (start w))
          ≡ greeted pids w.sent)
unfolding start
start-greeted env max_clients pids w opens answers =
    run-connecting env max_clients pids (start w) opens answers refl

step-killing :
    (env : Env) (forks : Bool) (max_clients : ℤ) (pid : ℕ) (s : Server)
    → processes (step env forks max_clients (killing pid) s) ≡ processes s - 1
unfolding step receive exit_process
step-killing env forks max_clients pid (ended fifo w) = omega arith
step-killing env forks max_clients pid (serving q [] fifo w) = omega arith
step-killing env forks max_clients pid (serving q (p ∷ ps) fifo w) = omega arith

run-killing :
    (env : Env) (max_clients : ℤ) (pids : List ℕ) (s : Server)
    → processes (run max_clients (all_with env (map killing pids)) s) ≡ processes s - length pids
unfolding run
run-killing env max_clients [] s = omega arith
run-killing env max_clients (pid ∷ pids) s = omega (
  arith,
  step-killing env true max_clients pid s,
  run-killing env max_clients pids (step env true max_clients (killing pid) s),
)

pub run-append :
    (max_clients : ℤ) (rs ts : List (Env × Bool × Request)) (s : Server)
    → run max_clients (rs ++ ts) s ≡ run max_clients ts (run max_clients rs s)
unfolding run
run-append max_clients [] ts s = refl
run-append max_clients ((env, forks, r) ∷ rs) ts s =
    run-append max_clients rs ts (step env forks max_clients r s)

-- After some clients have connected, each killServer ends one process of the server: the server stops
-- only when one more has been sent than clients have connected.
pub run_killed :
    (env : Env) (max_clients : ℤ) (pids killers : List ℕ) (w : World)
    → env.fifo_opens ≡ true
    → env.answers ≡ true
    → processes (
        run max_clients
          (all_with env (map connecting pids) ++ all_with env (map killing killers))
          (start w))
      ≡ length pids + 1 - length killers
run_killed env max_clients pids killers w opens answers =
    let connected = all_with env (map connecting pids) in
    let killed = all_with env (map killing killers) in
    ap processes (run-append max_clients connected killed (start w))
    ∙ run-killing env max_clients killers (run max_clients connected (start w))
    ∙ ap (λ n. n - length killers) (start-greeted env max_clients pids w opens answers).0
