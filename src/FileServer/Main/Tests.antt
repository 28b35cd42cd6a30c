-- ===== src/FileServer/Main/Tests.antt =====
-- A server, two clients that connect, and killServer.
use system_programming_cse.Common.{ℕ, ◌≡◌, refl, Bool, true, List, [], ◌∷◌, map, length}
use system_programming_cse.Common.Strings.{pos}
use system_programming_cse.FileServer.Requests.{
  World, Queues, Env, Request, open_env, send_response, join_waiting,
}
use system_programming_cse.FileServer.Main.{
  serving, run, start, step, receive, child_connects, loop_top, reassign, empty_queues,
}
use system_programming_cse.FileServer.Main.Processes.{run-start}
use system_programming_cse.FileServer.Main.Killing.{connecting, all_with, greeted}

abbrev empty_world : World
empty_world = record { files = []; sent = []; killed = [] }

abbrev two : List ℕ
two = 5 ∷ 6 ∷ []

abbrev requests : List (Env × Bool × Request)
requests = all_with open_env (map connecting two)

abbrev with_waiting : List ℕ → Queues
with_waiting pids = record { waiting_list = pids; connected_list = [] }

abbrev after_two : World
after_two = record { files = []; sent = greeted two []; killed = [] }

two_connect :
    run (pos 1) requests (start empty_world)
    ≡ serving (with_waiting two) (with_waiting (5 ∷ []) ∷ empty_queues ∷ []) true after_two
unfolding run start step receive child_connects loop_top reassign join_waiting send_response
two_connect = refl

run-start_example :
    ((with_waiting two).connected_list ≡ []) × (length (with_waiting two).waiting_list ≡ 2)
run-start_example =
    run-start (pos 1) requests empty_world (with_waiting two)
      (with_waiting (5 ∷ []) ∷ empty_queues ∷ []) true after_two two_connect
