-- ===== src/FileServer/Client/Tests.antt =====
-- A client that types list and killServer to a server with two clients.
use system_programming_cse.Common.{
  ◌≡◌, refl, true, none, List, [], ◌∷◌, ◌++◌, map, arith, Text, codes,
}
use system_programming_cse.Common.Strings.{strtok, negsuc, pos}
use system_programming_cse.FileServer.Command.{
  connect, OperationType, Command, list_files, kill_server, parse_command,
}
use system_programming_cse.FileServer.Requests.{success, World, open_env}
use system_programming_cse.FileServer.Main.{run, start}
use system_programming_cse.FileServer.Main.Killing.{all_with, processes, connecting}
use system_programming_cse.FileServer.Client.{Client, Round, got, closed, loop}
use system_programming_cse.FileServer.Client.Rounds.{request_of}
use system_programming_cse.FileServer.Client.Session.{Line, AreTyped, sent_after}
use system_programming_cse.FileServer.Client.Shutdown.{loop-processes}

abbrev answered : Text → Round
answered body = record {
  cwd = none;
  writes_first = true;
  writes = true;
  reply = got (record { status = success; body = body });
}

abbrev without_argument : OperationType → Command
without_argument o = record { operation_type = o; filename = []; line = negsuc 0; payload = [] }

abbrev two_lines : List Line
two_lines =
    (answered (codes "a.txt\n"), codes "list", without_argument list_files)
    ∷ (record (answered []) { reply = closed }, codes "killServer", without_argument kill_server)
    ∷ []

abbrev typing : Client
typing = record {
  pid = 5;
  connection_type = connect;
  stdin = codes "list\nkillServer\nhelp\n";
  message = [];
  response = record { status = success; body = codes "Connecteeeeeed.\n" };
  sent = [];
  output = [];
  errors = [];
}

two_lines-AreTyped : AreTyped two_lines
unfolding strtok parse_command
two_lines-AreTyped = (
  (ground arith, omega arith, refl, refl, refl, tt),
  ((ground arith, omega arith, refl, refl, refl, tt), tt),
)

abbrev empty_world : World
empty_world = record { files = []; sent = []; killed = [] }

loop-processes_example :
    processes (
      run
        (pos 2)
        (all_with open_env (map connecting (5 ∷ 6 ∷ []))
          ++ all_with open_env (sent_after (loop (map (λ l. l.0) two_lines) typing)))
        (start empty_world))
    ≡ 1
loop-processes_example =
    loop-processes open_env (pos 2) (5 ∷ 6 ∷ []) empty_world two_lines (codes "help\n") typing refl
      refl two_lines-AreTyped refl refl

-- At the end of the input the last operation is sent again.
list_again :
    sent_after
      (loop (answered [] ∷ answered [] ∷ []) (record typing { stdin = codes "list all\n" }))
    ≡ request_of typing (without_argument list_files)
      ∷ request_of typing (without_argument list_files)
      ∷ []
unfolding loop strtok parse_command
list_again = refl
