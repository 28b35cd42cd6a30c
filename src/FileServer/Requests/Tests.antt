-- ===== src/FileServer/Requests/Tests.antt =====
-- Requests to a server with one file.
use system_programming_cse.Common.{
  ◌≤◌, ◌≡◌, refl, true, some, [], ◌∷◌, arith, length, Text, codes, is_some,
}
use system_programming_cse.Common.Strings.{pos, negsuc}
use system_programming_cse.FileServer.Command.{Command, connect, no_operation, quit, OperationType}
use system_programming_cse.FileServer.Command
use system_programming_cse.FileServer.Requests.{
  Request, success, Queues, World, open_env, handle_request, kill_client, log_message, log_request,
  serve_read, answer_read, serve, ending, admit_request, admit, is_count, join_connected,
  send_response,
}
use system_programming_cse.FileServer.Files
use system_programming_cse.FileServer.Requests.Effects.{handle_request-capacity}
use system_programming_cse.FileServer.Requests.Answers.{handle_request-Answers, Answers}

abbrev one_file : World
one_file = record { files = (codes "f", codes "ab\n") ∷ []; sent = []; killed = [] }

abbrev one_client : Queues
one_client = record { waiting_list = []; connected_list = 7 ∷ [] }

abbrev asks : OperationType → Request
asks o = record {
  client_pid = 12;
  connection_type = connect;
  operation_type = o;
  command = record { operation_type = o; filename = codes "f"; line = negsuc 0; payload = [] };
}

abbrev logged : Text → World
logged t = record {
  files = (codes "f", codes "ab\n") ∷ (codes "log.txt", t) ∷ [];
  sent = [];
  killed = [];
}

-- A client asks for a file, and quits.
reads :
    handle_request open_env (pos 1) (asks Command.read_file) (one_client, one_file)
    ≡ some (
      one_client,
      record {
        files = (logged (codes "Client 12 requested to read file f.\n")).files;
        sent = (12, record { status = success; body = codes "ab\n" }) ∷ [];
        killed = [];
      },
    )
unfolding handle_request serve serve_read answer_read log_request log_message Files.written
    send_response ending admit_request Files.read_file
reads = refl

quits :
    handle_request open_env (pos 1) (asks quit) (one_client, one_file)
    ≡ some (
      one_client,
      record { files = (logged (codes "Client 12 killed.\n")).files; sent = []; killed = 12 ∷ [] },
    )
unfolding handle_request serve kill_client log_request log_message Files.written ending
    admit_request
quits = refl

abbrev connected : World
connected = record {
  files = one_file.files;
  sent = (12, record { status = success; body = codes "Connected to server.\n" }) ∷ [];
  killed = [];
}

abbrev two_clients : Queues
two_clients = record { waiting_list = []; connected_list = 7 ∷ 12 ∷ [] }

connects :
    handle_request open_env (pos 2) (asks no_operation) (one_client, one_file)
    ≡ some (two_clients, connected)
unfolding handle_request serve admit_request admit is_count join_connected ending send_response
connects = refl

handle_request-capacity_example : length two_clients.connected_list ≤ 2
handle_request-capacity_example =
    handle_request-capacity open_env 2 (asks no_operation) one_client one_file two_clients connected
      (omega arith) connects

abbrev killed_client : World
killed_client = record {
  files = (logged (codes "Client 12 killed.\n")).files;
  sent = [];
  killed = 12 ∷ [];
}

listed : is_some (Files.list open_env.calls (open_env.entries one_file.files)) ≡ true
unfolding Files.list
listed = refl

handle_request-Answers_example :
    (w' : World) × (handle_request open_env (pos 1) (asks Command.read_file) (one_client, one_file)
      ≡ some (one_client, w'))
    × Answers 12 one_file w'
handle_request-Answers_example =
    handle_request-Answers open_env (pos 1) (asks Command.read_file) one_client one_file refl refl
      listed tt
