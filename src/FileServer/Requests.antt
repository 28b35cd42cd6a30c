-- ===== src/FileServer/Requests.antt =====
-- Midterm/server.c and Midterm/concurrent_file_access_system.h: what a child of the server does with
-- one request.
mod Responses
pub mod Effects
pub mod Answers
mod Tests
use system_programming_cse.Common.{
  ℕ, zero, suc, ◌+◌, ◌*◌, ◌/◌, ◌%◌, ◌≡◌, ◌==◌, not, Bool, true, false, Option, none, some, List, [],
  ◌∷◌, ◌++◌, map, if◌then◌else◌, ltb, Text, codes, text_eq, length, take,
}
use system_programming_cse.Common.Strings.{ℤ, pos, negsuc}
use system_programming_cse.FileServer.Command.{
  ConnectionType, connect, try_connect, OperationType, Command, no_operation, list_files,
  write_file, upload, download, kill_server, quit, invalid_operation,
}
use system_programming_cse.FileServer.Command
use system_programming_cse.FileServer.Command.Help.{help_available_operations, help_for_operation}
use system_programming_cse.FileServer.Files.{
  Files, Calls, Child, store, content_of, written, read_file, write_to_file, upload_file,
  download_file, list,
}
use system_programming_cse.FileServer.Files
pub use Responses.{Request, Status, success, failure, wait, Response, Queues, World, Env, open_env}
unfoldable pub use Responses.{
  send_response, log_message, log_request, with_files, kill_client, respond,
}

is_count : ℕ → ℤ → Bool
is_count n (pos m) = n == m
is_count n (negsuc m) = false

-- `enqueue` into the waiting list; memory for the node is granted.
unfoldable pub join_waiting : ℕ → Queues → Queues
join_waiting pid q = record {
  waiting_list = q.waiting_list ++ pid ∷ [];
  connected_list = q.connected_list;
}

join_connected : ℕ → Queues → Queues
join_connected pid q = record {
  waiting_list = q.waiting_list;
  connected_list = q.connected_list ++ pid ∷ [];
}

-- The tests of `handle_request` before its switch.
admit : Env → ℤ → ConnectionType → ℕ → Queues × World → Queues × World
unfolding is_count join_waiting join_connected send_response
admit env max_clients connect pid (q, w) =
    if is_count (length q.connected_list) max_clients
    then (join_waiting pid q, send_response env wait (codes "Server is full. Please wait.\n") pid w)
    else (join_connected pid q, send_response env success (codes "Connected to server.\n") pid w)
admit env max_clients try_connect pid (q, w) =
    if is_count (length q.connected_list) max_clients
    then (q, send_response env failure (codes "Server is full. Please try again later.\n") pid w)
    else (join_connected pid q, send_response env success (codes "Connected to server.\n") pid w)

serve_help : Env → ℕ → Text → World → World
unfolding log_request send_response
serve_help env pid name w =
    send_response env success
      (if text_eq name [] then help_available_operations else help_for_operation name) pid
      (log_request env pid (codes " requested help.\n") w)

answer_read : Env → Option Text → ℕ → World → World
unfolding send_response
answer_read env none pid w = send_response env failure (codes "Error reading file\n") pid w
answer_read env (some content) pid w = send_response env success content pid w

-- The file is read before the request is logged.
serve_read : Env → ℕ → Command → World → World
unfolding log_request answer_read
serve_read env pid c w =
    answer_read env (read_file env.calls w.files c.filename c.line) pid
      (log_request env pid (codes " requested to read file " ++ c.filename ++ codes ".\n") w)

serve_write : Env → ℕ → Command → World → World
unfolding log_request respond with_files
serve_write env pid c w =
    let logged =
      log_request env pid (codes " requested to write to file " ++ c.filename ++ codes ".\n") w in
    let (ok, fs) = write_to_file env.calls logged.files c.filename c.line c.payload in
    respond env ok (codes "File written successfully\n") (codes "Error writing to file\n") pid
      (with_files fs logged)

serve_upload : Env → ℕ → Command → World → World
unfolding log_request respond with_files
serve_upload env pid c w =
    let logged =
      log_request env pid (codes " requested to upload file " ++ c.filename ++ codes ".\n") w in
    let (ok, fs) = upload_file env.calls env.client logged.files c.filename c.payload in
    respond env ok (codes "File uploaded successfully\n") (codes "Error uploading file\n") pid
      (with_files fs logged)

serve_download : Env → ℕ → Command → World → World
unfolding log_request respond with_files
serve_download env pid c w =
    let logged =
      log_request env pid (codes " requested to download file " ++ c.filename ++ codes ".\n") w in
    let (ok, fs) = download_file env.calls logged.files c.filename in
    respond env ok (codes "File downloaded successfully\n") (codes "Error downloading file\n") pid
      (with_files fs logged)

-- The three values of `status` that are tested.
answer_archive : Env → ℤ → ℕ → World → World
unfolding send_response
answer_archive env (pos zero) pid w =
    send_response env success (codes "Server archived successfully.\n") pid w
answer_archive env (negsuc zero) pid w =
    send_response env failure (codes "Error archiving server.\n") pid w
answer_archive env (negsuc (suc zero)) pid w =
    send_response env failure
      (codes "Error archiving server. Child process terminated abnormally.\n") pid w
answer_archive env _ pid w = w

serve_archive : Env → ℕ → Command → World → World
unfolding log_request answer_archive with_files
serve_archive env pid c w =
    let logged = log_request env pid (codes " requested to archive server.\n") w in
    let (child, fs) = env.tar c.filename c.payload logged.files in
    answer_archive env (Files.archive_server child) pid (with_files fs logged)

answer_list : Env → Option Text → ℕ → World → Option World
unfolding log_request send_response
answer_list env none pid w = none
answer_list env (some names) pid w = some (
    send_response env success names pid
      (log_request env pid (codes " requested list of files.\n") w))

-- The switch; `none` is an exit of the child in `list`.
serve : Env → OperationType → ℕ → Command → World → Option World
unfolding serve_help serve_read serve_write serve_upload serve_download serve_archive log_request
    answer_list kill_client
serve env Command.help pid c w = some (serve_help env pid c.filename w)
serve env list_files pid c w = answer_list env (list env.calls (env.entries w.files)) pid w
serve env Command.read_file pid c w = some (serve_read env pid c w)
serve env write_file pid c w = some (serve_write env pid c w)
serve env upload pid c w = some (serve_upload env pid c w)
serve env download pid c w = some (serve_download env pid c w)
serve env Command.archive_server pid c w = some (serve_archive env pid c w)
serve env quit pid c w = some (kill_client pid (log_request env pid (codes " killed.\n") w))
serve env _ pid c w = some w

pub admit_request : Env → ℤ → OperationType → ConnectionType → ℕ → Queues × World → Queues × World
unfolding admit
admit_request env max_clients no_operation t pid s = admit env max_clients t pid s
admit_request env max_clients _ t pid s = s

-- The queues of the child, and what the switch left, if the client's FIFO could be opened.
ending : Bool → Queues → Option World → Option (Queues × World)
ending fifo_opens q none = none
ending fifo_opens q (some w) = if fifo_opens then some (q, w) else none

-- `none` is an exit of the child with failure: nothing has changed then.
unfoldable pub handle_request : Env → ℤ → Request → Queues × World → Option (Queues × World)
unfolding admit_request serve ending
handle_request env max_clients r s =
    let (q, w) = admit_request env max_clients r.operation_type r.connection_type r.client_pid s in
    ending env.fifo_opens q (serve env r.operation_type r.client_pid r.command w)
