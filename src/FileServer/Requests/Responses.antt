-- ===== src/FileServer/Requests/Responses.antt =====
-- Midterm/server.c and Midterm/concurrent_file_access_system.h: requests, responses and the log.
use system_programming_cse.Common.{
  ℕ, Bool, true, Option, none, some, List, ◌∷◌, ◌++◌, map, if◌then◌else◌, Text, codes, take,
}
use system_programming_cse.Common.Strings.{decimal}
use system_programming_cse.FileServer.Command.{ConnectionType, OperationType, Command}
use system_programming_cse.FileServer.Files.{
  Files, Calls, Child, store, content_of, written, read_file, write_to_file, upload_file,
  download_file, list,
}
use system_programming_cse.FileServer.Files

pub record Request : Type 0 where
  pub client_pid : ℕ
  pub connection_type : ConnectionType
  pub operation_type : OperationType
  pub command : Command

-- `response_status_t` is SUCCESS, FAILURE or WAIT.
pub data Status : Type 0 where
  success failure wait : Status

-- `body` is an array of 400 bytes.
pub record Response : Type 0 where
  pub status : Status
  pub body : Text

-- The queues of one process of the server, from the front.
pub record Queues : Type 0 where
  pub waiting_list : List ℕ
  pub connected_list : List ℕ

-- What all processes share: the directory, the responses that were sent, the last one first, and the
-- clients that were killed.
pub record World : Type 0 where
  pub files : Files
  pub sent : List (ℕ × Response)
  pub killed : List ℕ

-- What the system does for a request: whether the client's FIFO opens and takes a response, whether
-- the log opens, what the file operations are granted, what can be read of the client's files, what
-- `readdir` returns in the directory, and what the child that runs `tar` does.
pub record Env : Type 0 where
  pub fifo_opens : Bool
  pub answers : Bool
  pub logs : Bool
  pub calls : Calls
  pub client : Text → Option Text
  pub entries : Files → Option (List Text)
  pub tar : Text → Text → Files → Child × Files

-- A system that grants everything: a client without files, a directory that lists its files, a `tar`
-- that fails.
abbrev pub open_env : Env
open_env = record {
  fifo_opens = true;
  answers = true;
  logs = true;
  calls = Files.generous;
  client = λ path. none;
  entries = λ fs. some (map (λ (f : Text × Text). f.0) fs);
  tar = λ name dir fs. (Files.exits 2, fs);
}

unfoldable pub send_response : Env → Status → Text → ℕ → World → World
send_response env status body pid w =
    if env.answers
    then record {
      files = w.files;
      sent = (pid, record { status = status; body = take 399 body }) ∷ w.sent;
      killed = w.killed;
    }
    else w

-- The server appends to its log file, which is one of the files of its directory.
unfoldable pub log_message : Env → Text → World → World
log_message env message w =
    if env.logs
    then record {
      files =
          store (codes "log.txt")
            (content_of (codes "log.txt") w.files ++ written env.calls message) w.files;
      sent = w.sent;
      killed = w.killed;
    }
    else w

-- `log` is an array of 100 bytes.
unfoldable pub log_request : Env → ℕ → Text → World → World
unfolding log_message
log_request env pid what w = log_message env (take 99 (codes "Client " ++ decimal pid ++ what)) w

unfoldable pub with_files : Files → World → World
with_files fs w = record { files = fs; sent = w.sent; killed = w.killed }

unfoldable pub kill_client : ℕ → World → World
kill_client pid w = record { files = w.files; sent = w.sent; killed = pid ∷ w.killed }

-- A response by what an operation returned.
unfoldable pub respond : Env → Bool → Text → Text → ℕ → World → World
unfolding send_response
respond env ok good bad pid w =
    if ok then send_response env success good pid w else send_response env failure bad pid w
