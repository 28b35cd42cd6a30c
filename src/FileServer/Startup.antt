-- ===== src/FileServer/Startup.antt =====
-- The start of `main` in Midterm/server.c, up to its loop. What `strerror` and `perror` add to a message is
-- left out.
pub mod Opening
mod Tests
use system_programming_cse.Common.{
  ℕ, Bool, true, false, Option, none, some, List, [], ◌∷◌, ◌++◌, not, if◌then◌else◌, Text, codes,
  take,
}
use system_programming_cse.Common.Strings.{ℤ, atoi, decimal}
use system_programming_cse.Common.Numerals.{signed_decimal}
use system_programming_cse.FileServer.Files.{Files, store}
use system_programming_cse.FileServer.Requests.{Env, World, log_message}
use system_programming_cse.FileServer.Main.{Server, start}

-- What `mkdir` returns, with EEXIST apart from the other errors.
pub data Made : Type 0 where
  made exists refused : Made

-- What the calls find: whether the handler of SIGINT can be set, what lies in the directory if `main` can
-- change to it, whether the log can be created there, and whether the FIFO can be created, opened for
-- reading, and opened for writing. `env` is what `log_message` finds.
pub record StartCalls : Type 0 where
  pub getpid : ℕ
  pub sets_handler : Bool
  pub mkdir : Text → Made
  pub chdir : Text → Option Files
  pub creates_log : Bool
  pub mkfifo : Text → Bool
  pub opens_reader : Text → Bool
  pub opens_writer : Text → Bool
  pub env : Env

-- The exit with EXIT_FAILURE: the message, the files of the directory if `main` has come there, and the
-- FIFO if it has been made; or the server, with the limit on its clients, the name of its FIFO and what
-- has been printed.
pub data Startup : Type 0 where
  stopped : (message : Text) (files : Option Files) (fifo : Option Text) → Startup
  opened : (max_clients : ℤ) (server_fifo : Text) (printed : List Text) (server : Server) → Startup

-- `snprintf` with SERVER_FIFO_TEMPLATE and SERVER_FIFO_NAME_LEN.
pub server_fifo_name : ℕ → Text
server_fifo_name pid = take 39 (codes "/tmp/server_fifo." ++ decimal pid)

-- The name that Midterm/client.c makes of its second argument.
pub client_side_name : Text → Text
unfolding atoi
client_side_name argument = take 39 (codes "/tmp/server_fifo." ++ signed_decimal (atoi argument))

-- The line for the log; `message` is an array of 100 bytes.
pub start_line : ℕ → Text
start_line pid = take 99 (codes "Server started. PID: " ++ decimal pid ++ codes "\n")

log_file : Text
log_file = codes "log.txt"

-- The message goes to the log, and another one to the console. The response list and the list of the
-- clients that were killed are empty.
start_up : StartCalls → ℤ → Text → Files → Startup
unfolding log_message
start_up s max_clients server_fifo files =
    let w =
      log_message s.env (start_line s.getpid) (record { files = files; sent = []; killed = [] }) in
    opened max_clients server_fifo
      (server_fifo ∷ (codes "Server started with PID=" ++ decimal s.getpid ++ codes "\n") ∷ [])
      (start w)

-- The FIFO is created and opened at both ends.
open_fifo : StartCalls → ℤ → Text → Files → Startup
unfolding start_up
open_fifo s max_clients server_fifo files =
    if not (s.mkfifo server_fifo)
    then stopped (codes "Error creating server FIFO: ") (some files) none
    else if not (s.opens_reader server_fifo)
    then stopped (codes "Error opening server FIFO: ") (some files) (some server_fifo)
    else if not (s.opens_writer server_fifo)
    then stopped (codes "Error opening server FIFO for writing: ") (some files) (some server_fifo)
    else start_up s max_clients server_fifo files

-- The log is created, or cut to length 0, in the directory.
in_directory : StartCalls → ℤ → Option Files → Startup
unfolding open_fifo log_file server_fifo_name
in_directory s max_clients none = stopped (codes "Error changing directory") none none
in_directory s max_clients (some files) =
    if not s.creates_log
    then stopped (codes "Error creating log file: ") (some files) none
    else open_fifo s max_clients (server_fifo_name s.getpid) (store log_file [] files)

with_directory : StartCalls → ℤ → Text → Made → Startup
unfolding in_directory
with_directory s max_clients dirname refused = stopped (codes "Error creating directory") none none
with_directory s max_clients dirname _ = in_directory s max_clients (s.chdir dirname)

usage : Text → Text
usage program = codes "Usage: " ++ program ++ codes " <dirname> <max. #ofClients>\n"

-- The name of the program and the arguments behind it.
pub start_server : StartCalls → Text → List Text → Startup
unfolding with_directory usage atoi
start_server s program (dirname ∷ clients ∷ []) =
    if not s.sets_handler
    then stopped (codes "Error registering signal handler") none none
    else with_directory s (atoi clients) dirname (s.mkdir dirname)
start_server s program _ = stopped (usage program) none none
