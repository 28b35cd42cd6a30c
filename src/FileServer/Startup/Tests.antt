-- ===== src/FileServer/Startup/Tests.antt =====
-- A server in a directory that holds an old log and another file, and one that finds no directory.
use system_programming_cse.Common.{
  ◌≡◌, refl, true, Option, some, none, List, [], ◌∷◌, arith, if◌then◌else◌, Text, codes, text_eq,
}
use system_programming_cse.Common.Strings.{atoi, decimal}
use system_programming_cse.FileServer.Files.{Files, find}
use system_programming_cse.FileServer.Requests.{World, open_env}
use system_programming_cse.FileServer.Main.{start}
use system_programming_cse.FileServer.Startup.{
  exists, StartCalls, stopped, opened, client_side_name, start_line, start_server,
}
use system_programming_cse.FileServer.Startup.Opening.{start_server-opened}

abbrev old_files : Files
old_files = (codes "log.txt", codes "old\n") ∷ (codes "a", codes "text\n") ∷ []

abbrev system : Option Files → StartCalls
system files = record {
  getpid = 4711;
  sets_handler = true;
  mkdir = λ dirname. exists;
  chdir = λ dirname. files;
  creates_log = true;
  mkfifo = λ name. true;
  opens_reader = λ name. true;
  opens_writer = λ name. true;
  env = open_env;
}

no_directory :
    start_server (system none) (codes "server") (codes "d" ∷ codes "2" ∷ [])
    ≡ stopped (codes "Error changing directory") none none
unfolding start_server
no_directory = refl

one_argument :
    start_server (system none) (codes "server") (codes "d" ∷ [])
    ≡ stopped (codes "Usage: server <dirname> <max. #ofClients>\n") none none
unfolding start_server
one_argument = refl

start_server-opened_example :
    (w : World) × (printed : List Text) × (start_server
        (system (some old_files))
        (codes "server")
        (codes "d" ∷ codes "2" ∷ [])
      ≡ opened (atoi (codes "2")) (client_side_name (decimal 4711)) printed (start w))
    × ((name : Text)
        → find name w.files ≡ (
            if text_eq (codes "log.txt") name then some (start_line 4711) else find name old_files))
start_server-opened_example =
    start_server-opened (system (some old_files)) (codes "server") (codes "d") (codes "2") old_files
      refl refl refl refl refl refl refl refl refl (omega arith)
