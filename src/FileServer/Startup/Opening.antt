-- ===== src/FileServer/Startup/Opening.antt =====
-- When the server of Midterm/server.c comes to its loop, and what it leaves behind when it does not.
use system_programming_cse.Common.{
  ℕ, ◌<◌, ◌^◌, ◌≡◌, refl, ◌∙◌, ap, Bool, Bool-cases, inl, inr, true, false, some, none, List, [],
  ◌∷◌, ◌++◌, if◌then◌else◌, Text, codes, text_eq, take,
}
use system_programming_cse.Common.Strings.{atoi, decimal}
use system_programming_cse.Common.Numerals.{signed_decimal, atoi-decimal}
use system_programming_cse.FileServer.Files.{Files, find, store, written, content_of}
use system_programming_cse.FileServer.Files.Store.{find-store}
use system_programming_cse.FileServer.Requests.{World, log_message}
use system_programming_cse.FileServer.Main.{start}
use system_programming_cse.FileServer.Startup.{
  Made, refused, made, exists, StartCalls, opened, server_fifo_name, client_side_name, log_file,
  start_line, start_up, open_fifo, in_directory, with_directory, start_server,
}

abbrev pub is_refused : Made → Bool
is_refused refused = true
is_refused _ = false

-- The directory once the log has been cut and a line has been written to it.
abbrev restarted : Text → Files → Files
restarted line files =
    let empty = store (codes "log.txt") [] files in
    store (codes "log.txt") (content_of (codes "log.txt") empty ++ line) empty

cut_log : (files : Files) → content_of (codes "log.txt") (store (codes "log.txt") [] files) ≡ []
cut_log files =
    ap (λ x. elim x [ none ↦ [] | some s ↦ s ])
      (find-store (codes "log.txt") (codes "log.txt") [] files)

restarted-find :
    (line : Text) (files : Files) (name : Text)
    → find name (restarted line files)
      ≡ (if text_eq (codes "log.txt") name then some line else find name files)
restarted-find line files name =
    let empty = store (codes "log.txt") [] files in
    find-store (codes "log.txt") name (content_of (codes "log.txt") empty ++ line) empty
    ∙ elim (Bool-cases (text_eq (codes "log.txt") name)) [
      | inl e ↦ rw e (ap (λ c. some (c ++ line)) (cut_log files))
      | inr e ↦ rw e (find-store (codes "log.txt") name [] files ∙ rw e refl)
    ]

-- The name of the FIFO is the one that a client makes of the number of the process, written in digits.
client_side_name-decimal :
    (pid : ℕ) → pid < 2 ^ 31 → client_side_name (decimal pid) ≡ server_fifo_name pid
unfolding client_side_name server_fifo_name
client_side_name-decimal pid h =
    ap (λ i. take 39 (codes "/tmp/server_fifo." ++ signed_decimal i)) (atoi-decimal pid h)

in_directory-start :
    (s : StartCalls) (dirname : Text) (m : Made) (files : Files) (clients : Text)
    → is_refused m ≡ false
    → s.chdir dirname ≡ some files
    → with_directory s (atoi clients) dirname m ≡ in_directory s (atoi clients) (some files)
unfolding with_directory
in_directory-start s dirname made files clients r d = ap (in_directory s (atoi clients)) d
in_directory-start s dirname exists files clients r d = ap (in_directory s (atoi clients)) d
in_directory-start s dirname refused files clients r d = cc

-- With two arguments, a directory that can be made or is there, and where the other calls succeed, `main`
-- comes to its loop with the limit on its clients, and with a FIFO whose name a client makes of the number
-- of the process; the log holds the line about the start and nothing from before, and the other files
-- of the directory are as they were.
pub start_server-opened :
    (s : StartCalls) (program dirname clients : Text) (files : Files)
    → s.sets_handler ≡ true
    → is_refused (s.mkdir dirname) ≡ false
    → s.chdir dirname ≡ some files
    → s.creates_log ≡ true
    → s.mkfifo (server_fifo_name s.getpid) ≡ true
    → s.opens_reader (server_fifo_name s.getpid) ≡ true
    → s.opens_writer (server_fifo_name s.getpid) ≡ true
    → s.env.logs ≡ true
    → s.env.calls.write_limit ≡ none
    → s.getpid < 2 ^ 31
    → (w : World) × (printed : List Text) × (start_server s program (dirname ∷ clients ∷ [])
        ≡ opened (atoi clients) (client_side_name (decimal s.getpid)) printed (start w))
      × ((name : Text)
          → find name w.files ≡ (
              if text_eq (codes "log.txt") name
              then some (start_line s.getpid)
              else find name files))
unfolding start_server in_directory log_file open_fifo start_up log_message written
start_server-opened s program dirname clients files h m d c k r o l n p = (
  record { files = restarted (start_line s.getpid) files; sent = []; killed = [] },
  server_fifo_name s.getpid
      ∷ (codes "Server started with PID=" ++ decimal s.getpid ++ codes "\n")
      ∷ [],
  rw (h, client_side_name-decimal s.getpid p)
      (in_directory-start s dirname (s.mkdir dirname) files clients m d
        ∙ rw (c, k, r, o, l, n) refl),
  restarted-find (start_line s.getpid) files,
)
