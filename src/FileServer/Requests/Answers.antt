-- ===== src/FileServer/Requests/Answers.antt =====
-- Which requests are answered.
use system_programming_cse.Common.{
  ℕ, zero, suc, ◌≤◌, ◌≡◌, ◌≢◌, refl, ap, Bool, true, false, is_some, Bool-cases, Option-cases, inl,
  inr, Option, none, some, [], ◌∷◌, ◌++◌, if◌then◌else◌, arith, Text, length, take, length-take,
  codes, text_eq,
}
use system_programming_cse.Common.Strings.{ℤ}
use system_programming_cse.FileServer.Command.{
  ConnectionType, connect, try_connect, OperationType, Command, no_operation, list_files,
  write_file, upload, download, kill_server, quit, invalid_operation,
}
use system_programming_cse.FileServer.Command
use system_programming_cse.FileServer.Files.{
  list, read_file, write_to_file, upload_file, download_file, Child,
}
use system_programming_cse.FileServer.Files
use system_programming_cse.FileServer.Command.Help.{help_available_operations, help_for_operation}
use system_programming_cse.FileServer.Requests.{
  Request, Response, Status, log_message, success, failure, Queues, World, Env, send_response,
  log_request, respond, with_files, serve, serve_help, serve_read, serve_write, serve_download,
  serve_archive, answer_archive, answer_read, answer_list, ending, handle_request,
}
use system_programming_cse.FileServer.Requests.Effects.{admit_request-other}

-- An operation that is answered by one response. An upload is not among them: the server prints the content
-- from an array without a NUL at its end, and may not come to its response.
abbrev pub IsAnswered : OperationType → Type 0
IsAnswered no_operation = ⊥
IsAnswered kill_server = ⊥
IsAnswered quit = ⊥
IsAnswered invalid_operation = ⊥
IsAnswered upload = ⊥
IsAnswered _ = Unit {0}

-- One response to a client, of at most 399 bytes, has been sent after all others.
abbrev pub Answers : ℕ → World → World → Type 0
Answers pid w w' =
    (a : Response) × (w'.sent ≡ (pid, a) ∷ w.sent) × (length a.body ≤ 399) × (w'.killed ≡ w.killed)

send_response-Answers :
    (env : Env) (s : Status) (body : Text) (pid : ℕ) (w v : World)
    → env.answers ≡ true
    → v.sent ≡ w.sent
    → v.killed ≡ w.killed
    → Answers pid w (send_response env s body pid v)
unfolding send_response
send_response-Answers env s body pid w v answers sent killed =
    rw (answers, send_response)
      (
        record { status = s; body = take 399 body },
        ap (λ l. (pid, record { status = s; body = take 399 body }) ∷ l) sent,
        omega (arith, length-take 399 body),
        killed,
      )

log_request-sent :
    (env : Env) (pid : ℕ) (what : Text) (w : World)
    → ((log_request env pid what w).sent ≡ w.sent)
      × ((log_request env pid what w).killed ≡ w.killed)
unfolding log_request log_message
log_request-sent env pid what w = elim (Bool-cases env.logs) [
  | inl e ↦ ground (arith, e)
  | inr e ↦ ground (arith, e)
]

respond-Answers :
    (env : Env) (ok : Bool) (good bad : Text) (pid : ℕ) (w v : World)
    → env.answers ≡ true
    → v.sent ≡ w.sent
    → v.killed ≡ w.killed
    → Answers pid w (respond env ok good bad pid v)
unfolding respond
respond-Answers env true good bad pid w v = send_response-Answers env success good pid w v
respond-Answers env false good bad pid w v = send_response-Answers env failure bad pid w v

answer_read-Answers :
    (env : Env) (o : Option Text) (pid : ℕ) (w v : World)
    → env.answers ≡ true
    → v.sent ≡ w.sent
    → v.killed ≡ w.killed
    → Answers pid w (answer_read env o pid v)
unfolding answer_read
answer_read-Answers env none pid w v =
    send_response-Answers env failure (codes "Error reading file\n") pid w v
answer_read-Answers env (some content) pid w v = send_response-Answers env success content pid w v

answer_archive-Answers :
    (env : Env) (child : Child) (pid : ℕ) (w v : World)
    → env.answers ≡ true
    → v.sent ≡ w.sent
    → v.killed ≡ w.killed
    → Answers pid w (answer_archive env (Files.archive_server child) pid v)
unfolding answer_archive Files.archive_server
answer_archive-Answers env Files.fork_fails pid w v =
    send_response-Answers env failure (codes "Error archiving server.\n") pid w v
answer_archive-Answers env (Files.exits zero) pid w v =
    send_response-Answers env success (codes "Server archived successfully.\n") pid w v
answer_archive-Answers env (Files.exits (suc n)) pid w v =
    send_response-Answers env failure (codes "Error archiving server.\n") pid w v
answer_archive-Answers env Files.is_killed pid w v =
    send_response-Answers env failure
      (codes "Error archiving server. Child process terminated abnormally.\n") pid w v

IsAnswered-other : (o : OperationType) → IsAnswered o → o ≢ no_operation
IsAnswered-other no_operation i = absurd i
IsAnswered-other _ i = λ e. cc

module _ (env : Env) (pid : ℕ) (c : Command) (w : World) (answers : env.answers ≡ true) where
  serve_help-Answers : (name : Text) → Answers pid w (serve_help env pid name w)
  unfolding serve_help
  serve_help-Answers name =
      let (sent, killed) = log_request-sent env pid (codes " requested help.\n") w in
      send_response-Answers env success
        (if text_eq name [] then help_available_operations else help_for_operation name) pid w
        (log_request env pid (codes " requested help.\n") w) answers sent killed

  serve_read-Answers : Answers pid w (serve_read env pid c w)
  unfolding serve_read
  serve_read-Answers =
      let what = codes " requested to read file " ++ c.filename ++ codes ".\n" in
      let (sent, killed) = log_request-sent env pid what w in
      answer_read-Answers env (read_file env.calls w.files c.filename c.line) pid w
        (log_request env pid what w) answers sent killed

  serve_write-Answers : Answers pid w (serve_write env pid c w)
  unfolding serve_write with_files
  serve_write-Answers =
      let what = codes " requested to write to file " ++ c.filename ++ codes ".\n" in
      let (sent, killed) = log_request-sent env pid what w in
      let logged = log_request env pid what w in
      let (ok, fs) = write_to_file env.calls logged.files c.filename c.line c.payload in
      respond-Answers env ok (codes "File written successfully\n") (codes "Error writing to file\n")
        pid w (with_files fs logged) answers sent killed

  serve_download-Answers : Answers pid w (serve_download env pid c w)
  unfolding serve_download with_files
  serve_download-Answers =
      let what = codes " requested to download file " ++ c.filename ++ codes ".\n" in
      let (sent, killed) = log_request-sent env pid what w in
      let logged = log_request env pid what w in
      let (ok, fs) = download_file env.calls logged.files c.filename in
      respond-Answers env ok (codes "File downloaded successfully\n")
        (codes "Error downloading file\n") pid w (with_files fs logged) answers sent killed

  serve_archive-Answers : Answers pid w (serve_archive env pid c w)
  unfolding serve_archive with_files
  serve_archive-Answers =
      let what = codes " requested to archive server.\n" in
      let (sent, killed) = log_request-sent env pid what w in
      let logged = log_request env pid what w in
      let (child, fs) = env.tar c.filename c.payload logged.files in
      answer_archive-Answers env child pid w (with_files fs logged) answers sent killed

  answer_list-Answers :
      (names : Text)
      → (w' : World) × (answer_list env (some names) pid w ≡ some w') × Answers pid w w'
  unfolding answer_list
  answer_list-Answers names =
      let what = codes " requested list of files.\n" in
      let (sent, killed) = log_request-sent env pid what w in
      let logged = log_request env pid what w in
      (
        send_response env success names pid logged,
        refl,
        send_response-Answers env success names pid w logged answers sent killed,
      )

-- Every answered operation ends, unless the directory cannot be listed, and is answered.
serve-Answers :
    (env : Env) (o : OperationType) (pid : ℕ) (c : Command) (w : World)
    → env.answers ≡ true
    → IsAnswered o
    → is_some (list env.calls (env.entries w.files)) ≡ true
    → (w' : World) × (serve env o pid c w ≡ some w') × Answers pid w w'
unfolding serve
serve-Answers env Command.help pid c w a i l =
    (serve_help env pid c.filename w, refl, serve_help-Answers env pid c w a c.filename)
serve-Answers env list_files pid c w a i l =
    elim (Option-cases (list env.calls (env.entries w.files))) [
      | inl e ↦ ground (arith, e, l)
      | inr (names, e) ↦ rw e (answer_list-Answers env pid c w a names)
    ]
serve-Answers env Command.read_file pid c w a i l =
    (serve_read env pid c w, refl, serve_read-Answers env pid c w a)
serve-Answers env write_file pid c w a i l =
    (serve_write env pid c w, refl, serve_write-Answers env pid c w a)
serve-Answers env upload pid c w a i l = absurd i
serve-Answers env download pid c w a i l =
    (serve_download env pid c w, refl, serve_download-Answers env pid c w a)
serve-Answers env Command.archive_server pid c w a i l =
    (serve_archive env pid c w, refl, serve_archive-Answers env pid c w a)
serve-Answers env no_operation pid c w a i l = absurd i
serve-Answers env kill_server pid c w a i l = absurd i
serve-Answers env quit pid c w a i l = absurd i
serve-Answers env invalid_operation pid c w a i l = absurd i

ending-opens :
    (b : Bool) (q : Queues) (o : Option World) (w : World)
    → b ≡ true
    → o ≡ some w
    → ending b q o ≡ some (q, w)
unfolding ending
ending-opens b q o w h e = rw (h, e) refl

-- Where the client's FIFO opens and takes a response and the directory can be listed, a request for
-- help, a list, a read, a write, a download or an archive is handled: the queues stay, and
-- exactly one response, of at most 399 bytes, is sent, to the client that asks.
pub handle_request-Answers :
    (env : Env) (max_clients : ℤ) (r : Request) (q : Queues) (w : World)
    → env.fifo_opens ≡ true
    → env.answers ≡ true
    → is_some (list env.calls (env.entries w.files)) ≡ true
    → IsAnswered r.operation_type
    → (w' : World) × (handle_request env max_clients r (q, w) ≡ some (q, w'))
      × Answers r.client_pid w w'
unfolding handle_request ending
handle_request-Answers env max_clients r q w opens answers lists i =
    let kept =
      admit_request-other env max_clients r.operation_type r.connection_type r.client_pid (q, w)
        (IsAnswered-other r.operation_type i) in
    let (w', done, a) =
      serve-Answers env r.operation_type r.client_pid r.command w answers i lists in
    let go =
      ending-opens env.fifo_opens q (serve env r.operation_type r.client_pid r.command w) w' opens
        done in
    (w', rw (kept, handle_request) go, a)
