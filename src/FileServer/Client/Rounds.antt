-- ===== src/FileServer/Client/Rounds.antt =====
-- What one round of the loop in Midterm/client.c reads and sends.
use system_programming_cse.Common.{
  ℕ, zero, suc, ◌<◌, ◌≡◌, ◌≢◌, refl, sym, ap, subst, ◌∙◌, true, Bool-cases, inl, inr, some, List,
  [], ◌∷◌, ◌++◌, append_assoc, append-nil, if◌then◌else◌, arith, Text, length, length-append,
}
use system_programming_cse.Common.Strings.{Clean, token, token-Clean}
use system_programming_cse.FileServer.Command.{Command, parse_command, is_kill}
use system_programming_cse.FileServer.Files.{chunk, behind_chunk}
use system_programming_cse.FileServer.Requests.{Request}
use system_programming_cse.FileServer.Client.{
  newline, Reply, unreadable, closed, got, Client, Outcome, running, exited, undefined, Round,
  read_message, first_word, send_request, is_invalid, send_command, show_response, receive_response,
  answer, proceed,
}

-- The loop goes on with a client that has this input left and has sent this.
abbrev pub Ends : Client → Text → List Request → Outcome → Type 0
Ends c stdin sent (running d) =
    (d.pid ≡ c.pid) × (d.connection_type ≡ c.connection_type) × (d.stdin ≡ stdin) × (d.sent ≡ sent)
Ends c stdin sent (exited d) = ⊥
Ends c stdin sent (undefined d) = ⊥

-- A response is read, or the FIFO is closed.
abbrev pub IsRead : Reply → Type 0
IsRead unreadable = ⊥
IsRead closed = Unit {0}
IsRead (got response) = Unit {0}

show_response_keeps : (c : Client) → Ends c c.stdin c.sent (running (show_response c))
unfolding show_response
show_response_keeps c = ground arith

receive_response_keeps :
    (reply : Reply) (c : Client) → IsRead reply → Ends c c.stdin c.sent (receive_response reply c)
unfolding receive_response
receive_response_keeps unreadable c h = h
receive_response_keeps closed c h = show_response_keeps c
receive_response_keeps (got response) c h = show_response_keeps (record c { response = response })

abbrev pub request_of : Client → Command → Request
request_of c command = record {
  client_pid = c.pid;
  connection_type = c.connection_type;
  operation_type = command.operation_type;
  command = command;
}

-- Nothing for an invalid command, and killServer twice.
abbrev pub requests_of : Client → Command → List Request
requests_of c command =
    if is_invalid command.operation_type
    then []
    else if is_kill command.operation_type
    then request_of c command ∷ request_of c command ∷ []
    else request_of c command ∷ []

answer_sends :
    (r : Round) (command : Command) (c : Client)
    → r.writes_first ≡ true
    → r.writes ≡ true
    → IsRead r.reply
    → Ends c c.stdin (c.sent ++ requests_of c command) (answer r command c)
unfolding answer send_command send_request
answer_sends r command c first later read = elim (Bool-cases (is_invalid command.operation_type)) [
  | inl e ↦ rw (e, requests_of) (refl, refl, refl, sym (append-nil c.sent))
  | inr e ↦ elim (Bool-cases (is_kill command.operation_type)) [
    | inl k ↦
        let one = request_of c command ∷ [] in
        let two = record c { sent = (c.sent ++ one) ++ one } in
        let kept = receive_response_keeps r.reply two read in
        rw (e, k, first, later)
          (subst (λ l. Ends c c.stdin l (receive_response r.reply two))
            (append_assoc c.sent one one) kept)
    | inr k ↦
        let kept =
          receive_response_keeps r.reply (record c { sent = c.sent ++ (request_of c command ∷ []) })
            read in
        rw (e, k, later) kept
  ]
]

chunk-line :
    (room : ℕ) (line rest : Text)
    → Clean newline line
    → length line < room
    → (chunk room (line ++ b'\n' ∷ rest) ≡ line ++ b'\n' ∷ [])
      × (behind_chunk room (line ++ b'\n' ∷ rest) ≡ rest)
chunk-line zero line rest clean fits = absurd omega arith
chunk-line (suc room) [] rest clean fits = (refl, refl)
chunk-line (suc room) (x ∷ line) rest (apart, clean) fits =
    ground (arith, apart, chunk-line room line rest clean (omega arith))

read_message_some :
    (s : Text) (c : Client)
    → s ≢ []
    → c.stdin ≡ s
    → read_message c ≡ record c { stdin = behind_chunk 99 s; message = token newline (chunk 99 s) }
unfolding read_message
read_message_some [] c full e = absurd (full refl)
read_message_some (x ∷ s) c full e = rw e refl

pub read_message-line :
    (line rest : Text) (c : Client)
    → Clean newline line
    → length line < 99
    → c.stdin ≡ line ++ b'\n' ∷ rest
    → read_message c ≡ record c { stdin = rest; message = line }
read_message-line line rest c clean fits e =
    let (got_line, left) = chunk-line 99 line rest clean fits in
    let some_left : line ++ b'\n' ∷ rest ≢ [] =
      λ h. omega (arith, length-append line (b'\n' ∷ rest), ap length h) in
    let cut = token-Clean newline line b'\n' [] clean refl in
    read_message_some (line ++ b'\n' ∷ rest) c some_left e ∙ rw (got_line, left, cut) refl

proceed_parsed :
    (r : Round) (command : Command) (c : Client)
    → parse_command r.cwd c.message ≡ some command
    → proceed r c ≡ answer r command (record c { message = first_word c.message })
unfolding proceed
proceed_parsed r command c parsed = rw (parsed, proceed) refl

pub proceed_sends :
    (r : Round) (command : Command) (c : Client)
    → parse_command r.cwd c.message ≡ some command
    → r.writes_first ≡ true
    → r.writes ≡ true
    → IsRead r.reply
    → Ends c c.stdin (c.sent ++ requests_of c command) (proceed r c)
proceed_sends r command c parsed first later read =
    subst (Ends c c.stdin (c.sent ++ requests_of c command))
      (sym (proceed_parsed r command c parsed))
      (answer_sends r command (record c { message = first_word c.message }) first later read)
