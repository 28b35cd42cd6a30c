-- ===== src/FileServer/Client.antt =====
-- Midterm/client.c: the client, which types commands to the server.
pub mod Rounds
pub mod Session
pub mod Shutdown
mod Tests
use system_programming_cse.Common.{
  ℕ, Bool, true, false, not, Option, none, some, List, [], ◌∷◌, ◌++◌, if◌then◌else◌, Text, codes,
  text_eq,
}
use system_programming_cse.FileServer.Command.{
  ConnectionType, connect, try_connect, OperationType, Command, no_operation, kill_server,
  invalid_operation, parse_command, is_kill, OperationType-discrete,
}
use system_programming_cse.FileServer.Requests.{Request, Status, success, failure, wait, Response}
use system_programming_cse.FileServer.Files.{chunk, behind_chunk}
use system_programming_cse.Common.Strings.{ℤ, pos, skip, token, elem}

abbrev newline : Text
newline = codes "\n"

abbrev blank : Text
blank = codes " "

-- What `read` of a response from the client's FIFO does: it fails, it reads nothing because the server has closed
-- the FIFO, or it reads a response.
pub data Reply : Type 0 where
  unreadable closed : Reply
  got : Response → Reply

-- `message` is the array as a C string, and `sent` is what was written to the server's FIFO, in its order.
pub record Client : Type 0 where
  pub pid : ℕ
  pub connection_type : ConnectionType
  pub stdin : Text
  pub message : Text
  pub response : Response
  pub sent : List Request
  pub output : Text
  pub errors : Text

pub data Outcome : Type 0 where
  running exited undefined : Client → Outcome

-- What the system does for one round of the loop: what `getcwd` writes, whether the two `write` of a command succeed
-- (the first one is that of killServer), and the response that is read.
pub record Round : Type 0 where
  pub cwd : Option Text
  pub writes_first : Bool
  pub writes : Bool
  pub reply : Reply

-- `fgets` and the cut at the line break. At the end of the input the array keeps its text.
pub read_message : Client → Client
read_message c = elim c.stdin [
  | [] ↦ c
  | d ∷ s ↦ record c { stdin = behind_chunk 99 (d ∷ s); message = token newline (chunk 99 (d ∷ s)) }
]

-- The array after `strtok` has ended its first word.
first_word : Text → Text
first_word [] = []
first_word (c ∷ s) = if elem c blank then c ∷ first_word s else token blank (c ∷ s)

send_request : Bool → Command → Client → Client
send_request writes command c =
    if writes
    then record c {
      sent =
          c.sent
          ++ (record {
            client_pid = c.pid;
            connection_type = c.connection_type;
            operation_type = command.operation_type;
            command = command;
          }
              ∷ []);
    }
    else c

abbrev pub is_invalid : OperationType → Bool
is_invalid invalid_operation = true
is_invalid o = false

-- killServer is sent twice.
send_command : Round → Command → Client → Client
unfolding send_request
send_command r command c =
    send_request r.writes command
      (if is_kill command.operation_type then send_request r.writes_first command c else c)

show_response : Client → Client
show_response c = elim c.response.status [
  | success ↦ record c { output = c.output ++ (c.response.body ++ newline) }
  | failure ↦ record c {
    errors = c.errors ++ (codes "Operation failed: " ++ (c.response.body ++ newline));
  }
  | wait ↦ record c { errors = c.errors ++ (c.response.body ++ newline) }
]

-- A response that is not read leaves the one before it.
receive_response : Reply → Client → Outcome
unfolding show_response
receive_response unreadable c = exited c
receive_response closed c = running (show_response c)
receive_response (got response) c = running (show_response (record c { response = response }))

-- What is done with a command.
answer : Round → Command → Client → Outcome
unfolding send_command receive_response
answer r command c =
    if is_invalid command.operation_type
    then running (record c { output = c.output ++ codes "Invalid command.\n" })
    else receive_response r.reply (send_command r command c)

-- A round with its message. `parse_command` is undefined on one without words, and leaves its first word in the array.
pub proceed : Round → Client → Outcome
unfolding first_word answer
proceed r c = elim (parse_command r.cwd c.message) [
  | none ↦ undefined c
  | some command ↦ answer r command (record c { message = first_word c.message })
]

pub round : Round → Client → Outcome
unfolding read_message proceed
round r c = proceed r (read_message (record c { output = c.output ++ codes "Enter command: " }))

-- Rounds of the loop, until the client exits.
pub loop : List Round → Client → Outcome
unfolding round
loop [] c = running c
loop (r ∷ rs) c = elim (round r c) [
  | running d ↦ loop rs d
  | exited d ↦ exited d
  | undefined d ↦ undefined d
]

-- What the system does before the loop: whether the FIFO of the client is made, whether the server's opens and takes
-- the request, whether the client's opens, the command that lies in the request before it is written, and the first
-- response.
pub record Opening : Type 0 where
  pub created : Bool
  pub server_opens : Bool
  pub writes : Bool
  pub client_opens : Bool
  pub memory : Command
  pub reply : Reply

connect_type : Text → ConnectionType
connect_type argument = if text_eq argument (codes "Connect") then connect else try_connect

-- The request to connect, whose command is not set.
connection : ConnectionType → Command → ℕ → Request
connection t memory pid = record {
  client_pid = pid;
  connection_type = t;
  operation_type = no_operation;
  command = memory;
}

-- What the first response leads to.
greet : List Round → Client → Outcome
unfolding loop
greet rounds c = elim c.response.status [
  | success ↦ loop rounds c
  | failure ↦
      exited (record c {
        errors = c.errors ++ (codes "Connection to server failed: " ++ c.response.body);
      })
  | wait ↦ exited (record c { errors = c.errors ++ c.response.body })
]

-- The first response is read into memory that is not set.
greet_reply : Reply → List Round → Client → Outcome
unfolding greet
greet_reply unreadable rounds c = exited c
greet_reply closed rounds c = undefined c
greet_reply (got response) rounds c = greet rounds (record c { response = response })

-- `main` with its two arguments: the client as it starts, with what lies in its arrays. The second argument names the
-- server's FIFO. The messages that name an `errno` or a descriptor are left out.
pub main : Opening → Text → List Round → Client → Outcome
unfolding greet_reply connect_type connection
main o argument rounds start =
    if not o.created
    then exited start
    else (let c = record start {
      connection_type = connect_type argument;
      output = start.output ++ codes "Client FIFO created.\n";
    } in
        let asked = record c {
          sent = c.sent ++ (connection c.connection_type o.memory c.pid ∷ []);
        } in
        if not o.server_opens
        then exited c
        else if not o.writes
        then exited c
        else if not o.client_opens
        then exited asked
        else greet_reply o.reply rounds asked)
