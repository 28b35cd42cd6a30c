-- ===== src/FileServer/Command.antt =====
-- Midterm/concurrent_file_access_system.h: the commands that a client sends, and their texts.
pub mod Parse
pub mod Help
mod Tests
use system_programming_cse.Common.{
  ℕ, zero, suc, ◌+◌, Bool, true, false, Option, none, some, List, [], ◌∷◌, ◌++◌, if◌then◌else◌, ltb,
  Text, codes, text_eq, length,
}
use system_programming_cse.Common.Strings.{ℤ, pos, negsuc, strtok, atoi}

-- `connection_type_t` is CONNECT or TRY_CONNECT.
pub data ConnectionType : Type 0 where
  connect try_connect : ConnectionType

-- `operation_type_t`; `no_operation` is NONE.
pub data OperationType : Type 0 where
  no_operation help list_files read_file write_file upload download archive_server : OperationType
  kill_server quit invalid_operation : OperationType

pub OperationType-discrete : Discrete OperationType
OperationType-discrete = hlevel

abbrev pub is_kill : OperationType → Bool
is_kill kill_server = true
is_kill o = false

pub record Command : Type 0 where
  pub operation_type : OperationType
  pub filename : Text
  pub line : ℤ
  pub payload : Text

-- `strcpy` into an array of `size` bytes, if there is a token: `none` is a write behind the array.
pub copy : ℕ → Option Text → Option Text
copy size none = some []
copy size (some t) = if ltb (length t) size then some t else none

abbrev blank : Text
blank = codes " "

-- The commands that take a file name and nothing else.
named : OperationType → Text → Option Command
named op rest = elim (copy 100 (strtok blank rest).0) [
  | none ↦ none
  | some f ↦ some (record { operation_type = op; filename = f; line = negsuc 0; payload = [] })
]

-- The commands that also take the working directory, which `getcwd` cuts off at 256 bytes.
located : OperationType → Option Text → Text → Option Command
located op cwd rest = elim (copy 100 (strtok blank rest).0) [
  | none ↦ none
  | some f ↦ elim (copy 256 cwd) [
    | none ↦ none
    | some d ↦ some (record { operation_type = op; filename = f; line = negsuc 0; payload = d })
  ]
]

plain : OperationType → Option Command
plain op = some (record { operation_type = op; filename = []; line = negsuc 0; payload = [] })

-- -1 if no number is given.
line_of : Option Text → ℤ
line_of none = negsuc 0
line_of (some t) = atoi t

read_command : Text → Option Command
unfolding line_of
read_command rest =
    let (name, more) = strtok blank rest in
    elim (copy 100 name) [
      | none ↦ none
      | some f ↦ some (record {
        operation_type = read_file;
        filename = f;
        line = line_of (strtok [] more).0;
        payload = [];
      })
    ]

write_command : Text → Option Command
unfolding line_of
write_command rest =
    let (name, more) = strtok blank rest in
    let (number, content) = strtok blank more in
    elim (copy 100 name) [
      | none ↦ none
      | some f ↦ elim (copy 256 (strtok (codes "\n") content).0) [
        | none ↦ none
        | some d ↦ some (record {
          operation_type = write_file;
          filename = f;
          line = line_of number;
          payload = d;
        })
      ]
    ]

-- The first word of a command, as the chain of `strcmp` reads it.
pub operation_of : Text → OperationType
operation_of t =
    if text_eq t (codes "help")
    then help
    else if text_eq t (codes "list")
    then list_files
    else if text_eq t (codes "readF")
    then read_file
    else if text_eq t (codes "writeT")
    then write_file
    else if text_eq t (codes "upload")
    then upload
    else if text_eq t (codes "download")
    then download
    else if text_eq t (codes "archServer")
    then archive_server
    else if text_eq t (codes "killServer")
    then kill_server
    else if text_eq t (codes "quit")
    then quit
    else invalid_operation

-- The branch of `parse_command` for an operation: `rest` is what follows the first word.
parse_operation : OperationType → Option Text → Text → Option Command
unfolding named located plain read_command write_command copy
parse_operation help cwd rest = named help rest
parse_operation read_file cwd rest = read_command rest
parse_operation write_file cwd rest = write_command rest
parse_operation upload cwd rest = located upload cwd rest
parse_operation download cwd rest = named download rest
parse_operation archive_server cwd rest = located archive_server cwd rest
parse_operation op cwd rest = plain op

-- `cwd` is what `getcwd` writes, if it succeeds. `none` is undefined behaviour: `strcmp` with the NULL
-- of an input without words, or a word that does not fit its array.
unfoldable pub parse_command : Option Text → Text → Option Command
unfolding operation_of parse_operation
parse_command cwd input =
    let (name, rest) = strtok blank input in
    elim name [ none ↦ none | some t ↦ parse_operation (operation_of t) cwd rest ]

-- 0, 1 or -1; the argument may be NULL.
pub connect_or_tryconnect : Option Text → ℤ
connect_or_tryconnect none = negsuc 0
connect_or_tryconnect (some t) =
    if text_eq t (codes "Connect")
    then pos 0
    else if text_eq t (codes "tryConnect")
    then pos 1
    else negsuc 0
