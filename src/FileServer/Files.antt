-- ===== src/FileServer/Files.antt =====
-- Midterm/server.c: the operations on the files of the server's directory.
pub mod Store
pub mod Lines
pub mod Transfers
mod Tests
use system_programming_cse.Common.{
  ℕ, zero, suc, ◌+◌, ◌-◌, ◌≡◌, ◌==◌, ◌&&◌, ◌||◌, not, Bool, true, false, Option, none, some, List,
  [], ◌∷◌, ◌++◌, if◌then◌else◌, ltb, leb, Text, codes, text_eq, length, take, is_some,
}
pub use system_programming_cse.Common.Disk.{Files, find, store, content_of}
use system_programming_cse.Common.Strings.{ℤ, pos, negsuc}

-- What the system grants while a request is served: opening a file to read and to write, memory,
-- reading a whole file, and how many bytes can be written (`none`: all).
pub record Calls : Type 0 where
  pub readable : Bool
  pub writable : Bool
  pub allocates : Bool
  pub reads_whole : Bool
  pub write_limit : Option ℕ

-- Every call succeeds.
abbrev pub generous : Calls
generous = record {
  readable = true;
  writable = true;
  allocates = true;
  reads_whole = true;
  write_limit = none;
}

-- `fgets` into an array of 1000 bytes: at most 999 bytes, and no further than the line break.
abbrev pub chunk : ℕ → Text → Text
chunk zero s = []
chunk (suc room) [] = []
chunk (suc room) (c ∷ s) = if c == b'\n' then c ∷ [] else c ∷ chunk room s

abbrev pub behind_chunk : ℕ → Text → Text
behind_chunk zero s = s
behind_chunk (suc room) [] = []
behind_chunk (suc room) (c ∷ s) = if c == b'\n' then s else behind_chunk room s

-- What `strlen`, `strcpy` and `strcat` see of a line: the bytes before its first NUL.
abbrev pub until_nul : Text → Text
until_nul [] = []
until_nul (c ∷ s) = if c == 0 then [] else c ∷ until_nul s

-- The lines that the calls of `fgets` return, as the string functions see them, on fuel.
chunks : ℕ → ℕ → Text → List Text
chunks zero room s = []
chunks (suc k) room [] = []
chunks (suc k) room (c ∷ s) =
    until_nul (chunk room (c ∷ s)) ∷ chunks k room (behind_chunk room (c ∷ s))

is_whole : ℤ → Bool
is_whole (pos n) = false
is_whole (negsuc n) = n == 0

is_line : ℤ → ℕ → Bool
is_line (pos n) current_line = n == current_line
is_line (negsuc n) current_line = false

joined : Option Text → Text → Text
joined none line = line
joined (some t) line = t ++ line

-- The loop of `read_file` over the lines; `none` is NULL.
read_loop : Bool → ℤ → ℕ → Option Text → List Text → Option Text
unfolding is_whole is_line joined
read_loop allocates line_number current_line result [] = result
read_loop allocates line_number current_line result (line ∷ lines) =
    let rest =
      read_loop allocates line_number (current_line + 1)
        (if is_whole line_number then some (joined result line) else result) lines in
    if is_line line_number current_line
    then (if allocates then some line else none)
    else if is_whole line_number && not allocates
    then none
    else rest

abbrev pub line_room : ℕ
line_room = 999

unfoldable pub read_file : Calls → Files → Text → ℤ → Option Text
unfolding read_loop chunks
read_file c fs filename line_number = elim (find filename fs) [
  | none ↦ none
  | some s ↦
      if c.readable
      then read_loop c.allocates line_number 1 none (chunks (length s + 1) line_room s)
      else none
]

-- The test of the loop in `write_to_file`, whose `fgets` into no array returns NULL at once.
pub is_behind_first : ℤ → Bool
is_behind_first (pos n) = ltb 1 n
is_behind_first (negsuc n) = false

-- What is written of a content.
unfoldable pub written : Calls → Text → Text
written c s = elim c.write_limit [ none ↦ s | some n ↦ take n s ]

-- Whether it returns 0, and the files. Mode "a+" creates the file and writes at its end only.
pub write_to_file : Calls → Files → Text → ℤ → Text → Bool × Files
unfolding is_behind_first written
write_to_file c fs filename line_number content =
    if not c.writable
    then (false, fs)
    else if is_behind_first line_number
    then (false, store filename (content_of filename fs) fs)
    else (true, store filename (content_of filename fs ++ written c (content ++ codes "\n")) fs)

-- Writing to a file that has just been created or cut to length 0.
transfer : Calls → Files → Text → Text → Bool × Files
unfolding written
transfer c fs filename s = (length (written c s) == length s, store filename (written c s) fs)

-- `client` is what can be read of the client's files, by path. The print of the content that was read is left
-- out: its array has no NUL at its end, so that the print reads behind it, which is undefined.
pub upload_file : Calls → (Text → Option Text) → Files → Text → Text → Bool × Files
unfolding transfer
upload_file c client fs filename client_dir =
    let server_filename = take 255 filename in
    if is_some (find server_filename fs)
    then (false, fs)
    else elim (client (take 255 (client_dir ++ b'/' ∷ filename))) [
      | none ↦ (false, fs)
      | some s ↦
          if c.readable && c.allocates && c.reads_whole && c.writable
          then transfer c fs server_filename s
          else (false, fs)
    ]

pub download_file : Calls → Files → Text → Bool × Files
unfolding transfer
download_file c fs filename = elim (find (take 255 filename) fs) [
  | none ↦ (false, fs)
  | some s ↦
      if c.readable && c.allocates && c.reads_whole && c.writable
      then transfer c fs filename s
      else (false, fs)
]

-- How the child that runs `tar` ends.
pub data Child : Type 0 where
  fork_fails : Child
  exits : ℕ → Child
  is_killed : Child

-- The value of `archive_server`.
unfoldable pub archive_server : Child → ℤ
archive_server fork_fails = negsuc 0
archive_server (exits zero) = pos 0
archive_server (exits (suc status)) = negsuc 0
archive_server is_killed = negsuc 1

list_entries : List Text → Text
list_entries [] = []
list_entries (name ∷ names) = name ++ (codes "\n" ++ list_entries names)

-- From the entries that `readdir` returns; `none` where the server exits, without a directory to read
-- or without memory.
unfoldable pub list : Calls → Option (List Text) → Option Text
unfolding list_entries
list c none = none
list c (some names) = if c.allocates then some (list_entries names) else none
