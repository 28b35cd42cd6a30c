-- ===== src/Grades/Shell.antt =====
-- Homework1/hw1.h and Homework1/hw1.c: reading a line, the child of a command, and the loop of the shell.
pub mod Loop
mod Tests
use system_programming_cse.Common.{
  ℕ, zero, suc, ◌+◌, ◌-◌, Bool, true, false, Option, none, some, List, [], ◌∷◌, ◌++◌, ◌==◌,
  if◌then◌else◌, ltb, is_some, Text, codes, text_eq, length, take, drop,
}
use system_programming_cse.Common.Strings.{ℤ, pos, negsuc, strtok, atoi, decimal}
use system_programming_cse.Common.Disk.{Files, find, store, content_of}
use system_programming_cse.Grades.{display_first5, display_page_int}
use system_programming_cse.Grades.Commands.{Done, Env, execute_command}
use system_programming_cse.Grades.Students.{
  StudentGrade, Compare, SortBy, SortOrder, by_name, by_grade, ascending, descending, space,
  newline, sort_all, add_student_grade, search_student, display_loop,
}

-- The loop of `readLine`: the bytes that are left in the line, and the input.
read_loop : ℕ → Text → Text × Text
read_loop zero s = ([], s)
read_loop (suc room) [] = ([], [])
read_loop (suc room) (c ∷ s) =
    let (line, rest) = read_loop room s in if c == b'\n' then ([], s) else (c ∷ line, rest)

-- The line, and the rest of the input, which holds no NUL.
unfoldable pub read_line : Text → Text × Text
unfolding read_loop
read_line input = read_loop 1023 input

pub record State : Type 0 where
  pub input : Text
  pub files : Files
  pub log : Text
  pub output : Text

-- The child of one command, whatever it does.
run_child : Env → Text → Text → Files → Done
run_child env command input files = elim (execute_command env command input files) [
  | none ↦ env.crash command input files
  | some d ↦ d
]

-- What the parent writes into its log.
log_entry : Env → Text → ℕ → Text
log_entry env command status =
    codes "Parent process (PID: "
    ++ (decimal env.parent_pid
        ++ (codes ") waited for child process (PID: "
            ++ (decimal env.child_pid
                ++ (codes ") with exit status: "
                    ++ (decimal status
                        ++ (newline ++ (codes "Command executed: " ++ (command ++ newline))))))))

-- A child runs a command, and the parent waits for it and logs it.
pub run_command : Env → Text → State → State
unfolding run_child log_entry
run_command env command s =
    let d = run_child env command s.input s.files in
    record {
      input = d.input;
      files = d.files;
      log = s.log ++ log_entry env command d.status;
      output = s.output ++ d.output;
    }

with_input : Text → State → State
with_input input s = record { input = input; files = s.files; log = s.log; output = s.output }

-- The loop of `main`, on fuel: one `Env` for each round. `none` means that it has not ended; `fork`
-- succeeds.
pub shell : List Env → State → Option State
unfolding read_line run_command with_input
shell [] s = none
shell (env ∷ envs) s =
    let (line, rest) = read_line s.input in
    let next = shell envs (run_command env line (with_input rest s)) in
    if text_eq line (codes "exit")
    then some (record { input = rest; files = s.files; log = s.log ++ line; output = s.output })
    else next
