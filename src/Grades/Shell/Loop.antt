-- ===== src/Grades/Shell/Loop.antt =====
-- The shell of Homework1/hw1.c on a script: lines that end with the line exit.
use system_programming_cse.Common.{
  ℕ, zero, suc, ◌<◌, ◌≡◌, refl, ◌∙◌, ◌≢◌, none, some, List, [], ◌∷◌, ◌++◌, append_assoc, map, arith,
  Text, codes, text_eq_apart, length,
}
use system_programming_cse.Common.Strings.{strtok, Clean}
use system_programming_cse.Common.Disk.{Files}
use system_programming_cse.Grades.Students.{space, newline}
use system_programming_cse.Grades.Commands.{Env}
use system_programming_cse.Grades.Commands.Input.{execute_command_keeps}
use system_programming_cse.Grades.Shell.{
  State, read_loop, read_line, run_child, run_command, with_input, shell,
}

read_loop-line :
    (room : ℕ) (line rest : Text)
    → Clean newline line
    → length line < room
    → read_loop room (line ++ b'\n' ∷ rest) ≡ (line, rest)
unfolding read_loop
read_loop-line zero line rest clean fits = absurd omega arith
read_loop-line (suc room) [] rest clean fits = refl
read_loop-line (suc room) (c ∷ line) rest (apart, clean) fits =
    ground (arith, apart, read_loop-line room line rest clean (omega arith))

module _ (env : Env) where
  -- A child that crashes reads nothing more.
  abbrev pub CrashesQuietly : Type 0
  CrashesQuietly =
      (command input : Text) (files : Files) → (env.crash command input files).input ≡ input

  run_child_keeps :
      (command input : Text) (files : Files)
      → CrashesQuietly
      → (strtok space command).0 ≢ some (codes "sortAll")
      → (run_child env command input files).input ≡ input
  unfolding run_child
  run_child_keeps command input files quiet other =
      let kept = execute_command_keeps env command input files other in
      ground (arith, kept, quiet command input files)

  -- A line that the shell runs and that asks nothing.
  abbrev pub IsPlain : Text → Type 0
  IsPlain line =
      Clean newline line
      × length line < 1023
      × line ≢ codes "exit"
      × (strtok space line).0 ≢ some (codes "sortAll")

-- Lines, each with what the system does for it.
abbrev pub Script : Type 0
Script = List (Env × Text)

abbrev pub ArePlain : Script → Type 0
ArePlain [] = Unit {0}
ArePlain ((env, line) ∷ script) = CrashesQuietly env × IsPlain env line × ArePlain script

abbrev pub text_of : Script → Text
text_of [] = []
text_of ((env, line) ∷ script) = line ++ b'\n' ∷ text_of script

-- The commands one by one, and nothing of the loop.
pub run_script : Script → Text → State → State
run_script [] tail s = s
run_script ((env, line) ∷ script) tail s =
    run_script script tail (run_command env line (with_input (text_of script ++ tail) s))

abbrev pub exited : Text → State → State
exited rest s = record {
  input = rest;
  files = s.files;
  log = s.log ++ codes "exit";
  output = s.output;
}

read_line-line :
    (line rest : Text) {input : Text}
    → Clean newline line
    → length line < 1023
    → input ≡ line ++ b'\n' ∷ rest
    → read_line input ≡ (line, rest)
unfolding read_line
read_line-line line rest clean fits e = rw e (read_loop-line 1023 line rest clean fits)

run_command-input :
    (env : Env) (line input : Text) (s : State)
    → CrashesQuietly env
    → IsPlain env line
    → (run_command env line (with_input input s)).input ≡ input
unfolding run_command with_input
run_command-input env line input s quiet (clean, fits, other, ask) =
    run_child_keeps env line input s.files quiet ask

-- On lines that end with the line exit, where no line is exit, reaches 1023 bytes or begins with
-- sortAll (whose child reads answers from the same input), and crashed children read nothing, the
-- shell ends within as many rounds as there are lines and one more: it has run the commands of the
-- lines one after another, each with the input that follows its line, has logged the exit, and
-- leaves what follows the exit in the input.
pub shell-run_script :
    (script : Script) (last : Env) (rest : Text) (s : State)
    → ArePlain script
    → s.input ≡ text_of script ++ (codes "exit" ++ b'\n' ∷ rest)
    → shell (map (λ p. p.0) script ++ last ∷ []) s
      ≡ some (exited rest (run_script script (codes "exit" ++ b'\n' ∷ rest) s))
unfolding shell run_script
shell-run_script [] last rest s plain e =
    rw (read_line-line (codes "exit") rest (refl, (refl, (refl, (refl, tt)))) (omega arith) e) refl
shell-run_script ((env, line) ∷ script) last rest s (quiet, plain, more) e =
    let (clean, fits, other, ask) = plain in
    let tail = codes "exit" ++ b'\n' ∷ rest in
    let next = run_command env line (with_input (text_of script ++ tail) s) in
    let got =
      read_line-line line (text_of script ++ tail) clean fits (e ∙ append_assoc line _ tail) in
    let after = run_command-input env line (text_of script ++ tail) s quiet plain in
    rw (got, text_eq_apart line (codes "exit") other)
      (shell-run_script script last rest next more after)

abbrev pub AllCrashQuietly : List Env → Type 0
AllCrashQuietly [] = Unit {0}
AllCrashQuietly (env ∷ envs) = CrashesQuietly env × AllCrashQuietly envs

-- At the end of the input the shell does not end, in any number of rounds, if crashed children read
-- nothing: `readLine` returns the empty line again and again.
pub shell_at_end :
    (envs : List Env) (s : State) → AllCrashQuietly envs → s.input ≡ [] → shell envs s ≡ none
unfolding shell read_line strtok
shell_at_end [] s quiet e = refl
shell_at_end (env ∷ envs) s (quiet, more) e =
    let kept = run_child_keeps env [] [] s.files quiet (λ h. cc) in
    let rest = shell_at_end envs (run_command env [] (with_input [] s)) more kept in
    rw (e, rest) refl
