-- ===== src/Grades/Shell/Tests.antt =====
-- A script that creates a file and adds a student to another one, and an input that only ends.
use system_programming_cse.Common.{◌≡◌, refl, none, some, [], ◌∷◌, ◌++◌, map, arith, codes}
use system_programming_cse.Common.Strings.{strtok}
use system_programming_cse.Grades.Commands.{Env}
use system_programming_cse.Grades.Shell.{State, shell}
use system_programming_cse.Grades.Shell.Loop.{
  Script, ArePlain, text_of, run_script, exited, shell-run_script, shell_at_end,
}

abbrev quiet_env : Env
quiet_env = record {
  qsort = λ cmp l. l;
  buffer_memory = [];
  choice_memory = [];
  crash = λ command input files. record { status = 139; output = []; input = input; files = files };
  parent_pid = 40;
  child_pid = 41;
}

abbrev two_commands : Script
two_commands =
    (quiet_env, codes "gtuStudentGrades new.txt")
    ∷ (quiet_env, codes "addStudentGrade Ali Su CB")
    ∷ []

abbrev before_two : State
before_two = record {
  input = text_of two_commands ++ (codes "exit" ++ codes "\nmore");
  files = [];
  log = [];
  output = [];
}

abbrev at_end : State
at_end = record { input = []; files = []; log = []; output = [] }

two_commands-ArePlain : ArePlain two_commands
unfolding strtok
two_commands-ArePlain = (
  λ command input files. refl,
  (ground arith, omega arith, λ h. cc, λ h. cc),
  (λ command input files. refl, (ground arith, omega arith, λ h. cc, λ h. cc), tt),
)

shell-run_script_example :
    shell (map (λ p. p.0) two_commands ++ quiet_env ∷ []) before_two
    ≡ some (exited (codes "more") (run_script two_commands (codes "exit\nmore") before_two))
shell-run_script_example =
    shell-run_script two_commands quiet_env (codes "more") before_two two_commands-ArePlain refl

shell_at_end_example : shell (quiet_env ∷ quiet_env ∷ []) at_end ≡ none
shell_at_end_example =
    shell_at_end (quiet_env ∷ quiet_env ∷ []) at_end
      (λ command input files. refl, (λ command input files. refl, tt)) refl
