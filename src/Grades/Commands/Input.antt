-- ===== src/Grades/Commands/Input.antt =====
-- The commands of Homework1/hw1.h that do not ask leave the input alone.
use system_programming_cse.Common.{
  ◌≡◌, refl, ap, ◌∙◌, ◌≢◌, false, Option-cases, inl, inr, Option, none, some, arith, Text, codes,
  text_eq, text_eq_apart,
}
use system_programming_cse.Common.Strings.{strtok}
use system_programming_cse.Common.Disk.{Files}
use system_programming_cse.Grades.Students.{space}
use system_programming_cse.Grades.Commands.{
  Env, Done, done, shown, create_file, add_command, search_command, show_command, first_command,
  some_command, execute_word, execute_command,
}

-- A command that does not ask leaves the input alone.
module _ (input : Text) where
  abbrev pub input_after : Option Done → Text
  input_after none = input
  input_after (some d) = d.input

  show_command_keeps :
      (name : Option Text) (files : Files) → input_after (show_command name input files) ≡ input
  unfolding show_command shown done
  show_command_keeps name files = ground arith

  first_command_keeps :
      (name : Option Text) (files : Files) → input_after (first_command name input files) ≡ input
  unfolding first_command shown done
  first_command_keeps name files = ground arith

  create_file_keeps :
      (name : Option Text) (files : Files) → input_after (create_file name input files) ≡ input
  unfolding create_file done
  create_file_keeps none files = refl
  create_file_keeps (some name) files = refl

  add_command_keeps :
      (a b c : Option Text) (files : Files) → input_after (add_command a b c input files) ≡ input
  unfolding add_command done
  add_command_keeps (some a) (some b) (some c) files = ground arith
  add_command_keeps (some a) (some b) none files = refl
  add_command_keeps (some a) none c files = refl
  add_command_keeps none b c files = refl

  search_command_keeps :
      (a b : Option Text) (files : Files) → input_after (search_command a b input files) ≡ input
  unfolding search_command done
  search_command_keeps (some a) (some b) files = ground arith
  search_command_keeps (some a) none files = refl
  search_command_keeps none b files = refl

  some_command_keeps :
      (a b c : Option Text) (files : Files) → input_after (some_command a b c input files) ≡ input
  unfolding some_command shown done
  some_command_keeps (some a) (some b) c files = ground arith
  some_command_keeps (some a) none c files = refl
  some_command_keeps none b c files = refl

  execute_word_keeps :
      (env : Env) (t rest : Text) (files : Files)
      → text_eq t (codes "sortAll") ≡ false
      → input_after (execute_word env t rest input files) ≡ input
  unfolding execute_word
  execute_word_keeps env t rest files other =
      let (a, more) = strtok space rest in
      let (b, last) = strtok space more in
      ground (
        arith,
        other,
        create_file_keeps a files,
        add_command_keeps a b (strtok space last).0 files,
        search_command_keeps a b files,
        some_command_keeps a b (strtok space last).0 files,
        show_command_keeps a files,
        first_command_keeps a files,
      )

pub execute_command_keeps :
    (env : Env) (command input : Text) (files : Files)
    → (strtok space command).0 ≢ some (codes "sortAll")
    → input_after input (execute_command env command input files) ≡ input
unfolding execute_command
execute_command_keeps env command input files other = elim (Option-cases (strtok space command).0) [
  | inl e ↦ rw (e, input_after) refl
  | inr (t, e) ↦
      let apart = text_eq_apart t (codes "sortAll") (λ same. other (e ∙ ap some same)) in
      rw (e, input_after) (execute_word_keeps input env t (strtok space command).1 files apart)
]
