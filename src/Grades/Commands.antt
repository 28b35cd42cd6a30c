-- ===== src/Grades/Commands.antt =====
-- Homework1/hw1.h: the commands of the shell.
pub mod Input
use system_programming_cse.Common.{
  ℕ, zero, suc, ◌+◌, ◌-◌, Bool, true, false, Option, none, some, List, [], ◌∷◌, ◌++◌, ◌==◌,
  if◌then◌else◌, ltb, is_some, Text, codes, text_eq, length, take, drop,
}
use system_programming_cse.Common.Strings.{ℤ, pos, negsuc, strtok, atoi, decimal}
use system_programming_cse.Common.Disk.{Files, find, store, content_of}
use system_programming_cse.Grades.{display_first5, display_page_int}
use system_programming_cse.Grades.Students.{
  StudentGrade, Compare, SortBy, SortOrder, by_name, by_grade, ascending, descending, space,
  newline, sort_all, add_student_grade, search_student, display_loop,
}

-- What a child leaves: its exit status, what it wrote, the input and the files.
pub record Done : Type 0 where
  pub status : ℕ
  pub output : Text
  pub input : Text
  pub files : Files

-- `qsort`, what lies in the arrays `buffer` of `sortAll` and `choiceStr` (and behind that one) before they are
-- read into, what undefined behaviour does to a child, and the ids of the processes.
pub record Env : Type 0 where
  pub qsort : Compare → List StudentGrade → List StudentGrade
  pub buffer_memory : Text
  pub choice_memory : Text
  pub crash : Text → Text → Files → Done
  pub parent_pid : ℕ
  pub child_pid : ℕ

done : ℕ → Text → Text → Files → Option Done
done status output input files =
    some (record { status = status; output = output; input = input; files = files })

-- A function that opens a file, writes, and exits with 1 if it cannot.
shown : Text → Files → Option Text → Option Done
unfolding done
shown input files none = done 1 [] input files
shown input files (some text) = done 0 text input files

info : Text
info =
    codes "gtuStudentGrades grades.txt -> File Creation\n"
    ++ codes "addStudentGrade \"Name Surname\" \"AA\" -> Add Student Grade\n"
    ++ codes "searchStudent \"Name Surname\" -> Search Student Grades\n"
    ++ codes "sortAll \"grades.txt\" -> Sort All Grades\n"
    ++ codes "showAll \"grades.txt\" -> Show All Grades\n"
    ++ codes "listGrades \"grades.txt\" -> List First 5 Entries\n"
    ++ codes "listSome \"numOfEntries\" \"pageNumber\" \"grades.txt\" -> List Specific Entries\n"

-- `createFile` leaves a file that exists.
create_file : Option Text → Text → Files → Option Done
unfolding done info
create_file none input files = done 0 info input files
create_file (some name) input files =
    done 0 [] input (if is_some (find name files) then files else store name [] files)

abbrev grades_file : Text
grades_file = codes "grades.txt"

-- A NULL word is undefined behaviour in `snprintf`.
add_command : Option Text → Option Text → Option Text → Text → Files → Option Done
unfolding done
add_command (some name) (some surname) (some grade) input files =
    elim (add_student_grade (take 99 (name ++ (space ++ surname))) grade
      (content_of grades_file files)) [
        -- The file was opened, and so created, before the line turned out to be too long.
        | none ↦ done 1 [] input (store grades_file (content_of grades_file files) files)
        | some content ↦ done 0 [] input (store grades_file content files)
      ]
add_command _ _ _ input files = none

search_command : Option Text → Option Text → Text → Files → Option Done
unfolding done
search_command (some name) (some surname) input files = elim (find grades_file files) [
  | none ↦ done 0 [] input files
  | some content ↦ elim (search_student (take 255 (name ++ (space ++ surname))) content) [
    | none ↦ none
    | some text ↦ done 0 text input files
  ]
]
search_command _ _ input files = none

-- `read` of a choice into an array of two bytes, and its `atoi`.
choice_of : Text → Text → ℤ
choice_of memory input = let answer = take 2 input in atoi (answer ++ drop (length answer) memory)

chosen_key : ℤ → SortBy × Text
chosen_key (pos n) =
    if n == 1
    then (by_name, [])
    else if n == 2
    then (by_grade, [])
    else (by_name, codes "Invalid choice. Defaulting to sorting by name.\n")
chosen_key (negsuc n) = (by_name, codes "Invalid choice. Defaulting to sorting by name.\n")

chosen_order : ℤ → SortOrder × Text
chosen_order (pos n) =
    if n == 1
    then (ascending, [])
    else if n == 2
    then (descending, [])
    else (ascending, codes "Invalid choice. Defaulting to ascending order.\n")
chosen_order (negsuc n) = (ascending, codes "Invalid choice. Defaulting to ascending order.\n")

announced : SortBy → SortOrder → Text
announced by order =
    codes "Sorting by "
    ++ (elim by [ by_name ↦ codes "name" | by_grade ↦ codes "grade" ])
    ++ codes " in "
    ++ (elim order [ ascending ↦ codes "ascending" | descending ↦ codes "descending" ])
    ++ codes " order...\n"

-- The file of a command: NULL is none.
file_at : Option Text → Files → Option Text
file_at none files = none
file_at (some name) files = find name files

-- The standard output is taken to be written in the order of the calls.
sort_command : Env → Option Text → Text → Files → Option Done
unfolding done choice_of chosen_key chosen_order announced file_at
sort_command env filename input files =
    let (by, said) = chosen_key (choice_of env.choice_memory input) in
    let (order, told) = chosen_order (choice_of env.choice_memory (drop 2 input)) in
    let asked =
      codes "Enter 1 for sorting by name or 2 for sorting by grade: "
      ++ (said
          ++ (codes "Enter 1 for ascending order or 2 for descending order: "
              ++ (told ++ announced by order))) in
    elim (file_at filename files) [
      | none ↦ done 1 asked (drop 4 input) files
      | some content ↦ elim (sort_all env.qsort by order env.buffer_memory content) [
        | none ↦ none
        | some text ↦ done 0 (asked ++ text) (drop 4 input) files
      ]
    ]

show_command : Option Text → Text → Files → Option Done
unfolding shown file_at
show_command filename input files = shown input files (elim (file_at filename files) [
  | none ↦ none
  | some content ↦ some (display_loop (length content + 1) content)
])

first_command : Option Text → Text → Files → Option Done
unfolding shown file_at
first_command filename input files =
    shown input files
      (elim (file_at filename files) [ none ↦ none | some content ↦ display_first5 true content ])

-- `atoi` of NULL is undefined behaviour.
some_command : Option Text → Option Text → Option Text → Text → Files → Option Done
unfolding shown file_at
some_command (some entries) (some page) filename input files = elim (file_at filename files) [
  | none ↦ shown input files none
  | some content ↦ elim (display_page_int true content (atoi entries) (atoi page)) [
    | none ↦ none
    | some text ↦ shown input files text
  ]
]
some_command _ _ _ input files = none

-- The chain of `strcmp` in `executeCommand`: `t` is the first word, `rest` what follows it. The message of
-- an invalid command shows its first word, since `strtok` has cut the command behind it.
execute_word : Env → Text → Text → Text → Files → Option Done
unfolding done create_file add_command search_command sort_command show_command first_command
    some_command
execute_word env t rest input files =
    let (a, more) = strtok space rest in
    let (b, last) = strtok space more in
    let c = (strtok space last).0 in
    if text_eq t (codes "gtuStudentGrades")
    then create_file a input files
    else if text_eq t (codes "addStudentGrade")
    then add_command a b c input files
    else if text_eq t (codes "searchStudent")
    then search_command a b input files
    else if text_eq t (codes "sortAll")
    then sort_command env a input files
    else if text_eq t (codes "showAll")
    then show_command a input files
    else if text_eq t (codes "listGrades")
    then first_command a input files
    else if text_eq t (codes "listSome")
    then some_command a b c input files
    else done 0 (codes "Invalid command: " ++ (t ++ newline)) input files

-- `none` is undefined behaviour: `strcmp` with the NULL of a command without words, and that of its
-- branches.
pub execute_command : Env → Text → Text → Files → Option Done
unfolding execute_word strtok
execute_command env command input files =
    let (word, rest) = strtok space command in
    elim word [ none ↦ none | some t ↦ execute_word env t rest input files ]
