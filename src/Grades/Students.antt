-- ===== src/Grades/Students.antt =====
-- Homework1/hw1.h: the students of a file of grades, added, searched and sorted.
pub mod Lines
pub mod Order
pub mod Sorted
pub mod Search
mod Tests
use system_programming_cse.Common.{
  ℕ, zero, suc, ◌+◌, ◌-◌, Bool, true, false, ◌&&◌, ◌||◌, not, Option, none, some, List, [], ◌∷◌,
  ◌++◌, ◌==◌, if◌then◌else◌, ltb, leb, Text, codes, text_eq, length, take, drop,
}
use system_programming_cse.Common.Strings.{ℤ, pos, negsuc, strtok}
use system_programming_cse.Common.Options.{◌>>=◌}
use system_programming_cse.Common.Memory.{Cut, strtok_r}

abbrev pub space : Text
space = codes " "

abbrev pub newline : Text
newline = codes "\n"

-- `name` is an array of 100 bytes, `grade` one of 3.
pub record StudentGrade : Type 0 where
  pub name : Text
  pub grade : Text

pub data SortBy : Type 0 where
  by_name by_grade : SortBy

pub data SortOrder : Type 0 where
  ascending descending : SortOrder

-- Of the value of `strcmp` only the sign is used.
pub strcmp : Text → Text → ℤ
strcmp [] [] = pos 0
strcmp [] (y ∷ ys) = negsuc 0
strcmp (x ∷ xs) [] = pos 1
strcmp (x ∷ xs) (y ∷ ys) = if x == y then strcmp xs ys else if ltb x y then negsuc 0 else pos 1

abbrev pub negate : ℤ → ℤ
negate (pos zero) = pos 0
negate (pos (suc n)) = negsuc n
negate (negsuc n) = pos (suc n)

pub compare_by_name : StudentGrade → StudentGrade → ℤ
compare_by_name a b = strcmp a.name b.name

pub compare_by_grade : StudentGrade → StudentGrade → ℤ
compare_by_grade a b = strcmp a.grade b.grade

pub compare_by_name_desc : StudentGrade → StudentGrade → ℤ
unfolding compare_by_name
compare_by_name_desc a b = negate (compare_by_name a b)

pub compare_by_grade_desc : StudentGrade → StudentGrade → ℤ
unfolding compare_by_grade
compare_by_grade_desc a b = negate (compare_by_grade a b)

pub compare_function : SortBy → SortOrder → StudentGrade → StudentGrade → ℤ
unfolding compare_by_name compare_by_name_desc compare_by_grade compare_by_grade_desc
compare_function by_name ascending = compare_by_name
compare_function by_name descending = compare_by_name_desc
compare_function by_grade ascending = compare_by_grade
compare_function by_grade descending = compare_by_grade_desc

-- The copies into an element of `grades`: `none` is a write behind an array.
store_grade : ℕ → Text → Text → Text → Option StudentGrade
store_grade room name surname grade =
    if ltb (length name + 1 + length surname) 100 && ltb (length grade) 3 && ltb 0 room
    then some (record { name = name ++ (space ++ surname); grade = grade })
    else none

-- The condition of the inner loop of `sortAll`: a name, a surname and a grade, if there are all three.
pub record Entry : Type 0 where
  pub words : Option (Text × Text × Text)
  pub gone : Text
  pub rest : Text

read_grade : Text → Text → Cut → Option Entry
read_grade name surname c = elim c.found [
  | none ↦ some (record { words = none; gone = c.gone; rest = c.rest })
  | some grade ↦ some (record { words = some (name, surname, grade); gone = c.gone; rest = c.rest })
]

passed : Text → Entry → Entry
passed gone e = record e { gone = gone ++ e.gone }

read_surname : Text → Cut → Option Entry
unfolding read_grade passed
read_surname name c = elim c.found [
  | none ↦ some (record { words = none; gone = c.gone; rest = c.rest })
  | some surname ↦ do
    d ← strtok_r newline c.rest
    e ← read_grade name surname d
    some (passed c.gone e)
]

read_name : Cut → Option Entry
unfolding read_surname
read_name c = elim c.found [
  | none ↦ some (record { words = none; gone = c.gone; rest = c.rest })
  | some name ↦ do d ← strtok_r space c.rest; e ← read_surname name d; some (passed c.gone e)
]

pub read_entry : Text → Option Entry
unfolding read_name strtok_r
read_entry memory = do c ← strtok_r space memory; read_name c

-- The inner loop over the array, on fuel: the students, and the array afterwards. `room` is how many
-- elements of `grades` are left.
pub students_loop : ℕ → ℕ → Text → Option (List StudentGrade × Text)
unfolding read_entry store_grade
students_loop zero room memory = none
students_loop (suc k) room memory = do
  e ← read_entry memory
  elim e.words [
    | none ↦ some ([], e.gone ++ e.rest)
    | some (name, surname, grade) ↦ do
      g ← store_grade room name surname grade
      more ← students_loop k (room - 1) e.rest
      some (g ∷ more.0, e.gone ++ more.1)
  ]

abbrev pub buffer_size : ℕ
buffer_size = 1024

-- The loop over the reads, on fuel. `memory` holds the bytes of the array `buffer` before the first
-- read, which may be any; a read overwrites its start.
pub buffers_loop : ℕ → ℕ → Text → Text → Option (List StudentGrade)
unfolding students_loop
buffers_loop zero room content memory = none
buffers_loop (suc k) room [] memory = some []
buffers_loop (suc k) room (c ∷ content) memory =
    let data_read = take buffer_size (c ∷ content) in
    let array = data_read ++ drop (length data_read) memory in
    do
      here ← students_loop (length array + 1) room array
      more ← buffers_loop k (room - length here.0) (drop buffer_size (c ∷ content)) here.1
      some (here.0 ++ more)

pub printed : List StudentGrade → Text
printed [] = []
printed (g ∷ gs) = g.name ++ (space ++ (g.grade ++ (newline ++ printed gs)))

abbrev pub Compare : Type 0
Compare = StudentGrade → StudentGrade → ℤ

-- What `sortAll` writes for the content of a file that it can open, read and close; `qsort` is given.
pub sort_all :
    (Compare → List StudentGrade → List StudentGrade)
    → SortBy
    → SortOrder
    → Text
    → Text
    → Option Text
unfolding buffers_loop compare_function printed
sort_all qsort by order memory content = do
  grades ← buffers_loop (length content + 1) 1000 content memory
  some (codes "Sorted grades:\n" ++ printed (qsort (compare_function by order) grades))

-- The file after `addStudentGrade`, where all calls succeed; `none` is the exit of a line that does not
-- fit the buffer.
pub add_student_grade : Text → Text → Text → Option Text
add_student_grade name grade content =
    let line = name ++ (space ++ (grade ++ newline)) in
    if leb 1024 (length line) then none else some (content ++ line)

-- A line that was found.
pub found_line : Text → Option Text → Option Text
found_line full none = none
found_line full (some grade) = some (full ++ (space ++ (grade ++ newline)))

-- The comparison of a line's name. `none` is the use of a NULL token or a write behind
-- `student_fullname`; `next` is what the other lines give.
match_name : Text → Option Text → Option Text → Option Text → Option Text → Option Text
unfolding found_line
match_name name none last grade next = none
match_name name (some f) none grade next = none
match_name name (some f) (some l) grade next =
    let full = f ++ (space ++ l) in
    if not (ltb (length full) 100)
    then none
    else if text_eq full name
    then found_line full grade
    else next

match_line : Text → Text → Option Text → Option Text
unfolding match_name strtok
match_line name line next =
    let (first, r) = strtok space line in
    let (last, t) = strtok space r in match_name name first last (strtok space t).0 next

-- The loop of `searchStudent` over the lines of its buffer, on fuel.
pub search_loop : ℕ → Text → Text → Option Text
unfolding match_line strtok
search_loop zero name s = none
search_loop (suc k) name s =
    let (line, more) = strtok newline s in
    let next = search_loop k name more in
    elim line [ none ↦ some (codes "Student not found.\n") | some l ↦ match_line name l next ]

-- A file that fills the buffer makes the final NUL a write behind it.
pub search_student : Text → Text → Option Text
unfolding search_loop
search_student name content =
    if ltb (length content) buffer_size then search_loop (length content + 1) name content else none

-- `displayAll` writes the file as it is read.
pub display_loop : ℕ → Text → Text
display_loop zero s = []
display_loop (suc k) [] = []
display_loop (suc k) (c ∷ s) = take buffer_size (c ∷ s) ++ display_loop k (drop buffer_size (c ∷ s))
