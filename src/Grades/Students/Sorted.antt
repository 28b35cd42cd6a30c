-- ===== src/Grades/Students/Sorted.antt =====
-- `sortAll` writes the students of its file in order.
use system_programming_cse.Common.{
  ◌<◌, ◌≡◌, refl, some, List, [], ◌∷◌, ◌++◌, map, Text, codes, length, drop,
}
use mathlib.Core.List.{Perm}
use system_programming_cse.Common.Options.{◌>>=◌}
use system_programming_cse.Grades.Students.{
  StudentGrade, SortBy, SortOrder, Compare, compare_function, sort_all, printed, buffer_size,
}
use system_programming_cse.Grades.Students.Lines.{
  Student, AllFit, file_of, grade_of, buffers_loop-file_of,
}
use system_programming_cse.Grades.Students.Order.{IsOrder, NotAbove, compare_function-IsOrder}

-- Each student is not above the next one.
abbrev pub IsSorted : Compare → List StudentGrade → Type 0
IsSorted cmp [] = Unit {0}
IsSorted cmp (x ∷ []) = Unit {0}
IsSorted cmp (x ∷ y ∷ l) = NotAbove cmp x y × IsSorted cmp (y ∷ l)

abbrev pub Qsort : Type 0
Qsort = Compare → List StudentGrade → List StudentGrade

-- What the C standard says of `qsort`: it moves the elements, and orders them where the comparison is
-- an order.
pub record Sorts (qsort : Qsort) : Type 0 where
  pub moves : (cmp : Compare) (l : List StudentGrade) → Perm (qsort cmp l) l
  pub orders : (cmp : Compare) (l : List StudentGrade) → IsOrder cmp → IsSorted cmp (qsort cmp l)

-- Where a file of students leaves a byte of the buffer free and that byte happens to be a NUL,
-- `sortAll` writes each of its students once, in the order that was asked for.
pub sort_all-IsSorted :
    (qsort : Qsort) (by : SortBy) (order : SortOrder) (es : List Student) (memory m : Text)
    → Sorts qsort
    → AllFit es
    → length (file_of es) < buffer_size
    → drop (length (file_of es)) memory ≡ 0 ∷ m
    → (gs : List StudentGrade) × (sort_all qsort by order memory (file_of es)
        ≡ some (codes "Sorted grades:\n" ++ printed gs))
      × Perm gs (map grade_of es)
      × IsSorted (compare_function by order) gs
unfolding sort_all
sort_all-IsSorted qsort by order es memory m sorts f fits nul =
    let cmp = compare_function by order in
    let gs = map grade_of es in
    (
      qsort cmp gs,
      rw (buffers_loop-file_of es memory m f fits nul, sort_all, ◌>>=◌) refl,
      sorts.moves cmp gs,
      sorts.orders cmp gs (compare_function-IsOrder by order),
    )
