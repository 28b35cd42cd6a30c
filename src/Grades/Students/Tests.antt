-- ===== src/Grades/Students/Tests.antt =====
-- A file of two students, and an insertion sort in the place of `qsort`.
use system_programming_cse.Common.{
  ◌≡◌, refl, Bool-cases, inl, inr, some, List, [], ◌∷◌, ◌++◌, map, if◌then◌else◌, arith, Text,
  codes,
}
use mathlib.Core.List.{Perm}
use mathlib.Core.List.Perm
use system_programming_cse.Grades.Students.{
  StudentGrade, Compare, by_name, by_grade, ascending, descending, sort_all, search_student,
  add_student_grade, printed, compare_function, strcmp,
}
use system_programming_cse.Grades.Students.Lines.{Student, AllFit, grade_of}
use system_programming_cse.Grades.Students.Order.{IsOrder, is_above}
use system_programming_cse.Grades.Students.Sorted.{Qsort, Sorts, IsSorted, sort_all-IsSorted}
use system_programming_cse.Grades.Students.Search.{add-search}

insert : Compare → StudentGrade → List StudentGrade → List StudentGrade
insert cmp x [] = x ∷ []
insert cmp x (y ∷ l) = if is_above (cmp x y) then y ∷ insert cmp x l else x ∷ y ∷ l

insertion_sort : Qsort
unfolding insert
insertion_sort cmp [] = []
insertion_sort cmp (x ∷ l) = insert cmp x (insertion_sort cmp l)

insert-perm :
    (cmp : Compare) (x : StudentGrade) (l : List StudentGrade) → Perm (insert cmp x l) (x ∷ l)
unfolding insert
insert-perm cmp x [] = Perm.rfl
insert-perm cmp x (y ∷ l) = elim (Bool-cases (is_above (cmp x y))) [
  | inl e ↦ rw (e, insert) (Perm.trans (Perm.cons y (insert-perm cmp x l)) (Perm.swap x y l))
  | inr e ↦ rw (e, insert) Perm.rfl
]

insertion_sort-perm : (cmp : Compare) (l : List StudentGrade) → Perm (insertion_sort cmp l) l
unfolding insertion_sort
insertion_sort-perm cmp [] = Perm.rfl
insertion_sort-perm cmp (x ∷ l) =
    Perm.trans (insert-perm cmp x (insertion_sort cmp l)) (Perm.cons x (insertion_sort-perm cmp l))

insert-IsSorted :
    (cmp : Compare) (x : StudentGrade) (l : List StudentGrade)
    → IsOrder cmp
    → IsSorted cmp l
    → IsSorted cmp (insert cmp x l)
unfolding insert
insert-IsSorted cmp x [] o h = tt
insert-IsSorted cmp x (y ∷ []) o h = elim (Bool-cases (is_above (cmp x y))) [
  | inl e ↦ rw (e, insert) (o.total x y e, tt)
  | inr e ↦ rw (e, insert) (e, tt)
]
insert-IsSorted cmp x (y ∷ z ∷ l) o (h, t) = elim (Bool-cases (is_above (cmp x y))) [
  | inl e ↦ elim (Bool-cases (is_above (cmp x z))) [
    | inl f ↦ let rest = insert-IsSorted cmp x (z ∷ l) o t in rw (e, f, insert) (h, rw f at rest)
    | inr f ↦ rw (e, f, insert) (o.total x y e, (f, t))
  ]
  | inr e ↦ rw (e, insert) (e, (h, t))
]

insertion_sort-IsSorted :
    (cmp : Compare) (l : List StudentGrade) → IsOrder cmp → IsSorted cmp (insertion_sort cmp l)
unfolding insertion_sort
insertion_sort-IsSorted cmp [] o = tt
insertion_sort-IsSorted cmp (x ∷ l) o =
    insert-IsSorted cmp x (insertion_sort cmp l) o (insertion_sort-IsSorted cmp l o)

insertion_sort-Sorts : Sorts insertion_sort
insertion_sort-Sorts = record {
  moves = insertion_sort-perm;
  orders = λ cmp l o. insertion_sort-IsSorted cmp l o;
}

abbrev two : List Student
two =
    record { first = codes "Zoe"; last = codes "Ak"; mark = codes "AA" }
    ∷ record { first = codes "Ali"; last = codes "Su"; mark = codes "CB" }
    ∷ []

abbrev text_of_two : Text
text_of_two = codes "Zoe Ak AA\nAli Su CB\n"

abbrev twenty_bytes : Text
twenty_bytes = codes "12345678901234567890"

sorted_by_name :
    sort_all insertion_sort by_name ascending (twenty_bytes ++ 0 ∷ []) text_of_two
    ≡ some (codes "Sorted grades:\nAli Su CB\nZoe Ak AA\n")
unfolding sort_all insertion_sort strcmp
sorted_by_name = refl

-- The bytes that lie behind the file in memory are read too.
stale_bytes :
    sort_all insertion_sort by_grade descending
      (twenty_bytes ++ codes "Eve Xy FF\n" ++ 0 ∷ [])
      text_of_two
    ≡ some (codes "Sorted grades:\nEve Xy FF\nAli Su CB\nZoe Ak AA\n")
unfolding sort_all insertion_sort strcmp
stale_bytes = refl

two-AllFit : AllFit two
two-AllFit = ground arith

sort_all-IsSorted_example :
    (gs : List StudentGrade) × (sort_all insertion_sort by_name ascending
        (twenty_bytes ++ 0 ∷ [])
        text_of_two
      ≡ some (codes "Sorted grades:\n" ++ printed gs))
    × Perm gs (map grade_of two)
    × IsSorted (compare_function by_name ascending) gs
sort_all-IsSorted_example =
    sort_all-IsSorted insertion_sort by_name ascending two (twenty_bytes ++ 0 ∷ []) []
      insertion_sort-Sorts two-AllFit (omega arith) refl

abbrev newcomer : Student
newcomer = record { first = codes "Can"; last = codes "Er"; mark = codes "BA" }

add-search_example :
    (content : Text) × (add_student_grade (codes "Can Er") (codes "BA") text_of_two ≡ some content)
    × (search_student (codes "Can Er") content ≡ some (codes "Can Er BA\n"))
add-search_example =
    add-search (codes "Can Er") two newcomer two-AllFit (ground arith) (omega arith)
