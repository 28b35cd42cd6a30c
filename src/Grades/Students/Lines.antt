-- ===== src/Grades/Students/Lines.antt =====
-- Lines of students, as `addStudentGrade` writes them and `sortAll` reads them.
use system_programming_cse.Common.{
  ℕ, zero, suc, ◌+◌, ◌-◌, ◌*◌, ◌<◌, ◌≤◌, ◌≡◌, refl, sym, ◌∙◌, ap, Option, some, List, [], ◌∷◌, ◌++◌,
  map, append_assoc, arith, Text, length, length-append, take, drop, take_all, drop_all, append-nil,
}
use system_programming_cse.Common.Strings.{Clean}
use system_programming_cse.Common.Options.{◌>>=◌}
use system_programming_cse.Common.Memory.{strtok_r, strtok_r-word}
use system_programming_cse.Grades.Students.{
  StudentGrade, read_entry, read_name, read_surname, read_grade, passed, store_grade, students_loop,
  buffers_loop, buffer_size, space, newline,
}

-- No NUL, space or line break.
abbrev pub white : Text
white = 0 ∷ b' ' ∷ b'\n' ∷ []

abbrev pub IsWord : Text → Type 0
IsWord [] = ⊥
IsWord (c ∷ s) = Clean white (c ∷ s)

pub record Student : Type 0 where
  pub first : Text
  pub last : Text
  pub mark : Text

abbrev pub full_name : Student → Text
full_name e = e.first ++ (space ++ e.last)

abbrev pub grade_of : Student → StudentGrade
grade_of e = record { name = full_name e; grade = e.mark }

-- The line of each student, one behind the other.
abbrev pub file_of : List Student → Text
file_of [] = []
file_of (e ∷ es) = e.first ++ b' ' ∷ (e.last ++ b' ' ∷ (e.mark ++ b'\n' ∷ file_of es))

-- Words that fit the arrays of `StudentGrade`.
pub record Fits (e : Student) : Type 0 where
  pub first_word : IsWord e.first
  pub last_word : IsWord e.last
  pub mark_word : IsWord e.mark
  pub name_fits : length e.first + 1 + length e.last < 100
  pub mark_fits : length e.mark < 3

abbrev pub AllFit : List Student → Type 0
AllFit [] = Unit {0}
AllFit (e ∷ es) = Fits e × AllFit es

Clean-space : (s : Text) → Clean white s → Clean (0 ∷ space) s
Clean-space [] h = tt
Clean-space (c ∷ s) (h, t) = (ground arith, Clean-space s t)

Clean-newline : (s : Text) → Clean white s → Clean (0 ∷ newline) s
Clean-newline [] h = tt
Clean-newline (c ∷ s) (h, t) = (ground arith, Clean-newline s t)

strtok_r-space :
    (w r : Text)
    → IsWord w
    → strtok_r space (w ++ b' ' ∷ r)
      ≡ some (record { found = some w; gone = w ++ 0 ∷ []; rest = r })
strtok_r-space [] r h = absurd h
strtok_r-space (c ∷ s) r h = strtok_r-word space c s b' ' r (Clean-space (c ∷ s) h) (λ e. cc) refl

strtok_r-newline :
    (w r : Text)
    → IsWord w
    → strtok_r newline (w ++ b'\n' ∷ r)
      ≡ some (record { found = some w; gone = w ++ 0 ∷ []; rest = r })
strtok_r-newline [] r h = absurd h
strtok_r-newline (c ∷ s) r h =
    strtok_r-word newline c s b'\n' r (Clean-newline (c ∷ s) h) (λ e. cc) refl

-- The first line of an array.
read_entry-line :
    (e : Student) (r : Text)
    → Fits e
    → (gone : Text) × (read_entry (e.first ++ b' ' ∷ (e.last ++ b' ' ∷ (e.mark ++ b'\n' ∷ r)))
        ≡ some (record { words = some (e.first, e.last, e.mark); gone = gone; rest = r }))
unfolding read_entry read_name read_surname read_grade passed
read_entry-line e r f = (
  (e.first ++ 0 ∷ []) ++ ((e.last ++ 0 ∷ []) ++ (e.mark ++ 0 ∷ [])),
  rw
      (
        strtok_r-space e.first (e.last ++ b' ' ∷ (e.mark ++ b'\n' ∷ r)) f.first_word,
        read_entry,
        ◌>>=◌,
      )
      (rw (strtok_r-space e.last (e.mark ++ b'\n' ∷ r) f.last_word, ◌>>=◌)
        (rw (strtok_r-newline e.mark r f.mark_word, ◌>>=◌) refl)),
)

pub file_of_cons :
    (e : Student) (es : List Student) (m : Text)
    → file_of (e ∷ es) ++ m
      ≡ e.first ++ b' ' ∷ (e.last ++ b' ' ∷ (e.mark ++ b'\n' ∷ (file_of es ++ m)))
file_of_cons e es m = simp append_assoc

store_grade-Fits :
    (room : ℕ) (e : Student)
    → Fits e
    → 0 < room
    → store_grade room e.first e.last e.mark ≡ some (grade_of e)
unfolding store_grade
store_grade-Fits room e f h = ground arith

-- Reading what was written: the students of an array that holds their lines and a NUL behind them.
pub students_loop-file_of :
    (k room : ℕ) (es : List Student) (m : Text)
    → length es < k
    → length es ≤ room
    → AllFit es
    → (after : Text) × (students_loop k room (file_of es ++ 0 ∷ m) ≡ some (map grade_of es, after))
unfolding students_loop
students_loop-file_of zero room es m h b f = absurd (omega (arith, h))
students_loop-file_of (suc k) room [] m h b f = (0 ∷ m, refl)
students_loop-file_of (suc k) room (e ∷ es) m h b (fits, f) =
    let r = file_of es ++ 0 ∷ m in
    let (gone, here) = read_entry-line e r fits in
    let (after, more) = students_loop-file_of k (room - 1) es m (omega arith) (omega arith) f in
    (
      gone ++ after,
      rw (file_of_cons e es (0 ∷ m)) (
          rw (here, students_loop, ◌>>=◌)
            (rw (store_grade-Fits room e fits (omega arith), ◌>>=◌) (rw (more, ◌>>=◌) refl))),
    )

-- Every line has three bytes at least.
pub length-file_of : (es : List Student) → 3 * length es ≤ length (file_of es)
length-file_of [] = omega arith
length-file_of (e ∷ es) = omega (
  arith,
  length-file_of es,
  length-append e.first (b' ' ∷ (e.last ++ b' ' ∷ (e.mark ++ b'\n' ∷ file_of es))),
  length-append e.last (b' ' ∷ (e.mark ++ b'\n' ∷ file_of es)),
  length-append e.mark (b'\n' ∷ file_of es),
)

-- One read is enough for a content that leaves a byte of the buffer free.
buffers_loop_once :
    (k : ℕ) (content memory m : Text) (gs : List StudentGrade) (after : Text)
    → length content < k
    → length content < buffer_size
    → drop (length content) memory ≡ 0 ∷ m
    → (content ≡ [] → gs ≡ [])
    → students_loop (length (content ++ 0 ∷ m) + 1) 1000 (content ++ 0 ∷ m) ≡ some (gs, after)
    → buffers_loop k 1000 content memory ≡ some gs
unfolding buffers_loop
buffers_loop_once zero content memory m gs after h fits nul empty e = absurd (omega (arith, h))
buffers_loop_once (suc k) [] memory m gs after h fits nul empty e = ap some (sym (empty refl))
buffers_loop_once (suc zero) (c ∷ s) memory m gs after h fits nul empty e =
    absurd (omega (arith, h))
buffers_loop_once (suc (suc k)) (c ∷ s) memory m gs after h fits nul empty e =
    let whole = take_all buffer_size (c ∷ s) (omega arith) in
    let nothing = drop_all buffer_size (c ∷ s) (omega arith) in
    let array = take buffer_size (c ∷ s) ++ drop (length (take buffer_size (c ∷ s))) memory in
    let same : array ≡ c ∷ s ++ 0 ∷ m =
      ap (λ (t : Text). t ++ drop (length t) memory) whole ∙ ap (λ t. c ∷ s ++ t) nul in
    let here : students_loop (length array + 1) 1000 array ≡ some (gs, after) =
      ap (λ (t : Text). students_loop (length t + 1) 1000 t) same ∙ e in
    ap
      (λ (o : Option (List StudentGrade × Text)). o >>= λ (x : List StudentGrade × Text).
        buffers_loop (suc k) (1000 - length x.0) (drop buffer_size (c ∷ s)) x.1 >>= λ more.
        some (x.0 ++ more))
      here
    ∙ ap
        (λ (t : Text).
          buffers_loop (suc k) (1000 - length gs) t after >>= λ more. some (gs ++ more))
        nothing
    ∙ ap some (append-nil gs)

no_students : (es : List Student) → AllFit es → file_of es ≡ [] → map grade_of es ≡ []
no_students [] f e = refl
no_students (e ∷ es) (fits, f) h = absurd (
    omega (
      arith,
      ap length h,
      length-append e.first (b' ' ∷ (e.last ++ b' ' ∷ (e.mark ++ b'\n' ∷ file_of es))),
    ))

-- A file of students that leaves a byte of the buffer free, where that byte is a NUL, is read as these
-- students.
pub buffers_loop-file_of :
    (es : List Student) (memory m : Text)
    → AllFit es
    → length (file_of es) < buffer_size
    → drop (length (file_of es)) memory ≡ 0 ∷ m
    → buffers_loop (length (file_of es) + 1) 1000 (file_of es) memory ≡ some (map grade_of es)
buffers_loop-file_of es memory m f fits nul =
    let array = file_of es ++ 0 ∷ m in
    let small = length-file_of es in
    let (after, e) =
      students_loop-file_of (length array + 1) 1000 es m
        (omega (arith, small, length-append (file_of es) (0 ∷ m))) (omega (arith, small)) f in
    buffers_loop_once (length (file_of es) + 1) (file_of es) memory m (map grade_of es) after
      (omega arith) fits nul (no_students es f) e
