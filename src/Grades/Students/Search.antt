-- ===== src/Grades/Students/Search.antt =====
-- `searchStudent` finds what `addStudentGrade` has written.
use system_programming_cse.Common.{
  ℕ, zero, suc, ◌+◌, ◌<◌, ◌≡◌, refl, sym, ◌∙◌, ap, Bool, true, false, Option, none, some, List, [],
  ◌∷◌, ◌++◌, append_assoc, if◌then◌else◌, ltb, leb, arith, Text, codes, text_eq, length,
  length-append,
}
use system_programming_cse.Common.Strings.{Clean, strtok, strtok-word, strtok_last}
use system_programming_cse.Grades.Students.{
  add_student_grade, search_student, search_loop, match_line, match_name, found_line, buffer_size,
  space, newline,
}
use system_programming_cse.Grades.Students.Lines.{
  Student, Fits, AllFit, IsWord, white, file_of, full_name, length-file_of,
}

-- The line of the first student with a name.
abbrev pub first_line : Text → List Student → Text
first_line name [] = codes "Student not found.\n"
first_line name (e ∷ es) =
    if text_eq (full_name e) name
    then full_name e ++ (space ++ (e.mark ++ newline))
    else first_line name es

abbrev line_text : Student → Text
line_text e = e.first ++ b' ' ∷ (e.last ++ b' ' ∷ e.mark)

Clean-append : (ds s t : Text) → Clean ds s → Clean ds t → Clean ds (s ++ t)
Clean-append ds [] t h k = k
Clean-append ds (c ∷ s) t (e, h) k = (e, Clean-append ds s t h k)

Clean-newline : (s : Text) → Clean white s → Clean newline s
Clean-newline [] h = tt
Clean-newline (c ∷ s) (h, t) = (ground arith, Clean-newline s t)

Clean-space : (s : Text) → Clean white s → Clean space s
Clean-space [] h = tt
Clean-space (c ∷ s) (h, t) = (ground arith, Clean-space s t)

strtok-space : (w r : Text) → IsWord w → strtok space (w ++ b' ' ∷ r) ≡ (some w, r)
strtok-space [] r h = absurd h
strtok-space (c ∷ s) r h = strtok-word space c s b' ' r (Clean-space (c ∷ s) h) refl

strtok_word : (w : Text) → IsWord w → (strtok space w).0 ≡ some w
strtok_word [] h = absurd h
strtok_word (c ∷ s) h = strtok_last space c s (Clean-space (c ∷ s) h)

strtok-newline :
    (w more r : Text)
    → IsWord w
    → Clean newline more
    → strtok newline ((w ++ more) ++ b'\n' ∷ r) ≡ (some (w ++ more), r)
strtok-newline [] more r h k = absurd h
strtok-newline (c ∷ s) more r h k =
    strtok-word newline c (s ++ more) b'\n' r
      (Clean-append newline (c ∷ s) more (Clean-newline (c ∷ s) h) k) refl

-- A word has no line break in it.
IsWord-newline : (w : Text) → IsWord w → Clean newline w
IsWord-newline [] h = absurd h
IsWord-newline (c ∷ s) h = Clean-newline (c ∷ s) h

strtok-line :
    (e : Student) (r : Text)
    → Fits e
    → strtok newline (e.first ++ b' ' ∷ (e.last ++ b' ' ∷ (e.mark ++ b'\n' ∷ r)))
      ≡ (some (line_text e), r)
strtok-line e r f =
    let more = b' ' ∷ (e.last ++ b' ' ∷ e.mark) in
    let clean : Clean newline more = (
      refl,
      Clean-append newline e.last (b' ' ∷ e.mark) (IsWord-newline e.last f.last_word)
          (refl, IsWord-newline e.mark f.mark_word),
    ) in
    let regroup : e.first ++ b' ' ∷ (e.last ++ b' ' ∷ (e.mark ++ b'\n' ∷ r))
        ≡ (e.first ++ more) ++ b'\n' ∷ r =
      simp append_assoc in
    rw regroup (strtok-newline e.first more r f.first_word clean)

match_line-line_text :
    (name : Text) (e : Student) (next : Option Text)
    → Fits e
    → match_line name (line_text e) next ≡ (
        if text_eq (full_name e) name
        then some (full_name e ++ (space ++ (e.mark ++ newline)))
        else next)
unfolding match_line match_name found_line
match_line-line_text name e next f =
    let long = length-append e.first (space ++ e.last) in
    let short : ltb (length (full_name e)) 100 ≡ true = ground (arith, long, f.name_fits) in
    rw (strtok-space e.first (e.last ++ b' ' ∷ e.mark) f.first_word, match_line)
      (rw (strtok-space e.last e.mark f.last_word)
        (rw (short, match_name) (rw (strtok_word e.mark f.mark_word) refl)))

-- On a file of students the search returns the first of that name.
search_loop-file_of :
    (k : ℕ) (name : Text) (es : List Student)
    → length es < k
    → AllFit es
    → search_loop k name (file_of es) ≡ some (first_line name es)
unfolding search_loop
search_loop-file_of zero name es h f = absurd (omega (arith, h))
search_loop-file_of (suc k) name [] h f = refl
search_loop-file_of (suc k) name (e ∷ es) h (fits, f) =
    let rest = search_loop-file_of k name es (omega arith) f in
    ap
      (λ (p : Option Text × Text). elim p.0 as (λ o. Option Text) [
        | none ↦ some (codes "Student not found.\n")
        | some l ↦ match_line name l (search_loop k name p.1)
      ])
      (strtok-line e (file_of es) fits)
    ∙ match_line-line_text name e (search_loop k name (file_of es)) fits
    ∙ ap
        (λ o.
          if text_eq (full_name e) name
          then some (full_name e ++ (space ++ (e.mark ++ newline)))
          else o)
        rest
    ∙ some_if (text_eq (full_name e) name) (full_name e ++ (space ++ (e.mark ++ newline)))
        (first_line name es)
  where
    some_if : (b : Bool) (s t : Text) → (if b then some s else some t) ≡ some (if b then s else t)
    some_if true s t = refl
    some_if false s t = refl

file_of-append :
    (es : List Student) (e : Student)
    → file_of (es ++ e ∷ []) ≡ file_of es ++ (full_name e ++ (space ++ (e.mark ++ newline)))
file_of-append [] e = simp append_assoc
file_of-append (d ∷ es) e =
    ap (λ r. d.first ++ b' ' ∷ (d.last ++ b' ' ∷ (d.mark ++ b'\n' ∷ r))) (file_of-append es e)
    ∙ simp append_assoc

AllFit-append : (es : List Student) (e : Student) → AllFit es → Fits e → AllFit (es ++ e ∷ [])
AllFit-append [] e f fits = (fits, tt)
AllFit-append (d ∷ es) e (h, f) fits = (h, AllFit-append es e f fits)

-- After `addStudentGrade`, as long as the file stays below 1024 bytes, `searchStudent` writes the first
-- line with the name that it is asked for, of the old students and the new one.
pub add-search :
    (name : Text) (es : List Student) (e : Student)
    → AllFit es
    → Fits e
    → length (file_of (es ++ e ∷ [])) < buffer_size
    → (content : Text) × (add_student_grade (full_name e) e.mark (file_of es) ≡ some content)
      × (search_student name content ≡ some (first_line name (es ++ e ∷ [])))
unfolding add_student_grade search_student
add-search name es e f fits small =
    let all = es ++ e ∷ [] in
    let line = full_name e ++ (space ++ (e.mark ++ newline)) in
    let whole = file_of-append es e in
    let room : leb 1024 (length line) ≡ false =
      ground (arith, ap length whole, length-append (file_of es) line) in
    let fine : ltb (length (file_of all)) buffer_size ≡ true = ground arith in
    (
      file_of all,
      rw (room, add_student_grade) (ap some (sym whole)),
      rw (fine, search_student)
          (search_loop-file_of (length (file_of all) + 1) name all
            (omega (arith, length-file_of all)) (AllFit-append es e f fits)),
    )
