-- ===== src/CopyTool/Walk/Descriptors.antt =====
-- Every descriptor that the manager opens is handed to the workers or closed.
use system_programming_cse.Common.{
  ℕ, suc, ◌+◌, ◌≡◌, refl, sym, ◌∙◌, ap, ap₂, Bool, true, false, if_lem, Option, none, some, List,
  [], ◌∷◌, ◌++◌, Text, arith, length, length-append,
}
use system_programming_cse.CopyTool.Buffer.{Pair}
use system_programming_cse.CopyTool.Walk.{
  Dir, unreadable, listing, Entries, nil, cons, Entry, directory, regular, fifo, other, Action,
  open_read, open_write, close, put, count_file, is_link, join, regular_actions, fifo_actions,
  directory_actions, process_directory, process_entries, process_entry,
}

-- The descriptors that the calls of `open` return, in their order.
abbrev pub opened : List Action → List ℕ
opened [] = []
opened (open_read p (some s) ∷ xs) = s ∷ opened xs
opened (open_write p (some d) ∷ xs) = d ∷ opened xs
opened (_ ∷ xs) = opened xs

-- The descriptors that are closed or put into the buffer.
abbrev pub disposed : List Action → List ℕ
disposed [] = []
disposed (close s ∷ xs) = s ∷ disposed xs
disposed (put (s, d) ∷ xs) = s ∷ d ∷ disposed xs
disposed (_ ∷ xs) = disposed xs

-- The pairs that are put into the buffer.
abbrev pub puts : List Action → List Pair
puts [] = []
puts (put p ∷ xs) = p ∷ puts xs
puts (_ ∷ xs) = puts xs

abbrev pub files_counted : List Action → ℕ
files_counted [] = 0
files_counted (count_file ∷ xs) = suc (files_counted xs)
files_counted (_ ∷ xs) = files_counted xs

opened-append : (xs ys : List Action) → opened (xs ++ ys) ≡ opened xs ++ opened ys
opened-append [] ys = refl
opened-append (open_read p (some s) ∷ xs) ys = ap (λ r. s ∷ r) (opened-append xs ys)
opened-append (open_write p (some d) ∷ xs) ys = ap (λ r. d ∷ r) (opened-append xs ys)
opened-append (a ∷ xs) ys = opened-append xs ys

disposed-append : (xs ys : List Action) → disposed (xs ++ ys) ≡ disposed xs ++ disposed ys
disposed-append [] ys = refl
disposed-append (close s ∷ xs) ys = ap (λ r. s ∷ r) (disposed-append xs ys)
disposed-append (put (s, d) ∷ xs) ys = ap (λ r. s ∷ d ∷ r) (disposed-append xs ys)
disposed-append (a ∷ xs) ys = disposed-append xs ys

pub puts-append : (xs ys : List Action) → puts (xs ++ ys) ≡ puts xs ++ puts ys
puts-append [] ys = refl
puts-append (put p ∷ xs) ys = ap (λ r. p ∷ r) (puts-append xs ys)
puts-append (a ∷ xs) ys = puts-append xs ys

pub files_counted-append :
    (xs ys : List Action) → files_counted (xs ++ ys) ≡ files_counted xs + files_counted ys
files_counted-append [] ys = omega arith
files_counted-append (count_file ∷ xs) ys = omega (arith, files_counted-append xs ys)
files_counted-append (a ∷ xs) ys = files_counted-append xs ys

-- No descriptor is left over, and xs many files are counted xs pairs are put.
abbrev pub IsBalanced : List Action → Type 0
IsBalanced xs = (opened xs ≡ disposed xs) × (files_counted xs ≡ length (puts xs))

IsBalanced-append : (xs ys : List Action) → IsBalanced xs → IsBalanced ys → IsBalanced (xs ++ ys)
IsBalanced-append xs ys (p, q) (p', q') = (
  opened-append xs ys ∙ ap₂ (λ x y. x ++ y) p p' ∙ sym (disposed-append xs ys),
  files_counted-append xs ys
      ∙ ap₂ (λ x y. x + y) q q'
      ∙ sym (length-append (puts xs) (puts ys))
      ∙ ap length (sym (puts-append xs ys)),
)

regular-IsBalanced : (src dest : Text) (s d : Option ℕ) → IsBalanced (regular_actions src dest s d)
unfolding regular_actions
regular-IsBalanced src dest none d = (refl, refl)
regular-IsBalanced src dest (some s) none = (refl, refl)
regular-IsBalanced src dest (some s) (some d) = (refl, refl)

fifo-IsBalanced : (dest : Text) (made : Bool) → IsBalanced (fifo_actions dest made)
unfolding fifo_actions
fifo-IsBalanced dest true = (refl, refl)
fifo-IsBalanced dest false = (refl, refl)

directory-IsBalanced :
    (dest : Text) (made : Bool) (inner : List Action)
    → IsBalanced inner
    → IsBalanced (directory_actions dest made inner)
unfolding directory_actions
directory-IsBalanced dest true inner h = h
directory-IsBalanced dest false inner h = (refl, refl)

module _ (path_max : ℕ) where
  mutual
    unfolding process_directory process_entries process_entry

    IsBalanced-dir :
        (d : Dir) (src dest : Text) → IsBalanced (process_directory path_max d src dest)
    IsBalanced-dir unreadable src dest = (refl, refl)
    IsBalanced-dir (listing es) src dest = IsBalanced-entries es src dest

    IsBalanced-entries :
        (es : Entries) (src dest : Text) → IsBalanced (process_entries path_max es src dest)
    IsBalanced-entries nil src dest = (refl, refl)
    IsBalanced-entries (cons e es) src dest =
        IsBalanced-append (process_entry path_max e src dest) (process_entries path_max es src dest)
          (IsBalanced-entry e src dest) (IsBalanced-entries es src dest)

    IsBalanced-entry :
        (e : Entry) (src dest : Text) → IsBalanced (process_entry path_max e src dest)
    IsBalanced-entry (directory name made d) src dest =
        if_lem IsBalanced (is_link name) (refl, refl)
          (directory-IsBalanced (join path_max dest name) made
            (process_directory path_max d (join path_max src name) (join path_max dest name))
            (IsBalanced-dir d (join path_max src name) (join path_max dest name)))
    IsBalanced-entry (regular name s d) src dest =
        if_lem IsBalanced (is_link name) (refl, refl)
          (regular-IsBalanced (join path_max src name) (join path_max dest name) s d)
    IsBalanced-entry (fifo name made) src dest =
        if_lem IsBalanced (is_link name) (refl, refl)
          (fifo-IsBalanced (join path_max dest name) made)
    IsBalanced-entry (other name) src dest = (refl, refl)

-- For every directory the manager disposes of the descriptors that it opens, each once and in the
-- order in which it opened them, and it counts as many regular files as it puts pairs.
pub process_directory-IsBalanced :
    (path_max : ℕ) (d : Dir) (src dest : Text) → IsBalanced (process_directory path_max d src dest)
process_directory-IsBalanced = IsBalanced-dir
