-- ===== src/Grades.antt =====
-- Homework1/hw1.h: what the program prints of a file of grades.
pub mod First
pub mod Page
pub mod Students
pub mod Commands
pub mod Shell
mod Tests
use system_programming_cse.Common.{
  ℕ, zero, suc, ◌+◌, ◌-◌, ◌*◌, ◌^◌, ◌&&◌, Bool, true, false, Option, none, some, List, [], ◌∷◌,
  ◌++◌, ◌==◌, if◌then◌else◌, ltb, leb, Text, codes, length, take, drop,
}
use system_programming_cse.Common.Strings.{ℤ, pos, negsuc}

-- `buffer` is an array of 1024 bytes; a `read` from a file fills it, or returns what is left.
abbrev pub buffer_size : ℕ
buffer_size = 1024

-- The loop of `displayFirst5` over the bytes of a buffer: `lines_read`, and what is written of it.
pub scan_first : ℕ → Text → ℕ × Text
scan_first lines_read [] = (lines_read, [])
scan_first lines_read (c ∷ buffer) =
    let lines = if c == b'\n' then lines_read + 1 else lines_read in
    let (n, written) = scan_first lines buffer in
    if (c == b'\n')
    then (if leb 5 lines then (lines, c ∷ []) else (n, c ∷ written))
    else (n, c ∷ written)

-- The loop over the buffers, on fuel.
pub first_loop : ℕ → ℕ → Text → Text
unfolding scan_first
first_loop zero lines_read s = []
first_loop (suc k) lines_read [] = []
first_loop (suc k) lines_read (c ∷ s) =
    let (n, written) = scan_first lines_read (take buffer_size (c ∷ s)) in
    let rest = first_loop k n (drop buffer_size (c ∷ s)) in
    if ltb lines_read 5 then written ++ rest else []

-- `none` is the exit where the file cannot be opened or closed.
pub display_first5 : Bool → Text → Option Text
unfolding first_loop
display_first5 granted content =
    if granted then some (first_loop (length content + 1) 0 content) else none

-- The loop of `displayPage` over the bytes of a buffer that looks for the page: `lines_read`, and what
-- is added to `offset`.
pub find_offset : ℕ → ℕ → ℕ → Text → ℕ × ℕ
find_offset target lines_read i [] = (lines_read, 0)
find_offset target lines_read i (c ∷ buffer) =
    let lines = if c == b'\n' then lines_read + 1 else lines_read in
    let rest = find_offset target lines (i + 1) buffer in
    if leb target lines then (lines, i + 1) else rest

-- `lines_read` and `offset` where the page begins; `none` is the end of the file.
pub seek_loop : ℕ → ℕ → ℕ → ℕ → Text → Option (ℕ × ℕ)
unfolding find_offset
seek_loop zero target lines_read offset s = none
seek_loop (suc k) target lines_read offset [] =
    if ltb lines_read target then none else some (lines_read, offset)
seek_loop (suc k) target lines_read offset (c ∷ s) =
    let (lines, more) = find_offset target lines_read 0 (take buffer_size (c ∷ s)) in
    let rest = seek_loop k target lines (offset + more) (drop buffer_size (c ∷ s)) in
    if ltb lines_read target then rest else some (lines_read, offset)

-- The loop that writes the bytes of a buffer.
pub show_buffer : ℕ → ℕ → Text → ℕ × Text
show_buffer target lines_read [] = (lines_read, [])
show_buffer target lines_read (c ∷ buffer) =
    let lines = if c == b'\n' then lines_read + 1 else lines_read in
    let (n, written) = show_buffer target lines buffer in
    if leb target lines then (lines, []) else (n, c ∷ written)

pub show_loop : ℕ → ℕ → ℕ → Text → Text
unfolding show_buffer
show_loop zero target lines_read s = []
show_loop (suc k) target lines_read [] = []
show_loop (suc k) target lines_read (c ∷ s) =
    let (n, written) = show_buffer target lines_read (take buffer_size (c ∷ s)) in
    let rest = show_loop k target n (drop buffer_size (c ∷ s)) in
    if leb target n then written else written ++ rest

-- What is written where the page was found, or at the end of the file.
show_from : ℕ → Text → Option (ℕ × ℕ) → Text
unfolding show_loop
show_from target content none = codes "End of file reached.\n"
show_from target content (some (lines_read, offset)) =
    show_loop (length content + 1) target lines_read (drop offset content)

-- From the page that begins behind some line breaks to the one that ends before others.
show_page : Bool → Text → ℕ → ℕ → Option Text
unfolding seek_loop show_from
show_page granted content begins ends =
    if granted
    then some (show_from ends content (seek_loop (suc (suc (length content))) begins 0 0 content))
    else none

-- The products are `int`s: `page_number` is 1 at least, and `page_number * num_of_entries` is smaller
-- than 2 ^ 31.
pub display_page : Bool → Text → ℕ → ℕ → Option Text
unfolding show_page
display_page granted content num_of_entries page_number =
    show_page granted content ((page_number - 1) * num_of_entries) (page_number * num_of_entries)

abbrev above_zero : ℤ → ℕ
above_zero (pos n) = n
above_zero (negsuc n) = 0

abbrev times : ℤ → ℤ → ℤ
times (pos m) (pos n) = pos (m * n)
times (pos zero) (negsuc n) = pos 0
times (pos (suc m)) (negsuc n) = negsuc (suc m * suc n - 1)
times (negsuc m) (pos zero) = pos 0
times (negsuc m) (pos (suc n)) = negsuc (suc m * suc n - 1)
times (negsuc m) (negsuc n) = pos (suc m * suc n)

abbrev before : ℤ → ℤ
before (pos zero) = negsuc 0
before (pos (suc n)) = pos n
before (negsuc n) = negsuc (suc n)

-- An `int` of 32 bits.
abbrev is_int : ℤ → Bool
is_int (pos n) = ltb n (2 ^ 31)
is_int (negsuc n) = ltb n (2 ^ 31)

-- `displayPage` for all arguments: a target below 0 is reached at once, like 0. The outer `none` is an
-- overflow.
pub display_page_int : Bool → Text → ℤ → ℤ → Option (Option Text)
unfolding show_page
display_page_int granted content num_of_entries page_number =
    let begins = times (before page_number) num_of_entries in
    let ends = times page_number num_of_entries in
    if is_int (before page_number) && is_int begins && is_int ends
    then some (show_page granted content (above_zero begins) (above_zero ends))
    else none
