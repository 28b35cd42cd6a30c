-- ===== src/FileServer/Files/Lines.antt =====
-- What `read_file` reads: the whole content, in pieces.
use system_programming_cse.Common.{
  ℕ, zero, suc, ◌+◌, ◌<◌, ◌≤◌, ◌≡◌, refl, sym, ◌∙◌, ap, ap₂, true, none, some, List, [], ◌∷◌, ◌++◌,
  append-nil, append_assoc, arith, Text, length, length-append, codes, get_elem?,
}
use system_programming_cse.Common.Strings.{pos, negsuc, Clean}
use system_programming_cse.FileServer.Files.{
  Files, Calls, line_room, find, until_nul, chunk, behind_chunk, chunks, read_loop, read_file,
  is_whole, is_line, joined,
}

abbrev pub concat : List Text → Text
concat [] = []
concat (t ∷ ts) = t ++ concat ts

-- `fgets` splits what is left.
chunk-behind_chunk : (room : ℕ) (s : Text) → chunk room s ++ behind_chunk room s ≡ s
chunk-behind_chunk zero s = refl
chunk-behind_chunk (suc room) [] = refl
chunk-behind_chunk (suc room) (c ∷ s) = ground (arith, chunk-behind_chunk room s)

-- Each piece takes a byte at least.
length-behind_chunk : (room : ℕ) (s : Text) → length (behind_chunk room s) ≤ length s
length-behind_chunk zero s = omega arith
length-behind_chunk (suc room) [] = omega arith
length-behind_chunk (suc room) (c ∷ s) = ground (arith, length-behind_chunk room s)

length-behind_first : (room c : ℕ) (s : Text) → length (behind_chunk (suc room) (c ∷ s)) ≤ length s
length-behind_first room c s = ground (arith, length-behind_chunk room s)

-- Without a NUL the string functions see the whole line.
until_nul-Clean : (s : Text) → Clean (0 ∷ []) s → until_nul s ≡ s
until_nul-Clean [] h = refl
until_nul-Clean (c ∷ s) h = ground (arith, h, until_nul-Clean s)

chunk-Clean : (room : ℕ) (s : Text) → Clean (0 ∷ []) s → Clean (0 ∷ []) (chunk room s)
chunk-Clean zero s h = tt
chunk-Clean (suc room) [] h = tt
chunk-Clean (suc room) (c ∷ s) h = ground (arith, h, chunk-Clean room s)

behind_chunk-Clean : (room : ℕ) (s : Text) → Clean (0 ∷ []) s → Clean (0 ∷ []) (behind_chunk room s)
behind_chunk-Clean zero s h = h
behind_chunk-Clean (suc room) [] h = tt
behind_chunk-Clean (suc room) (c ∷ s) h = ground (arith, h, behind_chunk-Clean room s)

-- With fuel for each byte, the pieces are the whole text, if it holds no NUL.
concat-chunks :
    (k room : ℕ) (s : Text) → length s < k → Clean (0 ∷ []) s → concat (chunks k (suc room) s) ≡ s
unfolding chunks
concat-chunks zero room s h z = elim h [ ]
concat-chunks (suc k) room [] h z = refl
concat-chunks (suc k) room (c ∷ s) h z =
    let less = length-behind_first room c s in
    let rest =
      concat-chunks k room (behind_chunk (suc room) (c ∷ s)) (omega arith)
        (behind_chunk-Clean (suc room) (c ∷ s) z) in
    let whole = until_nul-Clean (chunk (suc room) (c ∷ s)) (chunk-Clean (suc room) (c ∷ s) z) in
    ap₂ (λ l t. l ++ t) whole rest ∙ chunk-behind_chunk (suc room) (c ∷ s)

-- Without a line number the loop joins all lines.
read_loop_all :
    (n : ℕ) (t : Text) (lines : List Text)
    → read_loop true (negsuc 0) n (some t) lines ≡ some (t ++ concat lines)
unfolding read_loop is_whole is_line joined
read_loop_all n t [] = ap some (sym (append-nil t))
read_loop_all n t (line ∷ lines) =
    read_loop_all (n + 1) (t ++ line) lines ∙ ap some (append_assoc t line (concat lines))

read_pieces :
    (k b : ℕ) (s : Text)
    → length (b ∷ s) < k
    → Clean (0 ∷ []) (b ∷ s)
    → read_loop true (negsuc 0) 1 none (chunks k line_room (b ∷ s)) ≡ some (b ∷ s)
unfolding chunks read_loop is_whole is_line joined
read_pieces zero b s h z = elim h [ ]
read_pieces (suc k) b s h z =
    read_loop_all 2 (until_nul (chunk line_room (b ∷ s)))
      (chunks k line_room (behind_chunk line_room (b ∷ s)))
    ∙ ap some (concat-chunks (suc k) 998 (b ∷ s) h z)

-- A file that is not empty and holds no NUL byte is read whole without a line number, however long its
-- lines are, where it can be opened and there is memory.
pub read_file_whole :
    (c : Calls) (fs : Files) (filename : Text) (b : ℕ) (s : Text)
    → c.readable ≡ true
    → c.allocates ≡ true
    → find filename fs ≡ some (b ∷ s)
    → Clean (0 ∷ []) (b ∷ s)
    → read_file c fs filename (negsuc 0) ≡ some (b ∷ s)
unfolding read_file
read_file_whole c fs filename b s readable allocates found z =
    rw (found, readable, allocates, read_file)
      (read_pieces (length (b ∷ s) + 1) b s (omega arith) z)

-- The lines of a file, each with the line break behind it.
abbrev pub ends : List Text → List Text
ends [] = []
ends (w ∷ ws) = (w ++ b'\n' ∷ []) ∷ ends ws

-- No line is longer than 998 bytes or holds a line break or a NUL.
abbrev pub Short : List Text → Type 0
Short [] = Unit {0}
Short (w ∷ ws) = (length w < line_room) × Clean (codes "\n") w × Clean (0 ∷ []) w × Short ws

chunk-short :
    (room : ℕ) (w r : Text)
    → length w < room
    → Clean (codes "\n") w
    → (chunk room (w ++ b'\n' ∷ r) ≡ w ++ b'\n' ∷ []) × (behind_chunk room (w ++ b'\n' ∷ r) ≡ r)
chunk-short zero w r h e = elim h [ ]
chunk-short (suc room) [] r h e = (refl, refl)
chunk-short (suc room) (c ∷ w) r h e = ground (arith, chunk-short room w r)

ended-Clean : (w : Text) → Clean (0 ∷ []) w → Clean (0 ∷ []) (w ++ b'\n' ∷ [])
ended-Clean [] h = (refl, tt)
ended-Clean (c ∷ w) h = (h.0, ended-Clean w h.1)

-- Lines that fit the array are the pieces that `fgets` returns.
chunks-ends :
    (k : ℕ) (ws : List Text)
    → length (concat (ends ws)) < k
    → Short ws
    → chunks k line_room (concat (ends ws)) ≡ ends ws
unfolding chunks
chunks-ends zero ws h short = elim h [ ]
chunks-ends (suc k) [] h short = refl
chunks-ends (suc k) ([] ∷ ws) h (fits, clean, no_nul, short) =
    ap (λ ls. (b'\n' ∷ []) ∷ ls) (chunks-ends k ws (omega arith) short)
chunks-ends (suc k) ((b ∷ w) ∷ ws) h (fits, clean, no_nul, short) =
    let rest = concat (ends ws) in
    let line = b ∷ w ++ b'\n' ∷ [] in
    let (first, behind) = chunk-short line_room (b ∷ w) rest fits clean in
    let shorter = length-append line rest in
    ap (chunks (suc k) line_room) (append_assoc (b ∷ w) (b'\n' ∷ []) rest)
    ∙ ap (λ x. until_nul x ∷ chunks k line_room (behind_chunk line_room (b ∷ w ++ b'\n' ∷ rest)))
        first
    ∙ ap₂ (λ x r. x ∷ chunks k line_room r) (until_nul-Clean line (ended-Clean (b ∷ w) no_nul))
        behind
    ∙ ap (λ ls. line ∷ ls) (chunks-ends k ws (omega arith) short)

-- With a line number the loop returns that line alone.
read_loop_at :
    (m i : ℕ) (lines : List Text) → read_loop true (pos (m + i)) m none lines ≡ get_elem? lines i
unfolding read_loop is_whole is_line joined
read_loop_at m i [] = refl
read_loop_at m zero (line ∷ lines) = ground arith
read_loop_at m (suc i) (line ∷ lines) = ground (arith, read_loop_at (m + 1) i lines)

-- In a file whose lines are short enough and hold no NUL, the line with a number is read, with its line break, and
-- NULL is returned for a number behind the last line.
pub read_file_line :
    (c : Calls) (fs : Files) (filename : Text) (ws : List Text) (i : ℕ)
    → c.readable ≡ true
    → c.allocates ≡ true
    → find filename fs ≡ some (concat (ends ws))
    → Short ws
    → read_file c fs filename (pos (1 + i)) ≡ get_elem? (ends ws) i
unfolding read_file
read_file_line c fs filename ws i readable allocates found short =
    rw (found, readable, allocates, read_file)
      (ap (read_loop true (pos (1 + i)) 1 none)
          (chunks-ends (length (concat (ends ws)) + 1) ws (omega arith) short)
        ∙ read_loop_at 1 i (ends ws))
