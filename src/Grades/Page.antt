-- ===== src/Grades/Page.antt =====
-- `displayPage` on a file that one `read` returns.
use system_programming_cse.Common.{
  ℕ, zero, suc, ◌+◌, ◌-◌, ◌*◌, ◌^◌, ◌<◌, ◌≤◌, ◌≡◌, refl, sym, ◌∙◌, ap, Bool, true, false,
  Bool-cases, inl, inr, Option, none, some, [], ◌∷◌, ◌++◌, append-nil, ◌==◌, if◌then◌else◌, ltb,
  leb, arith, Text, codes, length, take, drop, take_all, drop_all, length-drop,
}
use system_programming_cse.Grades.{
  buffer_size, find_offset, seek_loop, show_buffer, show_loop, show_from, display_page,
}

-- The text behind the n-th line break.
abbrev pub behind_lines : ℕ → Text → Option Text
behind_lines zero s = some s
behind_lines (suc n) [] = none
behind_lines (suc n) (c ∷ s) = if c == b'\n' then behind_lines n s else behind_lines (suc n) s

-- The text before the n-th line break, or the whole text.
abbrev pub before_lines : ℕ → Text → Text
before_lines zero s = []
before_lines (suc n) [] = []
before_lines (suc zero) (c ∷ s) = if c == b'\n' then [] else c ∷ before_lines (suc zero) s
before_lines (suc (suc n)) (c ∷ s) =
    if c == b'\n' then c ∷ before_lines (suc n) s else c ∷ before_lines (suc (suc n)) s

-- What the search in one buffer returns.
abbrev Found : ℕ → ℕ → ℕ × ℕ → Text → Option Text → Type 0
Found target i (lines, more) b none = lines < target
Found target i (lines, more) b (some r) =
    (j : ℕ) × (more ≡ i + j) × (lines ≡ target) × (drop j b ≡ r)

Found-later :
    (t i c : ℕ) (p : ℕ × ℕ) (b : Text) (o : Option Text)
    → Found t (i + 1) p b o
    → Found t i p (c ∷ b) o
Found-later t i c p b none f = f
Found-later t i c p b (some r) (j, more, lines, rest) = (suc j, omega (arith, more), lines, rest)

find_offset-Found :
    (t l n i : ℕ) (b : Text)
    → n + suc l ≡ t
    → Found t i (find_offset t n i b) b (behind_lines (suc l) b)
unfolding find_offset
find_offset-Found t l n i [] e = omega arith
find_offset-Found t zero n i (c ∷ b) e = elim (Bool-cases (c == b'\n')) [
  | inl hit ↦
      let reached : leb t (n + 1) ≡ true = ground arith in
      rw (hit, reached, find_offset) (1, refl, omega arith, refl)
  | inr miss ↦
      let short : leb t n ≡ false = ground arith in
      rw (miss, short, find_offset)
        (Found-later t i c (find_offset t n (i + 1) b) b (behind_lines 1 b)
          (find_offset-Found t zero n (i + 1) b e))
]
find_offset-Found t (suc l) n i (c ∷ b) e = elim (Bool-cases (c == b'\n')) [
  | inl hit ↦
      let short : leb t (n + 1) ≡ false = ground arith in
      rw (hit, short, find_offset)
        (Found-later t i c (find_offset t (n + 1) (i + 1) b) b (behind_lines (suc l) b)
          (find_offset-Found t l (n + 1) (i + 1) b (omega arith)))
  | inr miss ↦
      let short : leb t n ≡ false = ground arith in
      rw (miss, short, find_offset)
        (Found-later t i c (find_offset t n (i + 1) b) b (behind_lines (suc (suc l)) b)
          (find_offset-Found t (suc l) n (i + 1) b e))
]

show_buffer-before : (t l n : ℕ) (b : Text) → n + l ≡ t → (show_buffer t n b).1 ≡ before_lines l b
unfolding show_buffer
show_buffer-before t zero n [] e = refl
show_buffer-before t (suc l) n [] e = refl
show_buffer-before t zero n (c ∷ b) e = ground arith
show_buffer-before t (suc zero) n (c ∷ b) e = ground (arith, show_buffer-before t (suc zero) n b e)
show_buffer-before t (suc (suc l)) n (c ∷ b) e =
    ground (arith, show_buffer-before t (suc l) (n + 1) b, show_buffer-before t (suc (suc l)) n b e)

-- A text that fits the buffer is written in one piece.
show_loop-before :
    (t l n k : ℕ) (s : Text)
    → n + l ≡ t
    → length s ≤ buffer_size
    → length s < k
    → show_loop k t n s ≡ before_lines l s
unfolding show_loop
show_loop-before t l n zero s e fits h = elim h [ ]
show_loop-before t zero n (suc k) [] e fits h = refl
show_loop-before t (suc l) n (suc k) [] e fits h = refl
show_loop-before t l n (suc zero) (c ∷ s) e fits h = absurd (omega (arith, h))
show_loop-before t l n (suc (suc k)) (c ∷ s) e fits h =
    let whole = take_all buffer_size (c ∷ s) fits in
    let nothing : drop buffer_size (c ∷ s) ≡ [] = drop_all buffer_size (c ∷ s) fits in
    let shown = show_buffer-before t l n (c ∷ s) e in
    let p = show_buffer t n (take buffer_size (c ∷ s)) in
    ap (λ (d : Text). if leb t p.0 then p.1 else p.1 ++ show_loop (suc k) t p.0 d) nothing
    ∙ either_way (leb t p.0) p.1
    ∙ ap (λ (b : Text). (show_buffer t n b).1) whole
    ∙ shown
  where
    either_way : (b : Bool) (w : Text) → (if b then w else w ++ []) ≡ w
    either_way true w = refl
    either_way false w = append-nil w

abbrev end_text : Text
end_text = codes "End of file reached.\n"

-- The bytes of a page that begins behind `first` line breaks.
abbrev pub page_of : ℕ → Option Text → Text
page_of n none = end_text
page_of n (some r) = before_lines n r

-- What is written after the search, where its buffer is the whole file.
show_from-page :
    (n t : ℕ) (s : Text) (p : ℕ × ℕ) (o : Option Text)
    → Found t 0 p s o
    → length s ≤ buffer_size
    → show_from (t + n) s (if ltb p.0 t then none else some (p.0, 0 + p.1)) ≡ page_of n o
unfolding show_from
show_from-page n t s p none f fits =
    let short : ltb p.0 t ≡ true = ground arith in rw (short, show_from) refl
show_from-page n t s p (some r) (j, more, lines, rest) fits =
    let reached : ltb p.0 t ≡ false = ground arith in
    let shorter = length-drop (0 + p.1) s in
    let at : drop (0 + p.1) s ≡ r = ap (λ k. drop k s) (omega (arith, more)) ∙ rest in
    rw (reached, show_from)
      (show_loop-before (t + n) n p.0 (length s + 1) (drop (0 + p.1) s) (omega (arith, lines))
          (omega arith) (omega arith)
        ∙ ap (before_lines n) at)

-- The search on a file that fits the buffer.
seek_loop-once :
    (k l : ℕ) (s : Text)
    → length s ≤ buffer_size
    → seek_loop (suc (suc k)) (suc l) 0 0 s
      ≡ (let p = find_offset (suc l) 0 0 s in if ltb p.0 (suc l) then none else some (p.0, 0 + p.1))
unfolding seek_loop find_offset
seek_loop-once k l [] fits = refl
seek_loop-once k l (c ∷ s) fits =
    let whole = take_all buffer_size (c ∷ s) fits in
    let nothing : drop buffer_size (c ∷ s) ≡ [] = drop_all buffer_size (c ∷ s) fits in
    let p = find_offset (suc l) 0 0 (take buffer_size (c ∷ s)) in
    let more : ltb 0 (suc l) ≡ true = ground arith in
    rw (more, seek_loop)
      (ap (λ (d : Text). seek_loop (suc k) (suc l) p.0 (0 + p.1) d) nothing
        ∙ ap
            (λ (b : Text).
              let p = find_offset (suc l) 0 0 b in
              if ltb p.0 (suc l) then none else some (p.0, 0 + p.1))
            whole)

before_lines_nil : (n : ℕ) → before_lines n [] ≡ []
before_lines_nil zero = refl
before_lines_nil (suc n) = refl

display_at :
    (t n end : ℕ) (s : Text) (k : ℕ)
    → t + n ≡ end
    → length s ≤ buffer_size
    → show_from end s (seek_loop (suc (suc k)) t 0 0 s) ≡ page_of n (behind_lines t s)
unfolding show_from seek_loop
display_at zero n end [] k e fits = sym (before_lines_nil n)
display_at zero n end (c ∷ s) k e fits =
    show_loop-before end n 0 (length (c ∷ s) + 1) (c ∷ s) e fits (omega arith)
display_at (suc l) n end s k e fits =
    ap (show_from end s) (seek_loop-once k l s fits)
    ∙ ap
        (λ u. show_from u s (
          if ltb (find_offset (suc l) 0 0 s).0 (suc l)
          then none
          else some ((find_offset (suc l) 0 0 s).0, 0 + (find_offset (suc l) 0 0 s).1)))
        (sym e)
    ∙ show_from-page n (suc l) s (find_offset (suc l) 0 0 s) (behind_lines (suc l) s)
        (find_offset-Found (suc l) l 0 0 s (omega arith)) fits

-- On a file of 1024 bytes at most, and where the line numbers fit an int, `displayPage` writes the first
-- `n` lines of what lies behind the lines of the pages before, without the line break of the `n`th one, and
-- all of it, line breaks included, if it has fewer than `n` line breaks; or that the end of the file was
-- reached if the lines before the page are not there.
pub display_page-page :
    (content : Text) (n p : ℕ)
    → length content ≤ buffer_size
    → suc p * n < 2 ^ 31
    → display_page true content n (suc p) ≡ some (page_of n (behind_lines (p * n) content))
unfolding display_page
display_page-page content n p fits small =
    let before : suc p - 1 ≡ p = omega arith in
    let behind : p * n + n ≡ suc p * n = ground arith in
    ap some (
      display_at ((suc p - 1) * n) n (suc p * n) content (length content)
        (ap (λ t. t * n + n) before ∙ behind) fits
      ∙ ap (λ t. page_of n (behind_lines (t * n) content)) before)
