-- ===== src/Grades/First.antt =====
-- `displayFirst5` writes the first five lines, in however many pieces the file is read.
use system_programming_cse.Common.{
  ℕ, zero, suc, ◌+◌, ◌-◌, ◌<◌, ◌≤◌, ◌≡◌, refl, sym, ◌∙◌, ap, true, false, Bool-cases, inl, inr,
  some, [], ◌∷◌, ◌++◌, ◌==◌, if◌then◌else◌, ltb, leb, arith, Text, length, take, drop,
  take-append-drop, length-drop,
}
use system_programming_cse.Grades.{buffer_size, scan_first, first_loop, display_first5}

-- The text up to and with the n-th line break, or the whole text.
abbrev pub first_lines : ℕ → Text → Text
first_lines zero s = []
first_lines (suc n) [] = []
first_lines (suc n) (c ∷ s) = c ∷ (if c == b'\n' then first_lines n s else first_lines (suc n) s)

scan_first-bound : (n : ℕ) (b : Text) → n < 5 → (scan_first n b).0 ≤ 5
unfolding scan_first
scan_first-bound n [] h = omega arith
scan_first-bound n (c ∷ b) h = ground (arith, scan_first-bound n b, scan_first-bound (n + 1) b)

scan_first-lines :
    (n l : ℕ) (b r : Text)
    → n + suc l ≡ 5
    → first_lines (suc l) (b ++ r) ≡ (scan_first n b).1 ++ first_lines (5 - (scan_first n b).0) r
unfolding scan_first
scan_first-lines n l [] r h =
    let left : suc l ≡ 5 - n = omega arith in ap (λ k. first_lines k r) left
scan_first-lines n zero (c ∷ b) r h = elim (Bool-cases (c == b'\n')) [
  | inl hit ↦
      let last : leb 5 (n + 1) ≡ true = ground arith in
      let none_left : 5 - (n + 1) ≡ 0 = omega arith in rw (hit, last, none_left, scan_first) refl
  | inr miss ↦
      let rest = scan_first-lines n zero b r h in rw (miss, scan_first) (ap (λ t. c ∷ t) rest)
]
scan_first-lines n (suc l) (c ∷ b) r h = elim (Bool-cases (c == b'\n')) [
  | inl hit ↦
      let more : leb 5 (n + 1) ≡ false = ground arith in
      let rest = scan_first-lines (n + 1) l b r (omega arith) in
      rw (hit, more, scan_first) (ap (λ t. c ∷ t) rest)
  | inr miss ↦
      let rest = scan_first-lines n (suc l) b r h in rw (miss, scan_first) (ap (λ t. c ∷ t) rest)
]

first_loop-lines :
    (k n l : ℕ) (s : Text) → length s < k → n + l ≡ 5 → first_loop k n s ≡ first_lines l s
unfolding first_loop
first_loop-lines zero n l s h e = elim h [ ]
first_loop-lines (suc k) n zero [] h e = refl
first_loop-lines (suc k) n (suc l) [] h e = refl
first_loop-lines (suc k) n zero (c ∷ s) h e =
    let full : ltb n 5 ≡ false = ground arith in rw (full, first_loop) refl
first_loop-lines (suc k) n (suc l) (c ∷ s) h e =
    let unfull : ltb n 5 ≡ true = ground arith in
    let block = take buffer_size (c ∷ s) in
    let behind = drop buffer_size (c ∷ s) in
    let m = (scan_first n block).0 in
    let bound = scan_first-bound n block (omega arith) in
    let shorter = length-drop buffer_size (c ∷ s) in
    let rest = first_loop-lines k m (5 - m) behind (omega arith) (omega arith) in
    rw (unfull, first_loop)
      (ap (λ t. (scan_first n block).1 ++ t) rest
        ∙ sym (scan_first-lines n l block behind e)
        ∙ ap (first_lines (suc l)) (take-append-drop buffer_size (c ∷ s)))

-- Where the file can be opened and closed, `displayFirst5` writes its first five lines, or all of them
-- if it has fewer, in however many pieces the file is read.
pub display_first5-lines :
    (content : Text) → display_first5 true content ≡ some (first_lines 5 content)
unfolding display_first5
display_first5-lines content =
    ap some (first_loop-lines (length content + 1) 0 5 content (omega arith) refl)
