-- ===== src/Common/Strings.antt =====
-- The functions of <string.h> and <stdlib.h> that the programs cut texts with.
use system_programming_cse.Common.Tests.{ltb, leb, ◌==◌, if◌then◌else◌}
use system_programming_cse.Common.Lists.{length}
use system_programming_cse.Common.Texts.{Text}
use Prim.Native.Nat.{ℕ, zero, suc, ◌/◌, ◌+◌, ◌-◌, ◌*◌, ◌%◌, ◌^◌, ◌≤◌, min}
use mathlib.Core.Path.{◌≡◌, refl}
use mathlib.Core.Bool.{Bool, true, false, ◌&&◌, ◌||◌}
use mathlib.Core.Option.{Option, none, some}
use mathlib.Core.List.{[], ◌∷◌, ◌++◌}
use native.Mathlib.Omega.{arith}

-- `negsuc n` is -(n + 1).
pub data ℤ : Type 0 where
  pos : ℕ → ℤ
  negsuc : ℕ → ℤ

abbrev pub elem : ℕ → Text → Bool
elem c [] = false
elem c (d ∷ ds) = (c == d) || elem c ds

-- The text behind the delimiters at its start.
abbrev pub skip : Text → Text → Text
skip ds [] = []
skip ds (c ∷ s) = if elem c ds then skip ds s else c ∷ s

-- The text up to the first delimiter, and the text behind that delimiter.
abbrev pub token : Text → Text → Text
token ds [] = []
token ds (c ∷ s) = if elem c ds then [] else c ∷ token ds s

abbrev pub after : Text → Text → Text
after ds [] = []
after ds (c ∷ s) = if elem c ds then s else after ds s

abbrev pub cut : Text → Text → Option Text × Text
cut ds [] = (none, [])
cut ds (c ∷ s) = (some (token ds (c ∷ s)), after ds (c ∷ s))

-- `strtok`: the next token, or NULL, and what is left for the next call.
unfoldable pub strtok : Text → Text → Option Text × Text
strtok ds s = cut ds (skip ds s)

abbrev pub is_space : ℕ → Bool
is_space c = c == b' ' || leb 9 c && leb c 13

abbrev pub skip_spaces : Text → Text
skip_spaces [] = []
skip_spaces (c ∷ s) = if is_space c then skip_spaces s else c ∷ s

-- The value of the digits at the start of a text.
abbrev pub digits_from : ℕ → Text → ℕ
digits_from n [] = n
digits_from n (c ∷ s) = if leb b'0' c && leb c b'9' then digits_from (n * 10 + (c - b'0')) s else n

-- A 64-bit pattern as an `int`: its low 32 bits, in two's complement.
abbrev pub to_int : ℕ → ℤ
to_int n = let u = n % 2 ^ 32 in if ltb u (2 ^ 31) then pos u else negsuc (2 ^ 32 - u - 1)

abbrev pub signed : Text → ℤ
signed [] = pos 0
signed (c ∷ s) =
    if c == b'-'
    then to_int (2 ^ 64 - min (digits_from 0 s) (2 ^ 63))
    else if c == b'+'
    then to_int (min (digits_from 0 s) (2 ^ 63 - 1))
    else to_int (min (digits_from 0 (c ∷ s)) (2 ^ 63 - 1))

-- `(int) strtol(s, NULL, 10)`, which is what `atoi` computes too: a `long` that saturates, cut to an
-- `int`.
unfoldable pub atoi : Text → ℤ
atoi s = signed (skip_spaces s)

pub length-skip : (ds s : Text) → length (skip ds s) ≤ length s
length-skip ds [] = omega arith
length-skip ds (c ∷ s) = ground (arith, length-skip ds s)

pub length-token : (ds s : Text) → length (token ds s) ≤ length s
length-token ds [] = omega arith
length-token ds (c ∷ s) = ground (arith, length-token ds s)

pub length-after : (ds s : Text) → length (after ds s) ≤ length s
length-after ds [] = omega arith
length-after ds (c ∷ s) = ground (arith, length-after ds s)

-- No byte of the text is a delimiter.
abbrev pub Clean : Text → Text → Type 0
Clean ds [] = Unit {0}
Clean ds (c ∷ s) = (elem c ds ≡ false) × Clean ds s

pub token-Clean :
    (ds s : Text) (d : ℕ) (r : Text) → Clean ds s → elem d ds ≡ true → token ds (s ++ d ∷ r) ≡ s
token-Clean ds [] d r h e = ground arith
token-Clean ds (c ∷ s) d r h e = ground (arith, token-Clean ds s d r)

pub after-Clean :
    (ds s : Text) (d : ℕ) (r : Text) → Clean ds s → elem d ds ≡ true → after ds (s ++ d ∷ r) ≡ r
after-Clean ds [] d r h e = ground arith
after-Clean ds (c ∷ s) d r h e = ground (arith, after-Clean ds s d r)

pub token_all : (ds s : Text) → Clean ds s → token ds s ≡ s
token_all ds [] h = refl
token_all ds (c ∷ s) h = ground (arith, token_all ds s)

-- `strtok` on a word, a delimiter and a rest returns the word and leaves the rest.
pub strtok-word :
    (ds : Text) (c : ℕ) (s : Text) (d : ℕ) (r : Text)
    → Clean ds (c ∷ s)
    → elem d ds ≡ true
    → strtok ds (c ∷ s ++ d ∷ r) ≡ (some (c ∷ s), r)
unfolding strtok
strtok-word ds c s d r h e = ground (arith, token-Clean ds s d r, after-Clean ds s d r)

-- On a last word it returns the word.
pub strtok_last :
    (ds : Text) (c : ℕ) (s : Text) → Clean ds (c ∷ s) → (strtok ds (c ∷ s)).0 ≡ some (c ∷ s)
unfolding strtok
strtok_last ds c s h = ground (arith, token_all ds s)

-- `%d` of a number, with fuel for its digits: ten are enough for an `int`.
abbrev pub digits_onto : ℕ → ℕ → Text → Text
digits_onto zero n t = t
digits_onto (suc k) n t =
    let more = digits_onto k (n / 10) ((b'0' + n % 10) ∷ t) in
    if ltb n 10 then (b'0' + n) ∷ t else more

abbrev pub decimal : ℕ → Text
decimal n = digits_onto 10 n []

-- `%zu` and `%ld`: twenty digits are enough for 64 bits.
abbrev pub long_decimal : ℕ → Text
long_decimal n = digits_onto 20 n []

abbrev pub zeros : ℕ → Text
zeros zero = []
zeros (suc k) = b'0' ∷ zeros k

-- `%02ld`, `%03ld`
abbrev pub padded : ℕ → ℕ → Text
padded width n = let t = long_decimal n in zeros (width - length t) ++ t
