-- ===== src/Common/Numerals.antt =====
-- `atoi` on the digits that `%d` writes.
use system_programming_cse.Common.{
  ℕ, zero, suc, ◌+◌, ◌-◌, ◌*◌, ◌/◌, ◌%◌, ◌^◌, ◌<◌, ◌≡◌, refl, ◌∙◌, ap, Bool, true, false,
  Bool-cases, inl, inr, [], ◌∷◌, ◌&&◌, leb, ltb, ◌==◌, min, arith, Text,
}
use system_programming_cse.Common.Strings.{
  ℤ, pos, negsuc, digits_from, digits_onto, decimal, to_int, is_space, atoi,
}

-- `%d` of an `int`.
abbrev pub signed_decimal : ℤ → Text
signed_decimal (pos n) = decimal n
signed_decimal (negsuc n) = b'-' ∷ decimal (suc n)

abbrev is_digit : ℕ → Bool
is_digit c = leb b'0' c && leb c b'9'

digits_from_digit :
    (m c : ℕ) (s : Text)
    → is_digit c ≡ true
    → digits_from m (c ∷ s) ≡ digits_from (m * 10 + (c - b'0')) s
digits_from_digit m c s h = rw h refl

last_is_digit : (n : ℕ) → is_digit (b'0' + n % 10) ≡ true
last_is_digit n = ground arith

next_digit : (n : ℕ) (t : Text) → digits_from (n / 10) ((b'0' + n % 10) ∷ t) ≡ digits_from n t
next_digit n t =
    digits_from_digit (n / 10) (b'0' + n % 10) t (last_is_digit n)
    ∙ ap (λ i. digits_from i t) (omega arith)

digits_from-digits_onto :
    (k n : ℕ) (t : Text) → n < 10 ^ k → digits_from 0 (digits_onto k n t) ≡ digits_from n t
digits_from-digits_onto zero n t h = ap (λ i. digits_from i t) (omega (arith, h))
digits_from-digits_onto (suc k) n t h = elim (Bool-cases (ltb n 10)) [
  | inl e ↦ rw e (ground (arith, e))
  | inr e ↦
      rw e (
        digits_from-digits_onto k (n / 10) ((b'0' + n % 10) ∷ t) (omega (arith, h))
        ∙ next_digit n t)
]

abbrev StartsWithDigit : Text → Type 0
StartsWithDigit [] = ⊥
StartsWithDigit (c ∷ s) = is_digit c ≡ true

onto_digit : (k n c : ℕ) (t : Text) → is_digit c ≡ true → StartsWithDigit (digits_onto k n (c ∷ t))
onto_digit zero n c t h = h
onto_digit (suc k) n c t h = elim (Bool-cases (ltb n 10)) [
  | inl e ↦ rw e (ground (arith, e))
  | inr e ↦ rw e (onto_digit k (n / 10) (b'0' + n % 10) (c ∷ t) (ground arith))
]

digits_onto-StartsWithDigit : (k n : ℕ) (t : Text) → StartsWithDigit (digits_onto (suc k) n t)
digits_onto-StartsWithDigit k n t = elim (Bool-cases (ltb n 10)) [
  | inl e ↦ rw e (ground (arith, e))
  | inr e ↦ rw e (onto_digit k (n / 10) (b'0' + n % 10) t (ground arith))
]

atoi-digits : (s : Text) → StartsWithDigit s → atoi s ≡ to_int (min (digits_from 0 s) (2 ^ 63 - 1))
unfolding atoi
atoi-digits [] h = absurd h
atoi-digits (c ∷ s) h =
    let space : is_space c ≡ false = ground (arith, h) in
    let minus : (c == b'-') ≡ false = ground (arith, h) in
    let plus : (c == b'+') ≡ false = ground (arith, h) in rw (space, minus, plus) refl

small : (n : ℕ) → n < 2 ^ 31 → to_int (min n (2 ^ 63 - 1)) ≡ pos n
small n h = ground (arith, h)

-- `atoi` reads back what `%d` has written of a number that is an `int`.
pub atoi-decimal : (n : ℕ) → n < 2 ^ 31 → atoi (decimal n) ≡ pos n
atoi-decimal n h =
    atoi-digits (decimal n) (digits_onto-StartsWithDigit 9 n [])
    ∙ ap (λ i. to_int (min i (2 ^ 63 - 1))) (digits_from-digits_onto 10 n [] (omega (arith, h)))
    ∙ small n h
