-- ===== src/Grades/Students/Order.antt =====
-- The comparisons of the students are total preorders.
use system_programming_cse.Common.{
  zero, suc, ◌≡◌, refl, sym, subst, Bool, true, false, [], ◌∷◌, arith, Text,
}
use system_programming_cse.Common.Strings.{ℤ, pos, negsuc}
use system_programming_cse.Grades.Students.{
  StudentGrade, Compare, SortBy, SortOrder, by_name, by_grade, ascending, descending, strcmp,
  negate, compare_function,
}

abbrev pub is_above : ℤ → Bool
is_above (pos zero) = false
is_above (pos (suc n)) = true
is_above (negsuc n) = false

abbrev pub NotAbove : Compare → StudentGrade → StudentGrade → Type 0
NotAbove cmp a b = is_above (cmp a b) ≡ false

-- What `qsort` asks of its comparison.
pub record IsOrder (cmp : Compare) : Type 0 where
  pub total : (a b : StudentGrade) → is_above (cmp a b) ≡ true → NotAbove cmp b a
  pub transitive : (a b c : StudentGrade) → NotAbove cmp a b → NotAbove cmp b c → NotAbove cmp a c

strcmp-negate : (s t : Text) → strcmp t s ≡ negate (strcmp s t)
unfolding strcmp
strcmp-negate [] [] = refl
strcmp-negate [] (y ∷ ys) = refl
strcmp-negate (x ∷ xs) [] = refl
strcmp-negate (x ∷ xs) (y ∷ ys) = ground (arith, strcmp-negate xs ys)

total_sign : (v : ℤ) → is_above v ≡ true → is_above (negate v) ≡ false
total_sign (pos zero) h = refl
total_sign (pos (suc n)) h = refl
total_sign (negsuc n) h = cc

strcmp_trans :
    (s t u : Text)
    → is_above (strcmp s t) ≡ false
    → is_above (strcmp t u) ≡ false
    → is_above (strcmp s u) ≡ false
unfolding strcmp
strcmp_trans [] [] u h k = k
strcmp_trans [] (y ∷ ys) [] h k = refl
strcmp_trans [] (y ∷ ys) (z ∷ zs) h k = refl
strcmp_trans (x ∷ xs) [] u h k = cc
strcmp_trans (x ∷ xs) (y ∷ ys) [] h k = cc
strcmp_trans (x ∷ xs) (y ∷ ys) (z ∷ zs) h k = ground (arith, strcmp_trans xs ys zs)

strcmp_total : (s t : Text) → is_above (strcmp s t) ≡ true → is_above (strcmp t s) ≡ false
strcmp_total s t h =
    subst (λ v. is_above v ≡ false) (sym (strcmp-negate s t)) (total_sign (strcmp s t) h)

-- A comparison of a key by `strcmp`, and the same one the other way round.
strcmp-IsOrder : (key : StudentGrade → Text) → IsOrder (λ a b. strcmp (key a) (key b))
strcmp-IsOrder key = record {
  total = λ a b. strcmp_total (key a) (key b);
  transitive = λ a b c. strcmp_trans (key a) (key b) (key c);
}

negate-IsOrder : (key : StudentGrade → Text) → IsOrder (λ a b. negate (strcmp (key a) (key b)))
negate-IsOrder key = record {
  total = λ a b h.
      subst (λ v. is_above v ≡ false) (strcmp-negate (key b) (key a))
        (strcmp_total (key b) (key a)
          (subst (λ v. is_above v ≡ true) (sym (strcmp-negate (key a) (key b))) h));
  transitive = λ a b c h k.
      subst (λ v. is_above v ≡ false) (strcmp-negate (key a) (key c))
        (strcmp_trans (key c) (key b) (key a)
          (subst (λ v. is_above v ≡ false) (sym (strcmp-negate (key b) (key c))) k)
          (subst (λ v. is_above v ≡ false) (sym (strcmp-negate (key a) (key b))) h));
}

pub compare_function-IsOrder :
    (by : SortBy) (order : SortOrder) → IsOrder (compare_function by order)
unfolding compare_function
compare_function-IsOrder by_name ascending = strcmp-IsOrder (λ g. g.name)
compare_function-IsOrder by_name descending = negate-IsOrder (λ g. g.name)
compare_function-IsOrder by_grade ascending = strcmp-IsOrder (λ g. g.grade)
compare_function-IsOrder by_grade descending = negate-IsOrder (λ g. g.grade)
