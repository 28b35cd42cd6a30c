-- ===== src/PideShop/Matrices/Exact.antt =====
-- Final/complex_matrix.c: the matrices of the shop are small enough for `long long int`.
use system_programming_cse.Common.{
  ℕ, zero, suc, ◌+◌, ◌*◌, ◌^◌, ◌≡◌, ◌≢◌, refl, ◌∙◌, sym, ap, ap₂, subst, some, ◌<◌, ◌≤◌, arith,
}
use system_programming_cse.Common.Strings.{ℤ, pos, negsuc}
use system_programming_cse.Common.Longs.{
  ◌+ℤ◌, ◌-ℤ◌, ◌*ℤ◌, opposite, to_long, Within, Within-to_long, Within-+ℤ, Within-opposite,
  Within-*ℤ,
}
use system_programming_cse.Common.Loops.{for_below, for_below-same, for_below_nested}
use system_programming_cse.PideShop.Matrices.{
  Complex, Cells, ComplexMatrix, create_matrix, generate_random_matrix, random_cell, transpose,
  real_part, imag_part, add_to, zero_cell, multiply,
}
use system_programming_cse.PideShop.Matrices.Shapes.{
  write_here, write-other_row, write-other_column, transpose-cell, product, multiply-product,
  product-dot,
}

-- Both parts of the number are between -m and m.
abbrev pub IsBounded : ℕ → Complex → Type 0
IsBounded m c = Within m c.real × Within m c.imag

-- The sum and the product of complex numbers, without the limits of 64 bits.
abbrev pub exact_add : Complex → Complex → Complex
exact_add x y = record { real = x.real +ℤ y.real; imag = x.imag +ℤ y.imag }

abbrev pub exact_mul : Complex → Complex → Complex
exact_mul x y = record {
  real = x.real *ℤ y.real -ℤ x.imag *ℤ y.imag;
  imag = x.real *ℤ y.imag +ℤ x.imag *ℤ y.real;
}

-- The sum of the products f 0 * g 0, ..., f (n - 1) * g (n - 1).
abbrev pub exact_sum : (ℕ → Complex) → (ℕ → Complex) → ℕ → Complex
exact_sum f g zero = zero_cell
exact_sum f g (suc n) = exact_add (exact_sum f g n) (exact_mul (f n) (g n))

Within-weaken : (m n : ℕ) (x : ℤ) → m ≤ n → Within m x → Within n x
Within-weaken m n (pos x) b h = omega arith
Within-weaken m n (negsuc x) b h = omega arith

-- The parts of a product of two numbers that are below 1000.
Within-difference :
    (a b c d : ℤ)
    → Within 999 a
    → Within 999 b
    → Within 999 c
    → Within 999 d
    → Within 1996002 (a *ℤ b -ℤ c *ℤ d) × Within 1996002 (a *ℤ b +ℤ c *ℤ d)
Within-difference a b c d h i j k =
    let u = Within-*ℤ 999 999 a b h i in
    let v = Within-*ℤ 999 999 c d j k in
    (
      Within-+ℤ 998001 998001 (a *ℤ b) (opposite (c *ℤ d)) u (Within-opposite 998001 (c *ℤ d) v),
      Within-+ℤ 998001 998001 (a *ℤ b) (c *ℤ d) u v,
    )

to_long-small : (x : ℤ) → Within 1996002 x → to_long x ≡ x
to_long-small x h = Within-to_long 1996002 x (omega arith) h

to_long-product : (x y : ℤ) → Within 999 x → Within 999 y → to_long (x *ℤ y) ≡ x *ℤ y
to_long-product x y h k = Within-to_long 998001 (x *ℤ y) (omega arith) (Within-*ℤ 999 999 x y h k)

real_part-exact :
    (x y : Complex) → IsBounded 999 x → IsBounded 999 y → real_part x y ≡ (exact_mul x y).real
unfolding real_part
real_part-exact x y (a, b) (c, d) =
    ap₂ (λ u v. to_long (u -ℤ v)) (to_long-product x.real y.real a c)
      (to_long-product x.imag y.imag b d)
    ∙ to_long-small (exact_mul x y).real (Within-difference x.real y.real x.imag y.imag a c b d).0

imag_part-exact :
    (x y : Complex) → IsBounded 999 x → IsBounded 999 y → imag_part x y ≡ (exact_mul x y).imag
unfolding imag_part
imag_part-exact x y (a, b) (c, d) =
    ap₂ (λ u v. to_long (u +ℤ v)) (to_long-product x.real y.imag a d)
      (to_long-product x.imag y.real b c)
    ∙ to_long-small (exact_mul x y).imag (Within-difference x.real y.imag x.imag y.real a d b c).1

exact_add-IsBounded :
    (m : ℕ) (s x y : Complex)
    → IsBounded m s
    → IsBounded 999 x
    → IsBounded 999 y
    → IsBounded (m + 1996002) (exact_add s (exact_mul x y))
exact_add-IsBounded m s x y (h, k) (a, b) (c, d) = (
  Within-+ℤ m 1996002 s.real (exact_mul x y).real h
      (Within-difference x.real y.real x.imag y.imag a c b d).0,
  Within-+ℤ m 1996002 s.imag (exact_mul x y).imag k
      (Within-difference x.real y.imag x.imag y.real a d b c).1,
)

add_to-exact :
    (m : ℕ) (x y s : Complex)
    → m < 2 ^ 63
    → IsBounded 999 x
    → IsBounded 999 y
    → IsBounded m (exact_add s (exact_mul x y))
    → add_to x y s ≡ exact_add s (exact_mul x y)
unfolding add_to
add_to-exact m x y s l a b (h, k) =
    ap₂ (λ u v. record { real = to_long (s.real +ℤ u); imag = to_long (s.imag +ℤ v) })
      (real_part-exact x y a b) (imag_part-exact x y a b)
    ∙ ap₂ (λ u v. record { real = u; imag = v })
        (Within-to_long m (s.real +ℤ (exact_mul x y).real) l h)
        (Within-to_long m (s.imag +ℤ (exact_mul x y).imag) l k)

IsBounded-weaken : (m n : ℕ) (x : Complex) → m ≤ n → IsBounded m x → IsBounded n x
IsBounded-weaken m n x b (h, k) = (Within-weaken m n x.real b h, Within-weaken m n x.imag b k)

module _ (f g : ℕ → Complex) (size : ℕ)
    (small : (k : ℕ) → k < size → IsBounded 999 (f k) × IsBounded 999 (g k)) where
  exact_sum-IsBounded : (n : ℕ) → n ≤ size → IsBounded (n * 1996002) (exact_sum f g n)
  exact_sum-IsBounded zero b = (omega arith, omega arith)
  exact_sum-IsBounded (suc n) b =
      let h = small n (omega arith) in
      IsBounded-weaken (n * 1996002 + 1996002) (suc n * 1996002) (exact_sum f g (suc n))
        (omega arith)
        (exact_add-IsBounded (n * 1996002) (exact_sum f g n) (f n) (g n)
          (exact_sum-IsBounded n (omega arith)) h.0 h.1)

  -- 2 ^ 42 products of such numbers do not leave 64 bits.
  sum-exact :
      (n : ℕ)
      → n ≤ size
      → n ≤ 2 ^ 42
      → for_below n (λ k. add_to (f k) (g k)) zero_cell ≡ exact_sum f g n
  sum-exact zero b c = refl
  sum-exact (suc n) b c =
      let h = small n (omega arith) in
      ap (add_to (f n) (g n)) (sum-exact n (omega arith) (omega arith))
      ∙ add_to-exact (suc n * 1996002) (f n) (g n) (exact_sum f g n) (omega arith) h.0 h.1
          (exact_sum-IsBounded (suc n) b)

module _ (rand : ℕ → ℕ) (i j : ℕ) (s : ℕ × Cells) where
  random_cell_here : IsBounded 999 ((random_cell rand i j s).1 i j)
  unfolding random_cell
  random_cell_here = subst (IsBounded 999) (sym (write_here i j _ s.1)) (ground arith, ground arith)

  random_cell-other_row : (k l : ℕ) → k ≢ i → (random_cell rand i j s).1 k l ≡ s.1 k l
  unfolding random_cell
  random_cell-other_row k l h = write-other_row i j k l _ s.1 h

  random_cell-other_column : (l : ℕ) → l ≢ j → (random_cell rand i j s).1 i l ≡ s.1 i l
  unfolding random_cell
  random_cell-other_column l h = write-other_column i j i l _ s.1 h

-- The cells of the matrix that `generate_random_matrix` fills.
generate_random_matrix-IsBounded :
    (rand : ℕ → ℕ) (calls : ℕ) (m : ComplexMatrix) (i j : ℕ)
    → i < m.rows
    → j < m.cols
    → IsBounded 999 ((generate_random_matrix rand calls m).1.cells i j)
unfolding generate_random_matrix
generate_random_matrix-IsBounded rand calls m i j b c =
    for_below_nested (λ (s : ℕ × Cells). s.1) (random_cell rand)
      (λ i j k l s. random_cell-other_row rand i j s k l)
      (λ i j l s. random_cell-other_column rand i j s l) (λ i j old new. IsBounded 999 new)
      (random_cell_here rand) m.rows m.cols (calls, m.cells) i j b c

-- The matrix that a cook fills with random numbers, of at most 2 ^ 42 rows: the product of the
-- transposed matrix and the matrix is not NULL, and each of its cells is the sum of the products of
-- complex numbers, as no operation on `long long int` overflows.
pub multiply-exact_sum :
    (rand : ℕ → ℕ) (calls : ℕ) (memory transposed_memory product_memory : Cells) (rows cols : ℕ)
    → rows ≤ 2 ^ 42
    → (m p : ComplexMatrix) × (m
        ≡ (generate_random_matrix rand calls (create_matrix memory rows cols)).1)
      × (multiply product_memory (transpose transposed_memory m) m ≡ some p)
      × (p.rows ≡ cols)
      × (p.cols ≡ cols)
      × ((i j : ℕ)
          → i < cols
          → j < cols
          → p.cells i j ≡ exact_sum (λ k. m.cells k i) (λ k. m.cells k j) rows)
unfolding generate_random_matrix create_matrix transpose
multiply-exact_sum rand calls memory transposed_memory product_memory rows cols bound =
    let m = (generate_random_matrix rand calls (create_matrix memory rows cols)).1 in
    let t = transpose transposed_memory m in
    (
      m,
      product product_memory t m,
      refl,
      multiply-product product_memory t m refl,
      refl,
      refl,
      λ i j b c.
          product-dot product_memory t m i j b c
          ∙ for_below-same rows (λ k. add_to (t.cells i k) (m.cells k j))
              (λ k. add_to (m.cells k i) (m.cells k j)) zero_cell
              (λ k s d.
                ap (λ x. add_to x (m.cells k j) s) (transpose-cell transposed_memory m k i d b))
          ∙ sum-exact (λ k. m.cells k i) (λ k. m.cells k j) rows
              (λ k d. (
                generate_random_matrix-IsBounded rand calls (create_matrix memory rows cols) k i d
                    b,
                generate_random_matrix-IsBounded rand calls (create_matrix memory rows cols) k j d
                    c,
              ))
              rows (omega arith) bound,
    )
