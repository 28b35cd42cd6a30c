-- ===== src/PideShop/Matrices/Inverses.antt =====
-- Final/complex_matrix.c: what `pseudo_inverse` returns.
use system_programming_cse.Common.{
  ℕ, zero, suc, ◌≡◌, refl, ◌∙◌, sym, ap, ap₂, subst, ◌⊎◌, inl, inr, some, ◌<◌, arith,
}
use system_programming_cse.Common.Strings.{ℤ, pos, negsuc}
use system_programming_cse.Common.Longs.{◌+ℤ◌, ◌-ℤ◌, ◌*ℤ◌, to_long, +ℤ-comm, *ℤ-comm}
use system_programming_cse.Common.Loops.{for_below-same, for_below_nested}
use system_programming_cse.PideShop.Matrices.{
  Complex, Cells, ComplexMatrix, create_matrix, for_cells, transpose, real_part, imag_part, add_to,
  zero_cell, reciprocal, inverse_cell, inverted, pseudo_inverse,
}
use system_programming_cse.PideShop.Matrices.Shapes.{
  write_here, write-other_row, write-other_column, transpose-cell, dot, product, multiply-product,
  product-dot,
}

-- The integer is -1, 0 or 1.
abbrev pub IsUnit : ℤ → Type 0
IsUnit x = (x ≡ pos 0) ⊎ (x ≡ pos 1) ⊎ (x ≡ negsuc 0)

reciprocal-IsUnit : (x : ℤ) → IsUnit (reciprocal x)
unfolding reciprocal
reciprocal-IsUnit (pos zero) = inl refl
reciprocal-IsUnit (pos (suc zero)) = inr (inl refl)
reciprocal-IsUnit (pos (suc (suc n))) = inl (ground arith)
reciprocal-IsUnit (negsuc zero) = inr (inr refl)
reciprocal-IsUnit (negsuc (suc n)) = inl (ground arith)

real_part_comm : (x y : Complex) → real_part x y ≡ real_part y x
unfolding real_part
real_part_comm x y =
    ap₂ (λ u v. to_long (to_long u -ℤ to_long v)) (*ℤ-comm x.real y.real) (*ℤ-comm x.imag y.imag)

imag_part_comm : (x y : Complex) → imag_part x y ≡ imag_part y x
unfolding imag_part
imag_part_comm x y = ap to_long (
    ap₂ (λ u v. to_long u +ℤ to_long v) (*ℤ-comm x.real y.imag) (*ℤ-comm x.imag y.real)
    ∙ +ℤ-comm (to_long (y.imag *ℤ x.real)) (to_long (y.real *ℤ x.imag)))

add_to_comm : (x y s : Complex) → add_to x y s ≡ add_to y x s
unfolding add_to
add_to_comm x y s =
    ap₂ (λ u v. record { real = to_long (s.real +ℤ u); imag = to_long (s.imag +ℤ v) })
      (real_part_comm x y) (imag_part_comm x y)

module _ (memory : Cells) (m : ComplexMatrix) where
  -- The product of the transposed matrix and the matrix is symmetric.
  dot_comm :
      (i j : ℕ)
      → i < m.cols
      → j < m.cols
      → dot (transpose memory m) m i j m.rows ≡ dot (transpose memory m) m j i m.rows
  dot_comm i j b c =
      for_below-same m.rows (λ k. add_to ((transpose memory m).cells i k) (m.cells k j))
        (λ k. add_to ((transpose memory m).cells j k) (m.cells k i)) zero_cell
        (λ k s d.
          ap (λ x. add_to x (m.cells k j) s) (transpose-cell memory m k i d b)
          ∙ add_to_comm (m.cells k i) (m.cells k j) s
          ∙ ap (λ x. add_to x (m.cells k i) s) (sym (transpose-cell memory m k j d c)))

-- The reciprocals of the parts of a cell.
abbrev pub reciprocals : Complex → Complex
reciprocals c = record { real = reciprocal c.real; imag = reciprocal c.imag }

abbrev pub inverted_product : Cells → Cells → ComplexMatrix → ComplexMatrix
inverted_product memory other_memory m = record (product other_memory (transpose memory m) m) {
  cells = for_cells m.cols m.cols inverse_cell (product other_memory (transpose memory m) m).cells;
}

inverted_product-cell :
    (memory other_memory : Cells) (m : ComplexMatrix) (i j : ℕ)
    → i < m.cols
    → j < m.cols
    → (inverted_product memory other_memory m).cells i j
      ≡ reciprocals (dot (transpose memory m) m i j m.rows)
unfolding transpose create_matrix
inverted_product-cell memory other_memory m i j b c =
    for_below_nested (λ d. d) inverse_cell
      (λ i j k l d h. write-other_row i j k l (reciprocals (d i j)) d h)
      (λ i j l d h. write-other_column i j i l (reciprocals (d i j)) d h)
      (λ i j old new. new ≡ reciprocals old) (λ i j d. write_here i j (reciprocals (d i j)) d)
      m.cols m.cols (product other_memory (transpose memory m) m).cells i j b c
    ∙ ap reciprocals (product-dot other_memory (transpose memory m) m i j b c)

pseudo_inverse-some :
    (memory other_memory : Cells) (m : ComplexMatrix)
    → pseudo_inverse memory other_memory m ≡ some (inverted_product memory other_memory m)
unfolding pseudo_inverse inverted transpose create_matrix
pseudo_inverse-some memory other_memory m =
    ap inverted (multiply-product other_memory (transpose memory m) m refl)

-- `pseudo_inverse` never reads NULL: it returns a square matrix with a row for each column of the given
-- one, in which the cells i, j and j, i are equal and every part of a cell is -1, 0 or 1.
pub pseudo_inverse-IsUnit :
    (memory other_memory : Cells) (m : ComplexMatrix)
    → (p : ComplexMatrix) × (pseudo_inverse memory other_memory m ≡ some p)
      × (p.rows ≡ m.cols)
      × (p.cols ≡ m.cols)
      × ((i j : ℕ)
          → i < m.cols
          → j < m.cols
          → (p.cells i j ≡ p.cells j i) × IsUnit (p.cells i j).real × IsUnit (p.cells i j).imag)
unfolding transpose create_matrix
pseudo_inverse-IsUnit memory other_memory m = (
  inverted_product memory other_memory m,
  pseudo_inverse-some memory other_memory m,
  refl,
  refl,
  λ i j b c.
      let e = inverted_product-cell memory other_memory m i j b c in
      let d = dot (transpose memory m) m i j m.rows in
      (
        e
            ∙ ap reciprocals (dot_comm memory m i j b c)
            ∙ sym (inverted_product-cell memory other_memory m j i c b),
        subst (λ x. IsUnit x.real) (sym e) (reciprocal-IsUnit d.real),
        subst (λ x. IsUnit x.imag) (sym e) (reciprocal-IsUnit d.imag),
      ),
)
