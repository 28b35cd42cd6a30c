-- ===== src/PideShop/Matrices/Shapes.antt =====
-- Final/complex_matrix.c: the cells of a transposed matrix and of a product.
use system_programming_cse.Common.{ℕ, zero, suc, ◌≡◌, refl, ◌∙◌, ap, ◌≢◌, some, ◌<◌, arith}
use system_programming_cse.Common.Loops.{for_below, for_below-keeps, for_below_nested}
use system_programming_cse.PideShop.Matrices.{
  Complex, Cells, ComplexMatrix, create_matrix, write, for_cells, transpose, add_to, zero_cell,
  add_product, product_cell, multiply,
}

pub write_here : (i j : ℕ) (c : Complex) (d : Cells) → write i j c d i j ≡ c
write_here i j c d = ground arith

pub write-other_row : (i j k l : ℕ) (c : Complex) (d : Cells) → k ≢ i → write i j c d k l ≡ d k l
write-other_row i j k l c d h = ground arith

pub write-other_column : (i j k l : ℕ) (c : Complex) (d : Cells) → l ≢ j → write i j c d k l ≡ d k l
write-other_column i j k l c d h = ground arith

pub transpose-cell :
    (memory : Cells) (m : ComplexMatrix) (i j : ℕ)
    → i < m.rows
    → j < m.cols
    → (transpose memory m).cells j i ≡ m.cells i j
unfolding transpose create_matrix
transpose-cell memory m i j b c =
    for_below_nested (λ d k l. d l k) (λ i j. write j i (m.cells i j))
      (λ i j k l d h. write-other_column j i l k (m.cells i j) d h)
      (λ i j l d h. write-other_row j i l i (m.cells i j) d h) (λ i j old new. new ≡ m.cells i j)
      (λ i j d. write_here j i (m.cells i j) d) m.rows m.cols memory i j b c

-- A matrix that is transposed twice has its size and its cells again, whatever `malloc` left in the
-- memory of the two new matrices.
pub transpose-transpose :
    (memory other_memory : Cells) (m : ComplexMatrix)
    → ((transpose other_memory (transpose memory m)).rows ≡ m.rows)
      × ((transpose other_memory (transpose memory m)).cols ≡ m.cols)
      × ((i j : ℕ)
          → i < m.rows
          → j < m.cols
          → (transpose other_memory (transpose memory m)).cells i j ≡ m.cells i j)
unfolding transpose create_matrix
transpose-transpose memory other_memory m = (
  refl,
  refl,
  λ i j b c.
      transpose-cell other_memory (transpose memory m) j i c b ∙ transpose-cell memory m i j b c,
)

-- The cell i, j of a product, added up from the products of `n` pairs of cells.
abbrev pub dot : ComplexMatrix → ComplexMatrix → ℕ → ℕ → ℕ → Complex
dot a b i j n = for_below n (λ k. add_to (a.cells i k) (b.cells k j)) zero_cell

dot_here :
    (a b : ComplexMatrix) (i j n : ℕ) (d : Cells)
    → for_below n (add_product a b i j) (write i j zero_cell d) i j ≡ dot a b i j n
dot_here a b i j zero d = write_here i j zero_cell d
dot_here a b i j (suc n) d =
    write_here i j _ (for_below n (add_product a b i j) (write i j zero_cell d))
    ∙ ap (add_to (a.cells i n) (b.cells n j)) (dot_here a b i j n d)

dot_elsewhere :
    (a b : ComplexMatrix) (i j k l : ℕ) (d : Cells)
    → ((c : Complex) (e : Cells) → write i j c e k l ≡ e k l)
    → product_cell a b i j d k l ≡ d k l
dot_elsewhere a b i j k l d other =
    for_below-keeps (λ t. t k l ≡ d k l) a.cols (add_product a b i j) (write i j zero_cell d)
      (λ n t c e. other _ t ∙ e) (other zero_cell d)

-- The matrix that `multiply` returns.
abbrev pub product : Cells → ComplexMatrix → ComplexMatrix → ComplexMatrix
product memory a b = record (create_matrix memory a.rows b.cols) {
  cells = for_cells a.rows b.cols (product_cell a b) memory;
}

pub multiply-product :
    (memory : Cells) (a b : ComplexMatrix)
    → a.cols ≡ b.rows
    → multiply memory a b ≡ some (product memory a b)
unfolding multiply create_matrix
multiply-product memory a b h = ground arith

pub product-dot :
    (memory : Cells) (a b : ComplexMatrix) (i j : ℕ)
    → i < a.rows
    → j < b.cols
    → (product memory a b).cells i j ≡ dot a b i j a.cols
product-dot memory a b i j c e =
    for_below_nested (λ d. d) (product_cell a b)
      (λ i j k l d h. dot_elsewhere a b i j k l d (λ c e. write-other_row i j k l c e h))
      (λ i j l d h. dot_elsewhere a b i j i l d (λ c e. write-other_column i j i l c e h))
      (λ i j old new. new ≡ dot a b i j a.cols) (λ i j d. dot_here a b i j a.cols d) a.rows b.cols
      memory i j c e
