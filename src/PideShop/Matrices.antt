-- ===== src/PideShop/Matrices.antt =====
-- Final/complex_matrix.c: the matrices whose pseudo-inverse a cook computes. `cells` holds what every
-- `data[i][j]` holds, so that a matrix starts with whatever `malloc` left in its memory.
pub mod Shapes
pub mod Inverses
pub mod Exact
mod Tests
use system_programming_cse.Common.{
  ℕ, zero, suc, ◌+◌, ◌%◌, Bool, Option, none, some, if◌then◌else◌, ◌==◌,
}
use system_programming_cse.Common.Strings.{ℤ, pos, negsuc}
use system_programming_cse.Common.Longs.{◌+ℤ◌, ◌-ℤ◌, ◌*ℤ◌, ◌/ℤ◌}
unfoldable use system_programming_cse.Common.Longs.{to_long}
use system_programming_cse.Common.Loops.{for_below}

pub record Complex : Type 0 where
  pub real : ℤ
  pub imag : ℤ

abbrev pub Cells : Type 0
Cells = ℕ → ℕ → Complex

pub record ComplexMatrix : Type 0 where
  pub rows : ℕ
  pub cols : ℕ
  pub cells : Cells

-- `malloc` gives memory with the contents `memory`.
pub create_matrix : Cells → ℕ → ℕ → ComplexMatrix
create_matrix memory rows cols = record { rows = rows; cols = cols; cells = memory }

-- `data[i][j] = c`
abbrev pub write : ℕ → ℕ → Complex → Cells → Cells
write i j c d k l = if k == i then (if l == j then c else d k l) else d k l

-- Two nested loops over the rows and the columns, which both change the cells.
abbrev pub for_cells : ℕ → ℕ → (ℕ → ℕ → Cells → Cells) → Cells → Cells
for_cells rows cols body d = for_below rows (λ i. for_below cols (body i)) d

-- The numbers that `rand` returns, the first call's first; one cell takes two of them.
pub random_cell : (ℕ → ℕ) → ℕ → ℕ → ℕ × Cells → ℕ × Cells
random_cell rand i j (calls, d) = (
  suc (suc calls),
  write i j (record { real = pos (rand calls % 1000); imag = pos (rand (suc calls) % 1000) }) d,
)

pub generate_random_matrix : (ℕ → ℕ) → ℕ → ComplexMatrix → ℕ × ComplexMatrix
unfolding random_cell
generate_random_matrix rand calls m =
    let r = for_below m.rows (λ i. for_below m.cols (random_cell rand i)) (calls, m.cells) in
    (r.0, record m { cells = r.1 })

pub transpose : Cells → ComplexMatrix → ComplexMatrix
unfolding create_matrix
transpose memory m =
    let t = create_matrix memory m.cols m.rows in
    record t { cells = for_cells m.rows m.cols (λ i j. write j i (m.cells i j)) t.cells }

-- The parts of the product of two numbers; each operation on `long long int` keeps 64 bits.
pub real_part : Complex → Complex → ℤ
unfolding to_long
real_part x y = to_long (to_long (x.real *ℤ y.real) -ℤ to_long (x.imag *ℤ y.imag))

pub imag_part : Complex → Complex → ℤ
unfolding to_long
imag_part x y = to_long (to_long (x.real *ℤ y.imag) +ℤ to_long (x.imag *ℤ y.real))

abbrev pub zero_cell : Complex
zero_cell = record { real = pos 0; imag = pos 0 }

pub add_to : Complex → Complex → Complex → Complex
unfolding to_long real_part imag_part
add_to x y sum = record {
  real = to_long (sum.real +ℤ real_part x y);
  imag = to_long (sum.imag +ℤ imag_part x y);
}

-- The body of the inner loop of `multiply`.
abbrev pub add_product : ComplexMatrix → ComplexMatrix → ℕ → ℕ → ℕ → Cells → Cells
add_product a b i j k d = write i j (add_to (a.cells i k) (b.cells k j) (d i j)) d

-- The body of the two outer loops of `multiply`: the cell is set to 0, and the inner loop adds to it.
abbrev pub product_cell : ComplexMatrix → ComplexMatrix → ℕ → ℕ → Cells → Cells
product_cell a b i j d = for_below a.cols (add_product a b i j) (write i j zero_cell d)

-- `none` stands for NULL.
pub multiply : Cells → ComplexMatrix → ComplexMatrix → Option ComplexMatrix
unfolding add_to create_matrix
multiply memory a b =
    let result = create_matrix memory a.rows b.cols in
    if a.cols == b.rows
    then some (record result {
      cells = for_cells result.rows result.cols (product_cell a b) result.cells;
    })
    else none

abbrev pub is_zero : ℤ → Bool
is_zero (pos n) = n == 0
is_zero (negsuc n) = Bool.false

-- The body of the loop of `pseudo_inverse` on one part of a cell.
pub reciprocal : ℤ → ℤ
reciprocal x = if is_zero x then x else pos 1 /ℤ x

abbrev pub inverse_cell : ℕ → ℕ → Cells → Cells
inverse_cell i j d =
    write i j (record { real = reciprocal (d i j).real; imag = reciprocal (d i j).imag }) d

-- `none` where the product is NULL, which the loop would read.
inverted : Option ComplexMatrix → Option ComplexMatrix
inverted none = none
inverted (some product) =
    some (record product { cells = for_cells product.rows product.cols inverse_cell product.cells })

pub pseudo_inverse : Cells → Cells → ComplexMatrix → Option ComplexMatrix
unfolding transpose multiply inverted
pseudo_inverse memory other_memory m = inverted (multiply other_memory (transpose memory m) m)
