-- ===== src/PideShop/Matrices/Tests.antt =====
-- Matrices of one and of four cells.
use system_programming_cse.Common.{ℕ, ◌+◌, ◌*◌, ◌≡◌, refl, Option, none, some, ◌<◌, arith}
use system_programming_cse.Common.Strings.{pos, negsuc}
use system_programming_cse.PideShop.Matrices.{
  Complex, Cells, ComplexMatrix, zero_cell, create_matrix, generate_random_matrix, transpose,
  multiply, reciprocal, pseudo_inverse,
}
use system_programming_cse.PideShop.Matrices.Inverses.{IsUnit, pseudo_inverse-IsUnit}
use system_programming_cse.PideShop.Matrices.Exact.{exact_sum, multiply-exact_sum}

abbrev cell : ℕ → Complex
cell n = record { real = pos n; imag = negsuc n }

abbrev counted : ComplexMatrix
counted = record { rows = 2; cols = 3; cells = λ i j. cell (i * 3 + j) }

abbrev single : ComplexMatrix
single = record { rows = 1; cols = 1; cells = λ i j. record { real = pos 2; imag = pos 0 } }

abbrev zeros : Cells
zeros i j = zero_cell

abbrev map_option : (ComplexMatrix → Complex) → Option ComplexMatrix → Option Complex
map_option f none = none
map_option f (some m) = some (f m)

multiply_twice : multiply zeros counted counted ≡ none
unfolding multiply
multiply_twice = refl

-- The inverse of the number 2 is cut to 0.
pseudo_inverse-single :
    map_option (λ p. p.cells 0 0) (pseudo_inverse zeros zeros single) ≡ some zero_cell
unfolding pseudo_inverse reciprocal
pseudo_inverse-single = refl

pseudo_inverse-IsUnit_example :
    (p : ComplexMatrix) × (pseudo_inverse zeros zeros counted ≡ some p)
    × (p.rows ≡ 3)
    × (p.cols ≡ 3)
    × ((i j : ℕ)
        → i < 3
        → j < 3
        → (p.cells i j ≡ p.cells j i) × IsUnit (p.cells i j).real × IsUnit (p.cells i j).imag)
pseudo_inverse-IsUnit_example = pseudo_inverse-IsUnit zeros zeros counted

multiply-exact_sum_example :
    (m p : ComplexMatrix) × (m
      ≡ (generate_random_matrix (λ n. n * 7) 3 (create_matrix zeros 30 40)).1)
    × (multiply zeros (transpose zeros m) m ≡ some p)
    × (p.rows ≡ 40)
    × (p.cols ≡ 40)
    × ((i j : ℕ)
        → i < 40
        → j < 40
        → p.cells i j ≡ exact_sum (λ k. m.cells k i) (λ k. m.cells k j) 30)
multiply-exact_sum_example = multiply-exact_sum (λ n. n * 7) 3 zeros zeros zeros 30 40 (omega arith)
