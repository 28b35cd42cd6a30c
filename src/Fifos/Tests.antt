-- ===== src/Fifos/Tests.antt =====
-- The numbers 7 and 12 through the FIFOs.
use system_programming_cse.Common.{ℕ, zero, suc, ◌≡◌, some}
use system_programming_cse.Fifos.{final_sum, hw2}
use system_programming_cse.Fifos.Sums.{hw2_reports}

abbrev rand : ℕ → ℕ
rand zero = 107
rand (suc i) = 12

hw2_reports_example : hw2 rand 5 6 ≡ some (19, final_sum 103)
hw2_reports_example = hw2_reports rand 5 6
