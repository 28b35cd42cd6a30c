-- ===== src/Fifos/Sums.antt =====
-- What the children of Homework2/hw2.c make of the numbers.
use system_programming_cse.Common.{
  ℕ, ◌+◌, ◌*◌, ◌%◌, ◌^◌, ◌<◌, ◌≡◌, refl, ap, ap₂, ◌∙◌, Option, some, [], ◌∷◌, ◌++◌, arith,
}
use system_programming_cse.Fifos.{
  int_bytes, int_of, generate_random_numbers, write_to_fifo, child_process1, Report, final_sum,
  child_process2, command, second_child, hw2,
}

int_of-int_bytes : (n : ℕ) → n < 2 ^ 32 → int_of (int_bytes n) ≡ n
unfolding int_of int_bytes
int_of-int_bytes n h = omega arith

-- An `int` as it goes through a FIFO.
abbrev sent : ℕ → ℕ
sent n = int_of (int_bytes n)

child_process1-sent :
    (memory m n : ℕ)
    → child_process1 memory (write_to_fifo (m ∷ n ∷ []))
      ≡ some (0 + sent m + sent n, (0 + sent m + sent n) % 256)
unfolding child_process1 write_to_fifo
child_process1-sent memory m n = refl

child_process1-sum :
    (memory m n : ℕ)
    → m < 100
    → n < 100
    → child_process1 memory (write_to_fifo (m ∷ n ∷ [])) ≡ some (m + n, m + n)
child_process1-sum memory m n hm hn =
    let sum : 0 + sent m + sent n ≡ m + n = omega (arith, int_of-int_bytes m, int_of-int_bytes n) in
    let status : (0 + sent m + sent n) % 256 ≡ m + n = omega (arith, sum) in
    child_process1-sent memory m n ∙ ap₂ (λ x y. some (x, y)) sum status

child_process2-sent :
    (memory m n sum : ℕ)
    → child_process2 memory (write_to_fifo (m ∷ n ∷ []) ++ (int_bytes sum ++ command))
      ≡ final_sum (1 * sent m * sent n + sent sum)
unfolding child_process2 write_to_fifo int_bytes
child_process2-sent memory m n sum = refl

child_process2-sum :
    (memory m n sum : ℕ)
    → m < 100
    → n < 100
    → sum < 200
    → child_process2 memory (write_to_fifo (m ∷ n ∷ []) ++ (int_bytes sum ++ command))
      ≡ final_sum (m * n + sum)
child_process2-sum memory m n sum hm hn hs =
    let first : 1 * sent m ≡ m = omega (arith, int_of-int_bytes m) in
    let product : 1 * sent m * sent n ≡ m * n =
      ap₂ (λ x y. x * y) first (int_of-int_bytes n (omega arith)) in
    let whole : 1 * sent m * sent n + sent sum ≡ m * n + sum =
      ap₂ (λ x y. x + y) product (int_of-int_bytes sum (omega arith)) in
    child_process2-sent memory m n sum ∙ ap final_sum whole

-- Whatever numbers `rand` gives, where the sum of the first child is in the second FIFO before the command of
-- the parent: the first child exits with the sum of the two numbers that are sent, each below 100, and the
-- second one prints their product plus this sum.
pub hw2_reports :
    (rand : ℕ → ℕ) (memory1 memory2 : ℕ)
    → let m = rand 0 % 100 in
      let n = rand 1 % 100 in hw2 rand memory1 memory2 ≡ some (m + n, final_sum (m * n + (m + n)))
unfolding hw2 second_child generate_random_numbers
hw2_reports rand memory1 memory2 =
    let m = rand 0 % 100 in
    let n = rand 1 % 100 in
    let first = child_process1-sum memory1 m n (omega arith) (omega arith) in
    let numbers = write_to_fifo (m ∷ n ∷ []) in
    let report : Report → Option (ℕ × Report) = λ r. some (m + n, r) in
    ap (second_child memory2 numbers) first
    ∙ ap report (child_process2-sum memory2 m n (m + n) (omega arith) (omega arith) (omega arith))
