-- ===== src/Fifos.antt =====
-- Homework2/hw2.c: a parent sends numbers and a command to its two children over FIFOs. The whole content of a FIFO
-- is given to the process that reads it; its `int`s are not negative.
pub mod Sums
pub mod Processes
pub mod Startup
mod Tests
use system_programming_cse.Common.{
  ℕ, zero, suc, ◌+◌, ◌*◌, ◌/◌, ◌%◌, ◌^◌, Bool, true, false, Option, none, some, List, [], ◌∷◌, ◌++◌,
  if◌then◌else◌, Text, codes, text_eq, length, take, drop,
}
use system_programming_cse.Common.Strings.{token}

-- The four bytes of an `int`, the lowest one first.
pub int_bytes : ℕ → Text
int_bytes n = n % 256 ∷ n / 256 % 256 ∷ n / 256 ^ 2 % 256 ∷ n / 256 ^ 3 % 256 ∷ []

pub int_of : Text → ℕ
int_of [] = 0
int_of (b ∷ bs) = b + 256 * int_of bs

-- `read` of an `int` that holds `old`: nothing at the end of the FIFO, else four bytes or the ones that are left.
pub read_int : ℕ → Text → Option (ℕ × Text)
unfolding int_bytes int_of
read_int old [] = none
read_int old (b ∷ s) =
    let bytes = take 4 (b ∷ s) in
    some (int_of (bytes ++ drop (length bytes) (int_bytes old)), drop 4 (b ∷ s))

abbrev array_size : ℕ
array_size = 2

-- The numbers that `rand` gives.
generate_from : (ℕ → ℕ) → ℕ → ℕ → List ℕ
generate_from rand i zero = []
generate_from rand i (suc k) = rand i % 100 ∷ generate_from rand (suc i) k

pub generate_random_numbers : (ℕ → ℕ) → List ℕ
unfolding generate_from
generate_random_numbers rand = generate_from rand 0 array_size

pub write_to_fifo : List ℕ → Text
unfolding int_bytes
write_to_fifo [] = []
write_to_fifo (n ∷ ns) = int_bytes n ++ write_to_fifo ns

-- The loop of the first child, on fuel: the sum so far, and the number that was read last.
sum_loop : ℕ → ℕ → ℕ → Text → Option ℕ
unfolding read_int
sum_loop zero num sum s = none
sum_loop (suc k) num sum s = elim (read_int num s) [
  | none ↦ some sum
  | some (n, rest) ↦ sum_loop k n (sum + n) rest
]

-- The sum that it writes to the second FIFO, and its exit status. `memory` is what lies in its variable before.
pub child_process1 : ℕ → Text → Option (ℕ × ℕ)
unfolding sum_loop
child_process1 memory fifo1 = elim (sum_loop (length fifo1 + 1) memory 0 fifo1) [
  | none ↦ none
  | some sum ↦ some (sum, sum % 256)
]

-- The product, and what is left in the FIFO. A number that is not there is not multiplied.
product_loop : ℕ → ℕ → Text → ℕ × Text
unfolding read_int
product_loop zero product s = (product, s)
product_loop (suc k) product s = elim (read_int 0 s) [
  | none ↦ product_loop k product s
  | some (n, rest) ↦ product_loop k (product * n) rest
]

-- What the second child prints last: its final sum, or that there is no valid command.
pub data Report : Type 0 where
  final_sum : ℕ → Report
  no_command : Report

command_in : ℕ → ℕ → Text → Report
command_in product sum_from_child1 s =
    if text_eq (token (0 ∷ []) (take 19 s)) (codes "multiply")
    then final_sum (product + sum_from_child1)
    else no_command

-- `memory` is what lies in `sum_from_child1` before the read.
pub child_process2 : ℕ → Text → Report
unfolding product_loop read_int command_in
child_process2 memory fifo2 =
    let (product, s) = product_loop array_size 1 fifo2 in
    elim (read_int memory s) [
      | none ↦ command_in product memory s
      | some (sum_from_child1, rest) ↦ command_in product sum_from_child1 rest
    ]

-- What the parent writes to the second FIFO behind the numbers.
abbrev pub command : Text
command = codes "multiply" ++ 0 ∷ []

-- The second child, which finds the numbers, the sum of the first child and the command in its FIFO.
second_child : ℕ → Text → Option (ℕ × ℕ) → Option (ℕ × Report)
unfolding child_process2 int_bytes
second_child memory numbers none = none
second_child memory numbers (some (sum, status)) =
    some (status, child_process2 memory (numbers ++ (int_bytes sum ++ command)))

-- The three processes, where the first child writes its sum while the parent sleeps, before the command, and no
-- open of a FIFO blocks for ever. What comes of a late sum is left out.
pub hw2 : (ℕ → ℕ) → ℕ → ℕ → Option (ℕ × Report)
unfolding generate_random_numbers write_to_fifo child_process1 second_child
hw2 rand memory1 memory2 =
    let numbers = write_to_fifo (generate_random_numbers rand) in
    second_child memory2 numbers (child_process1 memory1 numbers)
