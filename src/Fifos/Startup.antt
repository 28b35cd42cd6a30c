-- ===== src/Fifos/Startup.antt =====
-- The start of `main` in Homework2/hw2.c, up to `parent_process`. What `perror` adds to a message is left out, and
-- `fork` succeeds, as the code takes for granted.
pub mod Again
mod Tests
use system_programming_cse.Common.{
  ℕ, Bool, true, false, Option, none, some, List, [], ◌∷◌, ◌++◌, map, not, ◌&&◌, ◌||◌,
  if◌then◌else◌, Text, codes, text_eq, take,
}
use system_programming_cse.Common.Strings.{ℤ, atoi, decimal}
use system_programming_cse.Common.Numerals.{signed_decimal}
use system_programming_cse.Fifos.{generate_random_numbers}

-- The names in the directory are the state. The exit with EXIT_FAILURE, with what was printed and the
-- message, or the numbers that the parent goes on with.
pub data Begun : Type 0 where
  stopped : (printed : List Text) (message : Text) (names : List Text) → Begun
  begun : (printed : List Text) (numbers : List ℕ) (names : List Text) → Begun

pub is_there : Text → List Text → Bool
is_there name [] = false
is_there name (n ∷ ns) = text_eq n name || is_there name ns

-- `mkfifo` fails where the name is there, and where the system does not permit it.
new_fifo : (Text → Bool) → Text → List Text → Option (List Text)
unfolding is_there
new_fifo permits name names =
    if is_there name names || not (permits name) then none else some (name ∷ names)

-- The second FIFO; the first one stays if it fails.
second_fifo : (Text → Bool) → List Text → Option (List Text) → Bool × List Text
second_fifo permits names none = (false, names)
second_fifo permits names (some more) = (true, more)

first_fifo : (Text → Bool) → List Text → Option (List Text) → Bool × List Text
unfolding second_fifo new_fifo
first_fifo permits names none = (false, names)
first_fifo permits names (some more) =
    second_fifo permits more (new_fifo permits (codes "fifo2") more)

-- Whether the program goes on, and the names in the directory.
pub create_fifos : (Text → Bool) → List Text → Bool × List Text
unfolding first_fifo new_fifo
create_fifos permits names = first_fifo permits names (new_fifo permits (codes "fifo1") names)

-- The numbers as they are printed.
number_text : ℕ → Text
number_text n = decimal n ++ codes " "

-- What is printed before the children are started.
start_texts : Text → List ℕ → List Text
unfolding number_text
start_texts received numbers =
    received
      ∷ codes "FIFOs created successfully.\n"
      ∷ codes "Array filled with random numbers:\n"
      ∷ map number_text numbers
    ++ codes "\n" ∷ []

-- The line about the argument; `message` is an array of 100 bytes.
received_text : Text → Text
unfolding atoi
received_text input =
    take 99 (codes "Received integer: " ++ signed_decimal (atoi input) ++ codes "\n")

-- `opens` says whether the parent can open a FIFO for writing.
with_fifos : (Text → Bool) → (ℕ → ℕ) → Text → Bool × List Text → Begun
unfolding generate_random_numbers start_texts
with_fifos opens rand received (false, names) =
    stopped (received ∷ []) (codes "Failed to create FIFOs") names
with_fifos opens rand received (true, names) =
    let numbers = generate_random_numbers rand in
    let printed = start_texts received numbers in
    if opens (codes "fifo1") && opens (codes "fifo2")
    then begun printed numbers names
    else stopped printed (codes "Failed to open FIFOs") names

-- The name of the program and the arguments behind it.
pub start_fifos : (permits opens : Text → Bool) → (ℕ → ℕ) → Text → List Text → List Text → Begun
unfolding with_fifos create_fifos received_text
start_fifos permits opens rand program (input ∷ []) names =
    with_fifos opens rand (received_text input) (create_fifos permits names)
start_fifos permits opens rand program _ names =
    stopped [] (codes "Usage: " ++ program ++ codes " <integer>\n") names
