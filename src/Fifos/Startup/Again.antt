-- ===== src/Fifos/Startup/Again.antt =====
-- The program of Homework2/hw2.c makes its FIFOs and never removes them.
use system_programming_cse.Common.{
  ℕ, ◌≡◌, refl, ◌∙◌, ap, true, false, Bool, List, [], ◌∷◌, Text, codes,
}
use system_programming_cse.Fifos.{generate_random_numbers}
use system_programming_cse.Fifos.Startup.{
  stopped, begun, is_there, new_fifo, second_fifo, first_fifo, create_fifos, with_fifos,
  start_fifos, start_texts, received_text,
}

create_fifos-names :
    (permits : Text → Bool) (names : List Text)
    → is_there (codes "fifo1") names ≡ false
    → is_there (codes "fifo2") names ≡ false
    → permits (codes "fifo1") ≡ true
    → permits (codes "fifo2") ≡ true
    → create_fifos permits names ≡ (true, codes "fifo2" ∷ codes "fifo1" ∷ names)
unfolding create_fifos new_fifo first_fifo second_fifo is_there
create_fifos-names permits names a b c d = rw (a, c, b, d) refl

-- Started in a directory without the two names, and where the system permits it, the program begins with
-- its random numbers; whenever it is started again there, with whatever arguments, it stops.
pub start_fifos-stopped :
    (permits opens : Text → Bool) (rand : ℕ → ℕ) (program input : Text) (names : List Text)
    → is_there (codes "fifo1") names ≡ false
    → is_there (codes "fifo2") names ≡ false
    → permits (codes "fifo1") ≡ true
    → permits (codes "fifo2") ≡ true
    → opens (codes "fifo1") ≡ true
    → opens (codes "fifo2") ≡ true
    → (printed left : List Text) × (start_fifos permits opens rand program (input ∷ []) names
        ≡ begun printed (generate_random_numbers rand) left)
      × ((permits opens : Text → Bool) (rand : ℕ → ℕ) (program : Text) (arguments : List Text)
          → (printed : List Text) × (message : Text) × (start_fifos permits opens rand program
                arguments left
              ≡ stopped printed message left))
unfolding start_fifos with_fifos
start_fifos-stopped permits opens rand program input names a b c d e f = (
  start_texts (received_text input) (generate_random_numbers rand),
  codes "fifo2" ∷ codes "fifo1" ∷ names,
  ap (with_fifos opens rand (received_text input)) (create_fifos-names permits names a b c d)
      ∙ rw (e, f) refl,
  again,
)
  where
    again :
        (permits opens : Text → Bool) (rand : ℕ → ℕ) (program : Text) (arguments : List Text)
        → (printed : List Text) × (message : Text) × (start_fifos permits opens rand program
              arguments
              (codes "fifo2" ∷ codes "fifo1" ∷ names)
            ≡ stopped printed message (codes "fifo2" ∷ codes "fifo1" ∷ names))
    again permits opens rand program [] = ([], _, refl)
    again permits opens rand program (input ∷ []) = (_, _, refl)
    again permits opens rand program (input ∷ other ∷ arguments) = ([], _, refl)
