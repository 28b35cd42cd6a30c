-- ===== src/Fifos/Startup/Tests.antt =====
-- The program in an empty directory, and without its argument.
use system_programming_cse.Common.{◌≡◌, refl, true, [], codes}
use system_programming_cse.Fifos.Startup.{stopped, start_fifos}

no_argument :
    start_fifos (λ name. true) (λ name. true) (λ i. i) (codes "hw2") [] []
    ≡ stopped [] (codes "Usage: hw2 <integer>\n") []
unfolding start_fifos
no_argument = refl
