-- ===== src/PideShop/Oven/Progress.antt =====
-- The cooks never block each other for good.
use system_programming_cse.Common.{ℕ, ◌≡◌, true, is_some, some, get_elem?}
use system_programming_cse.PideShop.Oven.{Oven, Cook, cook_step, Kitchen}

-- Some cook can take a step.
abbrev pub CanStep : Kitchen → Type 0
CanStep k =
    (i : ℕ) × (c : Cook) × (get_elem? k.cooks i ≡ some c) × (is_some (cook_step k.oven c) ≡ true)
