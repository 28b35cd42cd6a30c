-- ===== src/PideShop/Oven/Tests.antt =====
-- Two cooks at the oven.
use system_programming_cse.Common.{ℕ, ◌≡◌, refl, List, [], ◌∷◌}
use system_programming_cse.PideShop.Oven.{
  placed, baking, turns, kitchen, turn, turn_of, moved, cook_step, all_preparing,
}

abbrev order_of_turns : List ℕ
order_of_turns = 0 ∷ 1 ∷ 0 ∷ 1 ∷ 0 ∷ 1 ∷ 1 ∷ []

both_inside : turns order_of_turns (kitchen 2) ≡ record {
  oven = record { capacity = 4; tools = 2; queue_size = 2 };
  cooks = placed ∷ baking ∷ [];
}
unfolding turns turn turn_of moved cook_step kitchen all_preparing
both_inside = refl
