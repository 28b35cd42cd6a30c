-- ===== src/PideShop/Work.antt =====
-- Final/server.c: the threads of the shop and the semaphores of the oven together. A cook takes the steps of
-- PideShop.Orders, and between them those of PideShop.Oven. Each call on the queue of the oven is one step,
-- that of a cancel too, which in the code takes its orders out and puts them back while cooks go on.
pub mod Agreement
pub mod Together
pub mod Runs
mod Tests
use system_programming_cse.Common.{ℕ, ◌*◌, Option, none, some, List, [], ◌∷◌, get_elem?}
use system_programming_cse.PideShop.Oven.{
  Kitchen, preparing, claiming, placing, placed, baking, removing, removed, leaving, turn, kitchen,
}
use system_programming_cse.PideShop.Oven
use system_programming_cse.PideShop.Orders.{
  Cook, free, holding, baked, Shop, Outcome, cook_step, Event, client, manager, cook, courier, step,
  open_shop,
}
use system_programming_cse.PideShop.Orders

-- Each cook has its place in both lists of cooks. The size of the queue in the kitchen counts what the
-- cooks have put there and not taken out, cancelled or not.
pub record Work : Type 0 where
  pub shop : Shop
  pub kitchen : Kitchen

pub data Progress : Type 0 where
  waits undefined : Progress
  goes : Work → Progress

-- What a step in the shop comes to with a kitchen.
pub with_kitchen : Kitchen → Outcome → Progress
with_kitchen k Orders.waits = waits
with_kitchen k Orders.undefined = undefined
with_kitchen k (Orders.goes s) = goes (record { shop = s; kitchen = k })

-- The cook waits for a semaphore or posts one.
semaphore_step : ℕ → Work → Progress
semaphore_step i w = goes (record { shop = w.shop; kitchen = turn i w.kitchen })

-- A cook that has no place at the oven.
outside_step : ℕ → ℕ → Cook → Work → Progress
unfolding with_kitchen semaphore_step
outside_step i id (holding o) w = semaphore_step i w
outside_step i id c w = with_kitchen w.kitchen (cook_step i id w.shop)

-- A cook's next step in the loop of `cook_worker`, by its place at the oven: `enqueue` and `dequeue` are
-- steps of both.
pub work_at : ℕ → ℕ → Oven.Cook → Cook → Work → Progress
unfolding with_kitchen semaphore_step outside_step
work_at i id preparing c w = outside_step i id c w
work_at i id placing c w = with_kitchen (turn i w.kitchen) (cook_step i id w.shop)
work_at i id removing c w = with_kitchen (turn i w.kitchen) (cook_step i id w.shop)
work_at i id _ c w = semaphore_step i w

pub with_places : ℕ → ℕ → Option Oven.Cook → Option Cook → Work → Progress
unfolding work_at
with_places i id (some p) (some c) w = work_at i id p c w
with_places i id _ _ w = waits

unfoldable pub work_step : Event → Work → Progress
unfolding with_places with_kitchen
work_step (cook i id) w =
    with_places i id (get_elem? w.kitchen.cooks i) (get_elem? w.shop.cooks i) w
work_step e w = with_kitchen w.kitchen (step e w.shop)

-- Steps in any order, as in PideShop.Orders.
unfoldable pub run_work : List Event → Work → Option Work
unfolding work_step
run_work [] w = some w
run_work (e ∷ es) w = elim (work_step e w) [
  | waits ↦ run_work es w
  | undefined ↦ none
  | goes v ↦ run_work es v
]

-- `init_thread_pool` starts the workers, and `main` starts as many again.
pub open_work : ℕ → ℕ → Work
open_work cooks couriers = record { shop = open_shop cooks couriers; kitchen = kitchen (2 * cooks) }
