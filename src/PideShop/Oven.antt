-- ===== src/PideShop/Oven.antt =====
-- Final/server.c: the cooks at the oven, which two semaphores guard. No order is cancelled, and a call of
-- `enqueue` or `dequeue` is over before the next one.
pub mod Capacity
pub mod Progress
pub mod Places
mod Tests
use system_programming_cse.Common.{
  ℕ, zero, suc, ◌+◌, ◌-◌, Bool, true, false, Option, none, some, List, [], ◌∷◌, if◌then◌else◌, ltb,
  get_elem?, set,
}

abbrev pub max_oven_tools : ℕ
max_oven_tools = 3

abbrev pub max_oven_capacity : ℕ
max_oven_capacity = 6

-- The values of `oven_capacity_sem` and `oven_sem`, and the size of `oven_queue`.
pub record Oven : Type 0 where
  pub capacity : ℕ
  pub tools : ℕ
  pub queue_size : ℕ

-- Where a cook stands in the loop of `cook_worker`: before it waits for capacity, before it waits for a
-- tool, before and behind `enqueue`, before it waits for a tool again, before `dequeue`, before it posts
-- the capacity, and before it posts the tool.
pub data Cook : Type 0 where
  preparing claiming placing placed baking removing removed leaving : Cook

-- A step of a cook to its next place; `none` where a semaphore makes it wait.
pub cook_step : Oven → Cook → Option (Oven × Cook)
cook_step o preparing =
    if ltb 0 o.capacity then some (record o { capacity = o.capacity - 1 }, claiming) else none
cook_step o claiming =
    if ltb 0 o.tools then some (record o { tools = o.tools - 1 }, placing) else none
cook_step o placing = some (record o { queue_size = o.queue_size + 1 }, placed)
cook_step o placed = some (record o { tools = o.tools + 1 }, baking)
cook_step o baking =
    if ltb 0 o.tools then some (record o { tools = o.tools - 1 }, removing) else none
cook_step o removing = some (record o { queue_size = o.queue_size - 1 }, removed)
cook_step o removed = some (record o { capacity = o.capacity + 1 }, leaving)
cook_step o leaving = some (record o { tools = o.tools + 1 }, preparing)

pub record Kitchen : Type 0 where
  pub oven : Oven
  pub cooks : List Cook

-- The cook gets a turn, in which it takes a step if it can.
moved : Kitchen → ℕ → Option (Oven × Cook) → Kitchen
moved k i none = k
moved k i (some (o, c)) = record { oven = o; cooks = set k.cooks i c }

turn_of : Kitchen → ℕ → Option Cook → Kitchen
unfolding moved cook_step
turn_of k i none = k
turn_of k i (some c) = moved k i (cook_step k.oven c)

pub turn : ℕ → Kitchen → Kitchen
unfolding turn_of
turn i k = turn_of k i (get_elem? k.cooks i)

-- Turns in any order.
unfoldable pub turns : List ℕ → Kitchen → Kitchen
unfolding turn
turns [] k = k
turns (i ∷ is) k = turns is (turn i k)

all_preparing : ℕ → List Cook
all_preparing zero = []
all_preparing (suc n) = preparing ∷ all_preparing n

-- The start, with a number of cooks.
pub kitchen : ℕ → Kitchen
unfolding all_preparing
kitchen n = record {
  oven = record { capacity = max_oven_capacity; tools = max_oven_tools; queue_size = 0 };
  cooks = all_preparing n;
}
