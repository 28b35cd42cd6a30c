-- ===== src/PideShop/Work/Tests.antt =====
-- A cook that puts an order into the oven, and bakes it.
use system_programming_cse.Common.{ℕ, ◌*◌, ◌≤◌, ◌≡◌, refl, some, List, [], ◌∷◌, arith, length}
use system_programming_cse.PideShop.Oven.{max_oven_capacity, turns, kitchen}
use system_programming_cse.PideShop.Orders.{Order, Event, client, manager, cook, run, open_shop}
use system_programming_cse.PideShop.Orders.Conservation.{placed}
use system_programming_cse.PideShop.Work.{Work, run_work, open_work}
use system_programming_cse.PideShop.Work.Runs.{run_work-oven_queue}

abbrev with_id : ℕ → ℕ → Order
with_id request_type id = record {
  request_type = request_type;
  order_id = id;
  sock = 0;
  client_address = [];
  status = [];
  cook_id = 0;
  delivery_id = 0;
}

-- The cook takes the task, a place, a tool, and puts the order into the queue; another order comes in.
abbrev events : List Event
events =
    client 7 (with_id 1 1)
    ∷ manager
    ∷ cook 0 1
    ∷ cook 0 1
    ∷ cook 0 1
    ∷ cook 0 1
    ∷ client 8 (with_id 1 2)
    ∷ cook 0 1
    ∷ []

run_work-oven_queue_example :
    (v : Work) × (run_work events (open_work 1 1) ≡ some v)
    × ((fs : List Event) × (run fs (open_shop 1 1) ≡ some v.shop)
        × ((weight : ℕ → ℕ → ℕ) → placed weight fs ≤ placed weight events))
    × ((is : List ℕ) × (turns is (kitchen (2 * 1)) ≡ v.kitchen))
    × (length v.shop.oven_queue ≤ max_oven_capacity)
run_work-oven_queue_example = run_work-oven_queue events 1 1 (omega arith) (refl, (refl, tt))
