-- ===== src/PideShop/Orders/Tests.antt =====
-- Two orders, of which one is cancelled too late, and too many orders for the cooks.
use system_programming_cse.Common.{
  ℕ, zero, suc, ◌≡◌, ◌≤◌, refl, true, Option, none, some, List, [], ◌∷◌, take, arith, Text, codes,
}
use system_programming_cse.PideShop.Orders.{
  Order, free, baking, Shop, Event, client, manager, cook, courier, step, run, open_shop,
}
use system_programming_cse.PideShop.Orders.Conservation.{total}
use system_programming_cse.PideShop.Orders.Bounds.{only, at_sock, run-open_shop}
use system_programming_cse.PideShop.Orders.Messages.{cooking, messages}
use system_programming_cse.PideShop.Orders.Heard.{heard, story}
use system_programming_cse.PideShop.Orders.Story.{level, run-story}
use system_programming_cse.PideShop.Client.{place_order}
use system_programming_cse.PideShop.Client.Told.{inbox, nonempty, story_lines}
use system_programming_cse.PideShop.Client.Told.Lines.{run-story_lines}

abbrev with_id : ℕ → ℕ → Order
with_id request_type id = record {
  request_type = request_type;
  order_id = id;
  sock = 0;
  client_address = codes "2 3";
  status = [];
  cook_id = 0;
  delivery_id = 0;
}

-- The cook takes the order with id 2 and finishes it although it is cancelled.
abbrev cancelled_late : List Event
cancelled_late =
    client 7 (with_id 1 1)
    ∷ client 8 (with_id 1 2)
    ∷ manager
    ∷ manager
    ∷ cook 0 1
    ∷ client 9 (with_id 5 2)
    ∷ cook 0 1
    ∷ cook 0 1
    ∷ cook 0 1
    ∷ courier 1 2 true
    ∷ courier 1 2 true
    ∷ []

ids : List Order → List ℕ
ids [] = []
ids (o ∷ os) = o.order_id ∷ ids os

delivered_ids : Option Shop → List ℕ
unfolding ids
delivered_ids none = []
delivered_ids (some s) = ids s.delivered

cancelled_late_delivered : delivered_ids (run cancelled_late (open_shop 1 1)) ≡ 2 ∷ []
unfolding delivered_ids run step open_shop
cancelled_late_delivered = refl

orders : ℕ → List Event
orders zero = []
orders (suc n) = client 7 (with_id 1 n) ∷ manager ∷ orders n

-- Fifty orders fill the array of the cooks, and the next one is written behind it.
fifty_one_orders : run (orders 51) (open_shop 1 1) ≡ none
unfolding run step open_shop orders
fifty_one_orders = refl

run-open_shop_example :
    (t : Shop) × (run cancelled_late (open_shop 1 1) ≡ some t) × (total (only 1) t ≡ 1)
run-open_shop_example = run-open_shop cancelled_late 1 1 1 (omega arith) (ground arith)

waiting_shop : Shop
unfolding open_shop
waiting_shop = record (open_shop 1 1) { order_queue = with_id 1 1 ∷ with_id 1 2 ∷ with_id 1 3 ∷ [] }

-- The cook has told the client that its order is in the oven.
abbrev in_the_oven : List Event
in_the_oven = client 8 (with_id 1 2) ∷ manager ∷ cook 0 1 ∷ cook 0 1 ∷ []

abbrev task : Text → Order
task status = record (with_id 1 2) { sock = 8; cook_id = 1; status = status }

abbrev after_oven : Shop
after_oven = record {
  order_queue = [];
  oven_queue = task [] ∷ [];
  delivery_queue = [];
  cook_tasks = [];
  task_sem = 0;
  cooks = baking (task []) ∷ free ∷ [];
  delivery_tasks = [];
  carried = [] ∷ [] ∷ [];
  delivered = [];
  sent = (8, task (codes "In Oven")) ∷ (8, task (codes "Cooking")) ∷ [];
}

run-in_the_oven : run in_the_oven (open_shop 1 1) ≡ some after_oven
unfolding run step open_shop
run-in_the_oven = refl

told_cooking : messages (at_sock 8) cooking after_oven ≤ 1
unfolding messages
told_cooking = omega arith

run-story_example :
    (heard 8 after_oven.sent ≡ story (level 8 after_oven)) × (level 8 after_oven ≤ 5)
run-story_example = run-story in_the_oven 1 1 8 run-in_the_oven told_cooking

run-story_lines_example :
    (b c d : ℕ) × (nonempty (place_order (inbox 8 after_oven.sent)).0
      ≡ take (level 8 after_oven) (story_lines 2 b c d))
run-story_lines_example =
    run-story_lines in_the_oven 1 1 8 2 (inbox 8 after_oven.sent) run-in_the_oven refl (omega arith)
      (omega arith)
