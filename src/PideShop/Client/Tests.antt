-- ===== src/PideShop/Client/Tests.antt =====
-- A client that is told about its order, and one that is interrupted after two orders.
use system_programming_cse.Common.{ℕ, ◌≡◌, refl, true, some, List, [], ◌∷◌, ◌+◌, codes, Text}
use system_programming_cse.PideShop.Orders.{Order, Shop, run, open_shop}
use system_programming_cse.PideShop.Client.{new_order, place_order, signal_handler}
use system_programming_cse.PideShop.Client.Rounds.{
  from_id, answers, arrivals, signal_handler-from_id,
}

abbrev with_status : ℕ → Text → Order
with_status id status = record {
  request_type = 1;
  order_id = id;
  sock = 4;
  client_address = [];
  status = status;
  cook_id = 2;
  delivery_id = 1;
}

abbrev told : List Order
told = with_status 0 (codes "Cooking") ∷ with_status 0 (codes "In Oven") ∷ []

place_order_lines :
    place_order told ≡ (codes "Order 0: Cooking (Cook 2)\n" ∷ codes "Order 0: In Oven\n" ∷ [], [])
unfolding place_order
place_order_lines = refl

new_order_id : (new_order (with_status 9 []) (codes "1.00 2.00") 6).0.order_id ≡ 6
unfolding new_order
new_order_id = refl

-- Orders of two clients wait, each with its first and its third.
waiting : Shop
waiting = record (open_shop 1 1) {
  order_queue = with_status 0 [] ∷ with_status 2 [] ∷ with_status 0 [] ∷ with_status 2 [] ∷ [];
}

signal_handler-from_id_example :
    let (orders, finished) = signal_handler (with_status 5 []) (λ i. true) 2 in
    (finished ≡ true)
    × (run (arrivals (λ i. 10 + i) 0 orders) waiting
        ≡ some (record waiting {
          order_queue = from_id 2 waiting.order_queue;
          oven_queue = from_id 2 waiting.oven_queue;
          delivery_queue = from_id 2 waiting.delivery_queue;
          sent = answers (with_status 5 []) 0 2 waiting.sent;
        }))
signal_handler-from_id_example = signal_handler-from_id (with_status 5 []) (λ i. 10 + i) 2 waiting
