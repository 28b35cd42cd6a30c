-- ===== src/PideShop/Queue/Tests.antt =====
-- A queue of two orders in memory, of which one is cancelled.
use system_programming_cse.Common.{ℕ, ◌≡◌, refl, none, some, [], ◌∷◌, ◌==◌, if◌then◌else◌, arith}
use system_programming_cse.Heap.{null, node, Heap}
use system_programming_cse.Heap.Chain.{Cells, values}
use system_programming_cse.PideShop.Orders.{Order, remove_order}
use system_programming_cse.PideShop.Queue.{Queue, remove_order_from_queue, IsQueue}
use system_programming_cse.PideShop.Queue.Remove.{remove_order_from_queue-remove_order}

abbrev with_id : ℕ → Order
with_id id = record {
  request_type = 1;
  order_id = id;
  sock = 0;
  client_address = [];
  status = [];
  cook_id = 0;
  delivery_id = 0;
}

abbrev two_nodes : Heap Order
two_nodes p =
    if p == 10
    then some (node (with_id 1) 20)
    else if p == 20
    then some (node (with_id 2) null)
    else none

abbrev two_orders : Queue
two_orders = record { head = 10; tail = 20; size = 2; heap = two_nodes }

abbrev two_cells : Cells Order
two_cells = (10, with_id 1) ∷ (20, with_id 2) ∷ []

two_orders-IsQueue : IsQueue two_orders two_cells
two_orders-IsQueue = record {
  chain = (omega arith, refl, (omega arith, refl, tt));
  distinct = (refl, (refl, tt));
  head = refl;
  tail = refl;
  size = refl;
}

remove_order_from_queue-remove_order_example :
    (r : Queue) × (ys : Cells Order) × (remove_order_from_queue
        (30 ∷ 40 ∷ [])
        (20 ∷ 10 ∷ [])
        two_orders
        1
      ≡ some r)
    × IsQueue r ys
    × (values ys ≡ remove_order 1 (with_id 1 ∷ with_id 2 ∷ []))
remove_order_from_queue-remove_order_example =
    remove_order_from_queue-remove_order (30 ∷ 40 ∷ []) (20 ∷ 10 ∷ []) two_orders two_cells 1
      two_orders-IsQueue (omega arith, refl, (omega arith, tt), (omega arith, refl, tt, tt))
      (omega arith, refl, (omega arith, tt), (omega arith, refl, tt, tt)) (omega arith)
      (omega arith)
