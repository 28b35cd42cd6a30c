-- ===== src/PideShop/Orders/Cancel.antt =====
-- What a cancel does in Final/server.c, and what it does not reach.
use system_programming_cse.Common.{ℕ, ◌≡◌, ◌≢◌, refl, ℕ_discrete, List, [], ◌∷◌, arith, codes}
use mathlib.Core.List.{filter}
use system_programming_cse.PideShop.Orders.{
  order_cancelled, Order, Shop, remove_order, update_client, handle_client,
}

abbrev pub is_other : (id : ℕ) (o : Order) → Dec (o.order_id ≢ id)
is_other id o = elim (ℕ_discrete o.order_id id) [ yes e ↦ no (λ n. n e) | no n ↦ yes n ]

remove_order-filter : (id : ℕ) (os : List Order) → remove_order id os ≡ filter (is_other id) os
unfolding remove_order
remove_order-filter id [] = refl
remove_order-filter id (o ∷ os) = ground (arith, remove_order-filter id os)

-- A cancel keeps in each of the three queues exactly the orders with another id, in their order,
-- and answers its client; an order that the manager has passed on stays in the pools, with the
-- cooks or with the couriers.
pub handle_client-filter :
    (sock : ℕ) (o : Order) (s : Shop)
    → o.request_type ≡ order_cancelled
    → let after = handle_client sock o s in
      let others = filter (is_other o.order_id) in
      (after.order_queue ≡ others s.order_queue)
      × (after.oven_queue ≡ others s.oven_queue)
      × (after.delivery_queue ≡ others s.delivery_queue)
      × (after.sent ≡ (o.sock, record o { status = codes "Cancelled" }) ∷ s.sent)
      × (after.cook_tasks ≡ s.cook_tasks)
      × (after.cooks ≡ s.cooks)
      × (after.delivery_tasks ≡ s.delivery_tasks)
      × (after.carried ≡ s.carried)
unfolding handle_client update_client
handle_client-filter sock o s e =
    let id = o.order_id in
    ground (
      arith,
      e,
      remove_order-filter id s.order_queue,
      remove_order-filter id s.oven_queue,
      remove_order-filter id s.delivery_queue,
    )

-- What is left of the shop when a cancel has been handled.
pub handle_client-remove_order :
    (sock : ℕ) (o : Order) (s : Shop)
    → o.request_type ≡ order_cancelled
    → handle_client sock o s ≡ record s {
      order_queue = remove_order o.order_id s.order_queue;
      oven_queue = remove_order o.order_id s.oven_queue;
      delivery_queue = remove_order o.order_id s.delivery_queue;
      sent = (o.sock, record o { status = codes "Cancelled" }) ∷ s.sent;
    }
unfolding handle_client update_client
handle_client-remove_order sock o s e = ground (arith, e)
