-- ===== src/PideShop/Orders/Statuses.antt =====
-- What the clients of Final/server.c have been told at every moment.
use system_programming_cse.Common.{ℕ, zero, suc, ◌*◌, ◌≤◌, ◌≡◌, refl, some, List, arith}
use system_programming_cse.Common.Sums.{sum, sum_mono}
use system_programming_cse.PideShop.Orders.{
  max_clients, Order, Cook, Shop, Event, run, all_free, none_carried, open_shop,
}
use system_programming_cse.PideShop.Orders.Conservation.{placed}
use system_programming_cse.PideShop.Orders.Bounds.{one, at_sock, run-defined, open_shop-total}
use system_programming_cse.PideShop.Orders.Messages.{
  Status, cooking, in_oven, cooked, delivering, is_delivered, past_cook, past_pool, past_courier,
  past, messages, Told, run-Told,
}

module _ (weight : ℕ → ℕ → ℕ) where
  past_mono :
      (m n : Status) (s : Shop)
      → ((c : Cook) → past_cook weight m c ≤ past_cook weight n c)
      → ((o : Order) → past_pool weight m o ≤ past_pool weight n o)
      → ((o : Order) → past_courier weight m o ≤ past_courier weight n o)
      → past weight m s ≤ past weight n s
  unfolding past
  past_mono m n s f g h = omega (
    arith,
    sum_mono (past_cook weight m) (past_cook weight n) f s.cooks,
    sum_mono (past_pool weight m) (past_pool weight n) g s.delivery_tasks,
    sum_mono (sum (past_courier weight m)) (sum (past_courier weight n))
        (sum_mono (past_courier weight m) (past_courier weight n) h) s.carried,
  )

  -- An order that is past a status is past those before it.
  pub past-decreasing :
      (s : Shop)
      → (past weight is_delivered s ≤ past weight delivering s)
        × (past weight delivering s ≤ past weight cooked s)
        × (past weight cooked s ≤ past weight in_oven s)
        × (past weight in_oven s ≤ past weight cooking s)
  past-decreasing s = (
    past_mono is_delivered delivering s (λ c. ground arith) (λ o. ground arith) (λ o. ground arith),
    past_mono delivering cooked s (λ c. ground arith) (λ o. ground arith) (λ o. ground arith),
    past_mono cooked in_oven s (λ c. ground arith) (λ o. ground arith) (λ o. ground arith),
    past_mono in_oven cooking s (λ c. ground arith) (λ o. ground arith) (λ o. ground arith),
  )

  all_free-past : (m : Status) (n : ℕ) → sum (past_cook weight m) (all_free n) ≡ 0
  unfolding all_free
  all_free-past m zero = refl
  all_free-past m (suc n) = ground (arith, all_free-past m n)

  none_carried-past : (m : Status) (n : ℕ) → sum (sum (past_courier weight m)) (none_carried n) ≡ 0
  unfolding none_carried
  none_carried-past m zero = refl
  none_carried-past m (suc n) = omega (arith, none_carried-past m n)

  pub open_shop-Told : (m : Status) (cooks couriers : ℕ) → Told weight m (open_shop cooks couriers)
  unfolding open_shop messages past
  open_shop-Told m cooks couriers =
      omega (arith, all_free-past m (2 * cooks), none_carried-past m (2 * couriers))

-- If the clients place no more than MAX_CLIENTS orders, then after any steps of the threads and any
-- cancels, as many messages with a status have been sent to a socket as orders of that socket have come
-- so far; so each of "Cooking", "In Oven", "Cooked", "Delivering" and "Delivered" has been sent to it at
-- most as often as the one before.
pub run-messages :
    (es : List Event) (cooks couriers : ℕ)
    → placed one es ≤ max_clients
    → (t : Shop) × (run es (open_shop cooks couriers) ≡ some t)
      × ((sock : ℕ) (m : Status) → messages (at_sock sock) m t ≡ past (at_sock sock) m t)
      × ((sock : ℕ)
          → (messages (at_sock sock) is_delivered t ≤ messages (at_sock sock) delivering t)
            × (messages (at_sock sock) delivering t ≤ messages (at_sock sock) cooked t)
            × (messages (at_sock sock) cooked t ≤ messages (at_sock sock) in_oven t)
            × (messages (at_sock sock) in_oven t ≤ messages (at_sock sock) cooking t))
run-messages es cooks couriers few =
    let start = open_shop cooks couriers in
    let (t, r) = run-defined es start (omega (arith, open_shop-total one cooks couriers)) in
    let told : (sock : ℕ) (m : Status) → messages (at_sock sock) m t ≡ past (at_sock sock) m t =
      λ sock m.
        run-Told (at_sock sock) m es start t (open_shop-Told (at_sock sock) m cooks couriers) r in
    (
      t,
      r,
      told,
      λ sock.
          let chain = past-decreasing (at_sock sock) t in
          omega (
            arith,
            chain,
            told sock is_delivered,
            told sock delivering,
            told sock cooked,
            told sock in_oven,
            told sock cooking,
          ),
    )
