-- ===== src/PideShop/Client/Rounds.antt =====
-- What a client prints and cancels, against what the shop of Final/server.c does.
use system_programming_cse.Common.{
  ℕ, zero, suc, ◌+◌, ◌≡◌, refl, sym, ◌∙◌, ap, ap₂, true, false, some, List, [], ◌∷◌, ◌++◌, map,
  ◌&&◌, if◌then◌else◌, ltb, leb, arith, codes, text_eq,
}
use system_programming_cse.PideShop.Orders.{
  Order, Shop, remove_order, handle_client, Event, client, step, run,
}
use system_programming_cse.PideShop.Orders.Cancel.{handle_client-remove_order}
use system_programming_cse.PideShop.Client.{
  line_for, place_order, cancel_order, cancels_from, signal_handler,
}

-- No message says that the order is delivered.
abbrev pub NoneDelivered : List Order → Type 0
NoneDelivered [] = Unit {0}
NoneDelivered (o ∷ os) = (text_eq o.status (codes "Delivered") ≡ false) × NoneDelivered os

-- A client prints a line for each message up to the first that says that its order is delivered, and
-- leaves what comes behind it; without such a message it prints a line for each until the server
-- closes the connection.
pub place_order-map :
    (before rest : List Order) (d : Order)
    → NoneDelivered before
    → text_eq d.status (codes "Delivered") ≡ true
    → (place_order (before ++ d ∷ rest) ≡ (map line_for before ++ line_for d ∷ [], rest))
      × (place_order before ≡ (map line_for before, []))
unfolding place_order
place_order-map [] rest d h e = ground (arith, e)
place_order-map (o ∷ os) rest d (n, h) e = ground (arith, n, place_order-map os rest d h e)

-- The orders of which the id is none of i, ..., i + n - 1, and those of which it is n at least.
abbrev outside : ℕ → ℕ → List Order → List Order
outside i n [] = []
outside i n (o ∷ os) =
    let rest = outside i n os in
    if leb i o.order_id && ltb o.order_id (i + n) then rest else o ∷ rest

abbrev pub from_id : ℕ → List Order → List Order
from_id n [] = []
from_id n (o ∷ os) = let rest = from_id n os in if ltb o.order_id n then rest else o ∷ rest

outside-remove_order :
    (i n : ℕ) (os : List Order) → outside (i + 1) n (remove_order i os) ≡ outside i (suc n) os
unfolding remove_order
outside-remove_order i n [] = refl
outside-remove_order i n (o ∷ os) = ground (arith, outside-remove_order i n os)

outside-none : (i : ℕ) (os : List Order) → outside i zero os ≡ os
outside-none i [] = refl
outside-none i (o ∷ os) = ground (arith, outside-none i os)

outside-from_id : (n : ℕ) (os : List Order) → outside 0 n os ≡ from_id n os
outside-from_id n [] = refl
outside-from_id n (o ∷ os) = ground (arith, outside-from_id n os)

-- The server reads each order from a connection of its own.
abbrev pub arrivals : (ℕ → ℕ) → ℕ → List Order → List Event
arrivals socks i [] = []
arrivals socks i (o ∷ os) = client (socks i) o ∷ arrivals socks (i + 1) os

-- The answers to the cancels of i, ..., i + n - 1, the last one first.
abbrev pub answers : Order → ℕ → ℕ → List (ℕ × Order) → List (ℕ × Order)
answers memory i zero sent = sent
answers memory i (suc n) sent =
    answers memory (i + 1) n ((memory.sock, cancel_order memory i) ∷ sent)

-- The shop behind these cancels.
abbrev behind : Order → ℕ → ℕ → Shop → Shop
behind memory i n s = record s {
  order_queue = outside i n s.order_queue;
  oven_queue = outside i n s.oven_queue;
  delivery_queue = outside i n s.delivery_queue;
  sent = answers memory i n s.sent;
}

cancelled :
    (memory : Order) (sock i : ℕ) (s : Shop)
    → handle_client sock (cancel_order memory i) s ≡ record s {
      order_queue = remove_order i s.order_queue;
      oven_queue = remove_order i s.oven_queue;
      delivery_queue = remove_order i s.delivery_queue;
      sent = (memory.sock, cancel_order memory i) ∷ s.sent;
    }
unfolding cancel_order
cancelled memory sock i s = handle_client-remove_order sock (cancel_order memory i) s refl

finishes : (memory : Order) (i n : ℕ) → (cancels_from memory (λ k. true) i n).1 ≡ true
unfolding cancels_from
finishes memory i zero = refl
finishes memory i (suc n) = finishes memory (i + 1) n

ap₃ :
    {A B : Type 0} (f : A → A → A → B) {a b c a' b' c' : A}
    → a ≡ a'
    → b ≡ b'
    → c ≡ c'
    → f a b c ≡ f a' b' c'
ap₃ f {a} {b' = b'} {c' = c'} p q r = ap₂ (λ x y. f a x y) q r ∙ ap (λ x. f x b' c') p

run-behind :
    (memory : Order) (socks : ℕ → ℕ) (n i j : ℕ) (s : Shop)
    → run (arrivals socks j (cancels_from memory (λ k. true) i n).0) s ≡ some (behind memory i n s)
unfolding run step cancels_from
run-behind memory socks zero i j s = ap some (
    ap₃ (λ a b c. record s { order_queue = a; oven_queue = b; delivery_queue = c })
      (sym (outside-none i s.order_queue)) (sym (outside-none i s.oven_queue))
      (sym (outside-none i s.delivery_queue)))
run-behind memory socks (suc n) i j s =
    ap (run (arrivals socks (j + 1) (cancels_from memory (λ k. true) (i + 1) n).0))
      (cancelled memory (socks j) i s)
    ∙ run-behind memory socks n (i + 1) (j + 1) _
    ∙ ap some (
        ap₃
          (λ a b c. record s {
            order_queue = a;
            oven_queue = b;
            delivery_queue = c;
            sent = answers memory i (suc n) s.sent;
          })
          (outside-remove_order i n s.order_queue) (outside-remove_order i n s.oven_queue)
          (outside-remove_order i n s.delivery_queue))

-- A client that is interrupted after `order_id` orders and reaches the server for each of them: where the
-- server handles these cancels one after another, and no other client and no other thread of the server
-- works between them or while one of them is handled, the three queues behind the last one hold exactly the orders of which the id is `order_id` at
-- least, whichever client has placed them; the pools, the cooks and the couriers have what they had, and
-- every answer has gone to the socket that lay in the variable of the client.
pub signal_handler-from_id :
    (memory : Order) (socks : ℕ → ℕ) (order_id : ℕ) (s : Shop)
    → let (orders, finished) = signal_handler memory (λ i. true) order_id in
      (finished ≡ true)
      × (run (arrivals socks 0 orders) s
          ≡ some (record s {
            order_queue = from_id order_id s.order_queue;
            oven_queue = from_id order_id s.oven_queue;
            delivery_queue = from_id order_id s.delivery_queue;
            sent = answers memory 0 order_id s.sent;
          }))
unfolding signal_handler
signal_handler-from_id memory socks order_id s = (
  finishes memory 0 order_id,
  run-behind memory socks order_id 0 0 s
      ∙ ap some (
          ap₃
            (λ a b c. record s {
              order_queue = a;
              oven_queue = b;
              delivery_queue = c;
              sent = answers memory 0 order_id s.sent;
            })
            (outside-from_id order_id s.order_queue) (outside-from_id order_id s.oven_queue)
            (outside-from_id order_id s.delivery_queue)),
)
