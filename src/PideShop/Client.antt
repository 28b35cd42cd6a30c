-- ===== src/PideShop/Client.antt =====
-- Final/client.c: the orders of a client, what it prints about them, and the cancels that it sends when it is
-- interrupted.
pub mod Rounds
pub mod Told
pub mod Opening
mod Tests
use system_programming_cse.Common.{
  ℕ, zero, suc, ◌+◌, Bool, true, false, Option, none, some, List, [], ◌∷◌, ◌++◌, if◌then◌else◌,
  Text, codes, text_eq, take,
}
use system_programming_cse.Common.Strings.{decimal}
use system_programming_cse.PideShop.Orders.{Order, order_cancelled}

abbrev order_placed : ℕ
order_placed = 1

-- The order that `place_order` sends, with the number in `order_id`, and the next number. `memory` is what
-- lies in the variable; `location` is the text of the two random coordinates.
pub new_order : Order → Text → ℕ → Order × ℕ
new_order memory location order_id = (
  record memory {
    request_type = order_placed;
    order_id = order_id;
    client_address = take 255 location;
    status = codes "Placed";
  },
  order_id + 1,
)

about : Order → Text
about o = codes "Order " ++ decimal o.order_id ++ codes ": "

-- What is printed for a message.
pub line_for : Order → Text
unfolding about
line_for o =
    if text_eq o.status (codes "Delivering")
    then about o ++ codes "Delivering (Moto " ++ decimal o.delivery_id ++ codes ")\n"
    else if text_eq o.status (codes "Delivered")
    then about o ++ codes "Delivered\n"
    else if text_eq o.status (codes "Cooking")
    then about o ++ codes "Cooking (Cook " ++ decimal o.cook_id ++ codes ")\n"
    else if text_eq o.status (codes "In Oven")
    then about o ++ codes "In Oven\n"
    else if text_eq o.status (codes "Cooked")
    then about o ++ codes "Cooked (Cook " ++ decimal o.cook_id ++ codes ")\n"
    else []

-- The loop of `place_order` over its reads. The list holds what lies in the variable `order` behind each `read`
-- that returns more than 0: a message of the server if the read gives a whole one, and a mixture of bytes else.
-- What is printed for each, and what is left to read when it closes the socket.
pub place_order : List Order → List Text × List Order
unfolding line_for
place_order [] = ([], [])
place_order (o ∷ os) =
    let (lines, left) = place_order os in
    if text_eq o.status (codes "Delivered")
    then (line_for o ∷ [], os)
    else (line_for o ∷ lines, left)

-- The order of the `i`th round of `signal_handler`, which keeps what the rounds before left in the variable.
pub cancel_order : Order → ℕ → Order
cancel_order memory i = record memory {
  request_type = order_cancelled;
  order_id = i;
  client_address = take 255 (codes "Client " ++ decimal i);
  status = codes "Cancelled";
}

-- The rounds of `signal_handler` from `i`: the orders that it sends, and whether it has come to its end.
-- `works` tells in which rounds `socket`, `inet_pton` and `connect` succeed.
pub cancels_from : Order → (ℕ → Bool) → ℕ → ℕ → List Order × Bool
unfolding cancel_order
cancels_from memory works i zero = ([], true)
cancels_from memory works i (suc n) =
    let (orders, finished) = cancels_from memory works (i + 1) n in
    if works i then (cancel_order memory i ∷ orders, finished) else ([], false)

pub signal_handler : Order → (ℕ → Bool) → ℕ → List Order × Bool
unfolding cancels_from
signal_handler memory works order_id = cancels_from memory works 0 order_id
