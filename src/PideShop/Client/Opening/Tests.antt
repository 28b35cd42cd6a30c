-- ===== src/PideShop/Client/Opening/Tests.antt =====
-- A client whose second round does not reach the server, and two orders with one number.
use system_programming_cse.Common.{
  ℕ, zero, suc, ◌+◌, ◌≡◌, refl, some, List, [], ◌∷◌, arith, Text, codes, get_elem?,
}
use system_programming_cse.PideShop.Orders.{Order}
use system_programming_cse.PideShop.Client.{new_order}
use system_programming_cse.PideShop.Client.Opening.{
  Connection, connected, no_connection, gave_up, main, starting, placed, Placers, take_turns,
}
use system_programming_cse.PideShop.Client.Opening.Race.{take_turns-same_number}

abbrev calls : ℕ → Connection
calls zero = connected 4
calls (suc i) = no_connection

abbrev arguments : List Text
arguments = codes "10.0.0.7" ∷ codes "8080" ∷ codes "3" ∷ codes "9" ∷ codes "9" ∷ []

gives_up : main calls (codes "client") arguments ≡ gave_up (codes "Connection failed") (4 ∷ [])
unfolding main
gives_up = refl

abbrev memory : Order
memory = record {
  request_type = 0;
  order_id = 9;
  sock = 0;
  client_address = [];
  status = [];
  cook_id = 0;
  delivery_id = 0;
}

abbrev both_starting : Placers
both_starting = record { order_id = 5; threads = starting ∷ starting ∷ [] }

take_turns-same_number_example :
    let t = take_turns memory (codes "1.00 2.00") (0 ∷ 1 ∷ 0 ∷ 1 ∷ []) both_starting in
    let order = (new_order memory (codes "1.00 2.00") 5).0 in
    (get_elem? t.threads 0 ≡ some (placed order))
    × (get_elem? t.threads 1 ≡ some (placed order))
    × (order.order_id ≡ 5)
    × (t.order_id ≡ 5 + 1)
take_turns-same_number_example =
    take_turns-same_number memory (codes "1.00 2.00") 0 1 both_starting (omega arith) refl refl
