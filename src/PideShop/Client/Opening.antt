-- ===== src/PideShop/Client/Opening.antt =====
-- `main` of Final/client.c, and the numbers that its threads take from `order_id`. What `perror` adds to a
-- message and the two coordinates are left out; malloc and pthread_create succeed, as the code takes for
-- granted.
pub mod Race
mod Tests
use system_programming_cse.Common.{
  ℕ, zero, suc, ◌+◌, Option, none, some, List, [], ◌∷◌, ◌++◌, Text, codes, get_elem?, set,
}
use system_programming_cse.Common.Strings.{ℤ, pos, negsuc, atoi}
use system_programming_cse.PideShop.Orders.{Order}
use system_programming_cse.PideShop.Client.{new_order}

-- What a round of the loop of `main` finds.
pub data Connection : Type 0 where
  no_socket bad_address no_connection : Connection
  connected : (sock : ℕ) → Connection

-- How `main` ends: with EXIT_FAILURE; with -1 and the end of the threads that it has started, which are given
-- by their sockets; or when the threads have ended. No array has a size below 1.
pub data Ending : Type 0 where
  failed : (message : Text) → Ending
  undefined : Ending
  gave_up : (message : Text) (socks : List ℕ) → Ending
  all_joined : (socks : List ℕ) → Ending

thread_started : ℕ → Ending → Ending
thread_started sock (gave_up message socks) = gave_up message (sock ∷ socks)
thread_started sock (all_joined socks) = all_joined (sock ∷ socks)
thread_started sock e = e

-- A round, and what the rounds behind it come to.
open_round : Connection → Ending → Ending
unfolding thread_started
open_round no_socket rest = gave_up (codes "Socket creation error") []
open_round bad_address rest = gave_up (codes "Invalid address/ Address not supported") []
open_round no_connection rest = gave_up (codes "Connection failed") []
open_round (connected sock) rest = thread_started sock rest

open_loop : (ℕ → Connection) → ℕ → ℕ → Ending
unfolding open_round
open_loop connection i zero = all_joined []
open_loop connection i (suc n) = open_round (connection i) (open_loop connection (i + 1) n)

with_clients : (ℕ → Connection) → ℤ → Ending
unfolding open_loop
with_clients connection (pos (suc n)) = open_loop connection 0 (suc n)
with_clients connection _ = undefined

-- The name of the program and the arguments behind it.
pub main : (ℕ → Connection) → Text → List Text → Ending
unfolding with_clients atoi
main connection program (server_address ∷ port ∷ num_clients ∷ p ∷ q ∷ []) =
    with_clients connection (atoi num_clients)
main connection program _ =
    failed (codes "Usage: " ++ program ++ codes " <server_address> <port> <num_clients> <p> <q>\n")

-- A thread before `order_id++`, between its read and its write, and behind it with its order.
pub data Placer : Type 0 where
  starting : Placer
  read : (number : ℕ) → Placer
  placed : (order : Order) → Placer

pub record Placers : Type 0 where
  pub order_id : ℕ
  pub threads : List Placer

-- The next step of a thread; `memory` is what lies in its variable, `location` its random text.
placer_step : Order → Text → ℕ → Placer → Placers → Placers
unfolding new_order
placer_step memory location i starting s = record s { threads = set s.threads i (read s.order_id) }
placer_step memory location i (read n) s =
    let (order, next) = new_order memory location n in
    record { order_id = next; threads = set s.threads i (placed order) }
placer_step memory location i (placed order) s = s

pub take_turn : Order → Text → ℕ → Placers → Placers
unfolding placer_step
take_turn memory location i s = elim (get_elem? s.threads i) [
  | none ↦ s
  | some t ↦ placer_step memory location i t s
]

pub take_turns : Order → Text → List ℕ → Placers → Placers
unfolding take_turn
take_turns memory location [] s = s
take_turns memory location (i ∷ is) s =
    take_turns memory location is (take_turn memory location i s)
