-- ===== src/FileServer/Queue/Tests.antt =====
-- A queue of two clients, with nodes at 8 and 5.
use system_programming_cse.Common.{ℕ, ◌≡◌, refl, false, none, some, [], ◌∷◌, arith}
use system_programming_cse.Heap.{null, node, write}
use system_programming_cse.Heap.Chain.{Cells, values}
use system_programming_cse.FileServer.Queue.{
  Queue, create_queue, dequeue, peek, display_queue, remove_client, IsQueue,
}
use system_programming_cse.FileServer.Queue.Ends.{dequeue-empty, peek-first}
use system_programming_cse.FileServer.Queue.Search.{display_queue-values}
use system_programming_cse.FileServer.Queue.Remove.{without, place, remove_client-without}

abbrev two_clients : Queue
two_clients = record {
  front = 8;
  rear = 5;
  size = 2;
  heap = write (write (λ p. none) 8 (some (node 101 5))) 5 (some (node 102 null));
}

abbrev cells : Cells ℕ
cells = (8, 101) ∷ (5, 102) ∷ []

two_clients-IsQueue : IsQueue two_clients cells
two_clients-IsQueue = record {
  chain = (λ e. ground arith, refl, (λ e. ground arith, refl, tt));
  distinct = (refl, (refl, tt));
  front = refl;
  rear = refl;
  size = refl;
}

abbrev empty_queue : Queue
empty_queue = record { front = null; rear = null; size = 0; heap = λ p. none }

dequeue-empty_example :
    IsQueue empty_queue []
    × (dequeue empty_queue ≡ some (none, empty_queue))
    × (peek empty_queue ≡ some none)
unfolding create_queue
dequeue-empty_example = dequeue-empty empty_queue refl

peek-first_example : peek two_clients ≡ some (some 101)
peek-first_example = peek-first two_clients 8 101 ((5, 102) ∷ []) two_clients-IsQueue

display_queue-values_example : display_queue two_clients ≡ some (false, values cells)
display_queue-values_example =
    display_queue-values two_clients 8 101 ((5, 102) ∷ []) two_clients-IsQueue

remove_client-without_example :
    (r : Queue) × (remove_client two_clients 102 ≡ some (place 102 cells, r))
    × IsQueue r (without 102 cells)
remove_client-without_example = remove_client-without two_clients 102 cells two_clients-IsQueue
