-- ===== src/FileServer/Queue/Search.antt =====
-- The loops of `is_client_in_queue` and `display_queue`.
use system_programming_cse.Common.{
  ℕ, zero, suc, ◌+◌, ◌<◌, ◌≡◌, ◌==◌, ==_false, ◌||◌, refl, ap, Bool, false, some, List, [], ◌∷◌,
  arith, length,
}
use system_programming_cse.Heap.{null, Heap}
use system_programming_cse.Heap.Chain.{Cells, values, first, Chain}
use system_programming_cse.FileServer.Queue.{
  Queue, display_loop, display_queue, search_loop, is_client_in_queue, IsQueue,
}

-- The clients of a queue hold the number.
abbrev pub member : ℕ → List ℕ → Bool
member v [] = false
member v (w ∷ ws) = (w == v) || member v ws

length-values : (xs : Cells ℕ) → length (values xs) ≡ length xs
length-values [] = refl
length-values ((a, v) ∷ xs) = ap suc (length-values xs)

search_loop-member :
    (k : ℕ) (h : Heap ℕ) (v : ℕ) (xs : Cells ℕ)
    → Chain h xs
    → length xs < k
    → search_loop k h v (first xs null) ≡ some (member v (values xs))
unfolding search_loop
search_loop-member zero h v xs s n = elim n [ ]
search_loop-member (suc k) h v [] s n = refl
search_loop-member (suc k) h v ((a, u) ∷ xs) s n =
    ground (arith, search_loop-member k h v xs s.2 (omega arith))

-- `is_client_in_queue` ends without a fault, and says whether the client is in the queue.
pub is_client_in_queue-member :
    (q : Queue) (v : ℕ) (xs : Cells ℕ)
    → IsQueue q xs
    → is_client_in_queue q v ≡ some (member v (values xs))
unfolding is_client_in_queue
is_client_in_queue-member q v [] i = ground arith
is_client_in_queue-member q v ((a, u) ∷ xs) i =
    let found = search_loop-member (q.size + 1) q.heap v ((a, u) ∷ xs) i.chain (omega arith) in
    rw (==_false q.size 0 (omega arith), i.front) found

display_loop-values :
    (k : ℕ) (h : Heap ℕ) (xs : Cells ℕ)
    → Chain h xs
    → length xs < k
    → display_loop k h (first xs null) ≡ some (values xs)
unfolding display_loop
display_loop-values zero h xs s n = elim n [ ]
display_loop-values (suc k) h [] s n = refl
display_loop-values (suc k) h ((a, u) ∷ xs) s n =
    ground (arith, display_loop-values k h xs s.2 (omega arith))

-- `display_queue` ends without a fault and prints all clients from the front to the rear.
pub display_queue-values :
    (q : Queue) (a v : ℕ) (xs : Cells ℕ)
    → IsQueue q ((a, v) ∷ xs)
    → display_queue q ≡ some (false, values ((a, v) ∷ xs))
unfolding display_queue
display_queue-values q a v xs i =
    let shown = display_loop-values (q.size + 1) q.heap ((a, v) ∷ xs) i.chain (omega arith) in
    rw (==_false q.size 0 (omega arith), i.front, shown) refl
