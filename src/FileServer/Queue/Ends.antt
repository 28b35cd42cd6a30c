-- ===== src/FileServer/Queue/Ends.antt =====
-- `enqueue` at the rear and `dequeue` at the front.
use system_programming_cse.Common.{
  ℕ, ◌+◌, ◌-◌, ◌≡◌, ◌≢◌, refl, sym, ◌∙◌, ap, true, none, some, [], ◌∷◌, ◌++◌, arith, length-append,
}
use system_programming_cse.Heap.{null, node, write}
use system_programming_cse.Heap.Chain.{
  Cells, has, Chain-write, not-has_of_none, last-ne-null, last-append, Distinct-append, link_last,
}
use system_programming_cse.FileServer.Queue.{Queue, create_queue, enqueue, dequeue, peek, IsQueue}

-- With a fresh node `enqueue` does not fault, and puts the client behind all others.
pub enqueue-appends :
    (fresh client_pid : ℕ) (q : Queue) (xs : Cells ℕ)
    → IsQueue q xs
    → fresh ≢ null
    → q.heap fresh ≡ none
    → (r : Queue) × (enqueue fresh q client_pid ≡ some r)
      × IsQueue r (xs ++ (fresh, client_pid) ∷ [])
unfolding enqueue
enqueue-appends p v q [] i n e = (
  record { front = p; rear = p; size = q.size + 1; heap = write q.heap p (some (node v null)) },
  ground arith,
  record {
    chain = (n, ground arith, tt);
    distinct = (refl, tt);
    front = refl;
    rear = refl;
    size = omega arith;
  },
)
enqueue-appends p v q ((a, u) ∷ xs) i n e =
    let (h, linked, chain) = link_last q.heap p v xs a u n e i.chain i.distinct in
    let solid = last-ne-null q.heap xs a i.chain.2 i.chain.0 in
    (
      record q { rear = p; size = q.size + 1; heap = h },
      ground arith,
      record {
        chain = chain;
        distinct =
            Distinct-append ((a, u) ∷ xs) p v i.distinct
              (not-has_of_none q.heap p ((a, u) ∷ xs) i.chain e);
        front = i.front;
        rear = sym (last-append xs a p v);
        size = omega (arith, length-append xs ((p, v) ∷ []));
      },
    )

-- `dequeue` on a queue with a client does not fault, returns the client at the front, frees its node
-- and keeps the others in their order.
pub dequeue-takes :
    (q : Queue) (a v : ℕ) (xs : Cells ℕ)
    → IsQueue q ((a, v) ∷ xs)
    → (r : Queue) × (dequeue q ≡ some (some v, r)) × IsQueue r xs × (r.heap a ≡ none)
unfolding dequeue
dequeue-takes q a v [] i = (
  record { front = null; rear = null; size = q.size - 1; heap = write q.heap q.front none },
  ground arith,
  record { chain = tt; distinct = tt; front = refl; rear = refl; size = omega arith },
  ground arith,
)
dequeue-takes q a v ((b, w) ∷ xs) i = (
  record { front = b; rear = q.rear; size = q.size - 1; heap = write q.heap q.front none },
  ground arith,
  record {
    chain =
        Chain-write q.heap q.front none ((b, w) ∷ xs) i.chain.2
          (ap (λ p. has p ((b, w) ∷ xs)) i.front ∙ i.distinct.0);
    distinct = i.distinct.1;
    front = refl;
    rear = i.rear;
    size = omega arith;
  },
  ground arith,
)

-- A new queue is empty, and an empty queue gives INT_MIN and stays as it is.
pub dequeue-empty :
    (q : Queue)
    → create_queue true ≡ some q
    → IsQueue q [] × (dequeue q ≡ some (none, q)) × (peek q ≡ some none)
unfolding create_queue dequeue peek
dequeue-empty q e = ground arith

-- `peek` returns the client that `dequeue` would return next.
pub peek-first :
    (q : Queue) (a v : ℕ) (xs : Cells ℕ) → IsQueue q ((a, v) ∷ xs) → peek q ≡ some (some v)
unfolding peek
peek-first q a v xs i = ground arith
