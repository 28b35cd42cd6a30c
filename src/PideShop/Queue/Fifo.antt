-- ===== src/PideShop/Queue/Fifo.antt =====
-- The queue of Final/queue.c gives the orders back in their order.
use system_programming_cse.Common.{
  ℕ, ◌+◌, ◌-◌, ◌≡◌, ◌≢◌, refl, sym, ◌∙◌, ap, subst, Option-cases, inl, inr, none, some, [], ◌∷◌,
  ◌++◌, arith, length-append,
}
use system_programming_cse.Heap.{null, node, Heap, write, set_next}
use system_programming_cse.Heap.Chain.{
  Cells, has, last, Chain-write, not-has_of_none, last-append, Distinct-append, link_last,
}
use system_programming_cse.PideShop.Orders.{Order}
use system_programming_cse.PideShop.Queue.{Queue, is_empty, append_node, enqueue, dequeue, IsQueue}

set_next-free :
    {A : Type 0} (h g : Heap A) (p q s : ℕ) → set_next h p q ≡ some g → h s ≡ none → g s ≡ none
unfolding set_next
set_next-free h g p q s e free = elim (Option-cases (h p)) [
  | inl there ↦ ground (arith, there, e)
  | inr (n, there) ↦
      let changed : write h p (some (node n.value q)) ≡ g = ground (arith, there, e) in
      subst (λ k. k s ≡ none) changed (ground (arith, there, free))
]

-- With a fresh node `enqueue` does not fault and puts the order behind all others; the other
-- addresses that were free stay free.
pub enqueue-IsQueue :
    (fresh : ℕ) (order : Order) (q : Queue) (xs : Cells Order)
    → IsQueue q xs
    → fresh ≢ null
    → q.heap fresh ≡ none
    → (r : Queue) × (enqueue fresh q order ≡ some r)
      × IsQueue r (xs ++ (fresh, order) ∷ [])
      × ((s : ℕ) → s ≢ fresh → q.heap s ≡ none → r.heap s ≡ none)
unfolding enqueue append_node
enqueue-IsQueue p o q [] i n e = (
  record { head = p; tail = p; size = q.size + 1; heap = write q.heap p (some (node o null)) },
  ground arith,
  record {
    chain = (n, ground arith, tt);
    distinct = (refl, tt);
    head = refl;
    tail = refl;
    size = omega arith;
  },
  λ s apart free. ground (arith, apart, free),
)
enqueue-IsQueue p o q ((a, u) ∷ xs) i n e =
    let (h, linked, chain) = link_last q.heap p o xs a u n e i.chain i.distinct in
    (
      record q { tail = p; size = q.size + 1; heap = h },
      ground arith,
      record {
        chain = chain;
        distinct =
            Distinct-append ((a, u) ∷ xs) p o i.distinct
              (not-has_of_none q.heap p ((a, u) ∷ xs) i.chain e);
        head = i.head;
        tail = sym (last-append xs a p o);
        size = omega (arith, length-append xs ((p, o) ∷ []));
      },
      λ s apart free.
          set_next-free (write q.heap p (some (node o null))) h (last xs a) p s linked
            (ground (arith, apart, free)),
    )

-- `dequeue` of a queue with an order does not fault, returns the one at the head, frees its node
-- and no other memory, and keeps the others in their order.
pub dequeue-IsQueue :
    (q : Queue) (a : ℕ) (o : Order) (xs : Cells Order)
    → IsQueue q ((a, o) ∷ xs)
    → (r : Queue) × (dequeue q ≡ some (some o, r)) × IsQueue r xs × (r.heap ≡ write q.heap a none)
unfolding dequeue is_empty
dequeue-IsQueue q a o [] i = (
  record { head = null; tail = null; size = q.size - 1; heap = write q.heap q.head none },
  ground arith,
  record { chain = tt; distinct = tt; head = refl; tail = refl; size = omega arith },
  ap (λ p. write q.heap p none) i.head,
)
dequeue-IsQueue q a o ((b, w) ∷ xs) i = (
  record { head = b; tail = q.tail; size = q.size - 1; heap = write q.heap q.head none },
  ground arith,
  record {
    chain =
        Chain-write q.heap q.head none ((b, w) ∷ xs) i.chain.2
          (ap (λ p. has p ((b, w) ∷ xs)) i.head ∙ i.distinct.0);
    distinct = i.distinct.1;
    head = refl;
    tail = i.tail;
    size = omega arith;
  },
  ap (λ p. write q.heap p none) i.head,
)
