-- ===== src/PideShop/Queue.antt =====
-- Final/queue.c: the linked queue of orders, and the cancel of an order in it by Final/server.c.
pub mod Fifo
pub mod Remove
mod Tests
use system_programming_cse.Common.{
  ℕ, zero, suc, ◌+◌, ◌-◌, ◌≡◌, ◌==◌, Bool, true, false, Option, none, some, List, [], ◌∷◌,
  if◌then◌else◌, length,
}
use system_programming_cse.Heap.{Ptr, null, Node, node, Heap, write, set_next}
use system_programming_cse.Heap.Chain.{Cells, first, last, Chain, Distinct}
use system_programming_cse.PideShop.Orders.{Order}

-- `queue_t` with the memory of its nodes.
pub record Queue : Type 0 where
  pub head : Ptr
  pub tail : Ptr
  pub size : ℕ
  pub heap : Heap Order

pub init_queue : Heap Order → Queue
init_queue h = record { head = null; tail = null; size = 0; heap = h }

pub is_empty : Queue → Bool
is_empty q = q.head == null

-- The new node behind the tail, once it is filled; `none` is a write through a dangling `tail`.
append_node : Ptr → Heap Order → Queue → Option Queue
unfolding is_empty
append_node fresh h q =
    if is_empty q
    then some (record { head = fresh; tail = fresh; size = q.size + 1; heap = h })
    else elim (set_next h q.tail fresh) [
      | none ↦ none
      | some g ↦ some (record q { tail = fresh; size = q.size + 1; heap = g })
    ]

-- `fresh` is what `malloc` returns; with NULL the order is dropped.
pub enqueue : Ptr → Queue → Order → Option Queue
unfolding append_node
enqueue fresh q order =
    if fresh == null
    then some q
    else append_node fresh (write q.heap fresh (some (node order null))) q

-- The inner `none` is the order with the id -1, the outer one a read through a dangling pointer.
pub dequeue : Queue → Option (Option Order × Queue)
unfolding is_empty
dequeue q = if is_empty q then some (none, q) else elim (q.heap q.head) [
  | none ↦ none
  | some n ↦ some (
    some n.value,
    record {
      head = n.next;
      tail = if n.next == null then null else q.tail;
      size = q.size - 1;
      heap = write q.heap q.head none;
    },
  )
]

-- The queue holds the cells `xs`, in this order.
pub record IsQueue (q : Queue) (xs : Cells Order) : Type 0 where
  pub chain : Chain q.heap xs
  pub distinct : Distinct xs
  pub head : q.head ≡ first xs null
  pub tail : q.tail ≡ last xs null
  pub size : q.size ≡ length xs

-- The addresses that `malloc` is still to return; NULL when there are none.
abbrev next_address : List Ptr → Ptr
next_address [] = null
next_address (p ∷ ps) = p

abbrev other_addresses : List Ptr → List Ptr
other_addresses [] = []
other_addresses (p ∷ ps) = ps

-- The loops run on fuel, and `none` is a fault or fuel that has run out. Every order is taken out, and those with
-- another id go into the temporary queue.
split_loop : ℕ → List Ptr → ℕ → Queue → Queue → Option (Queue × Queue)
unfolding is_empty dequeue enqueue
split_loop zero ps id q temp = none
split_loop (suc k) ps id q temp = elim (dequeue q) [
  | none ↦ none
  | some (taken, rest) ↦ elim taken [
    | none ↦ some (q, temp)
    | some order ↦ elim (order.order_id == id) [
      | true ↦ split_loop k ps id rest temp
      | false ↦ elim (enqueue (next_address ps) temp order) [
        | none ↦ none
        | some more ↦ split_loop k (other_addresses ps) id rest more
      ]
    ]
  ]
]

-- The orders go back into the queue.
return_loop : ℕ → List Ptr → Queue → Queue → Option Queue
unfolding dequeue enqueue
return_loop zero ps temp q = none
return_loop (suc k) ps temp q = elim (dequeue temp) [
  | none ↦ none
  | some (taken, rest) ↦ elim taken [
    | none ↦ some q
    | some order ↦ elim (enqueue (next_address ps) q order) [
      | none ↦ none
      | some more ↦ return_loop k (other_addresses ps) rest more
    ]
  ]
]

-- The two lists are what `malloc` returns for the nodes of the temporary queue and for those that go back. The log
-- is left out.
pub remove_order_from_queue : List Ptr → List Ptr → Queue → ℕ → Option Queue
unfolding init_queue split_loop return_loop
remove_order_from_queue ps rs q id =
    elim (split_loop (q.size + 1) ps id q (init_queue (λ p. none))) [
      | none ↦ none
      | some (rest, temp) ↦ return_loop (temp.size + 1) rs temp rest
    ]
