-- ===== src/FileServer/Queue.antt =====
-- Midterm/queue.h: the linked queue of client process ids.
pub mod Ends
pub mod Search
pub mod Remove
mod Tests
use system_programming_cse.Common.{
  ℕ, zero, suc, ◌+◌, ◌-◌, ◌≡◌, ◌==◌, Bool, true, false, Option, none, some, List, [], ◌∷◌,
  if◌then◌else◌, length,
}
use system_programming_cse.Heap.{Ptr, null, Node, node, Heap, write, set_next}
use system_programming_cse.Heap.Chain.{Cells, first, last, Chain, Distinct}

-- `queue_t` with the memory of its nodes.
pub record Queue : Type 0 where
  pub front : Ptr
  pub rear : Ptr
  pub size : ℕ
  pub heap : Heap ℕ

-- The argument says whether `malloc` succeeds; `none` is NULL.
pub create_queue : Bool → Option Queue
create_queue false = none
create_queue true = some (record { front = null; rear = null; size = 0; heap = λ p. none })

pub is_empty : Queue → Bool
is_empty q = q.size == 0

-- `create_client_node`: `fresh` is what `malloc` returns; `none` is NULL.
create_client_node : Ptr → ℕ → Heap ℕ → Option (Heap ℕ)
create_client_node fresh client_pid h =
    if fresh == null then none else some (write h fresh (some (node client_pid null)))

-- Linking the new node, once it is there; `none` is a write through a dangling `rear`.
append_node : Ptr → Heap ℕ → Queue → Option Queue
append_node fresh h q =
    if q.rear == null
    then some (record { front = fresh; rear = fresh; size = q.size + 1; heap = h })
    else elim (set_next h q.rear fresh) [
      | none ↦ none
      | some g ↦ some (record q { rear = fresh; size = q.size + 1; heap = g })
    ]

pub enqueue : Ptr → Queue → ℕ → Option Queue
unfolding create_client_node append_node
enqueue fresh q client_pid = elim (create_client_node fresh client_pid q.heap) [
  | none ↦ some q
  | some h ↦ append_node fresh h q
]

-- The inner `none` is INT_MIN, the outer one a read through a dangling pointer.
pub dequeue : Queue → Option (Option ℕ × Queue)
unfolding is_empty
dequeue q = if is_empty q then some (none, q) else elim (q.heap q.front) [
  | none ↦ none
  | some n ↦ some (
    some n.value,
    record {
      front = n.next;
      rear = if n.next == null then null else q.rear;
      size = q.size - 1;
      heap = write q.heap q.front none;
    },
  )
]

pub peek : Queue → Option (Option ℕ)
unfolding is_empty
peek q =
    if is_empty q
    then some none
    else elim (q.heap q.front) [ none ↦ none | some n ↦ some (some n.value) ]

pub queue_size : Queue → ℕ
queue_size q = q.size

-- The loop of `display_queue`: the process ids that it prints. The loops run on fuel, and `none` is
-- a dangling pointer or fuel that has run out.
display_loop : ℕ → Heap ℕ → Ptr → Option (List ℕ)
display_loop zero h current = none
display_loop (suc k) h current = elim (current == null) [
  | true ↦ some []
  | false ↦ elim (h current) [
    | none ↦ none
    | some n ↦ elim (display_loop k h n.next) [ none ↦ none | some r ↦ some (n.value ∷ r) ]
  ]
]

-- The first answer says whether the message for an empty queue is printed.
pub display_queue : Queue → Option (Bool × List ℕ)
unfolding is_empty display_loop
display_queue q =
    if is_empty q
    then some (true, [])
    else elim (display_loop (q.size + 1) q.heap q.front) [ none ↦ none | some r ↦ some (false, r) ]

search_loop : ℕ → Heap ℕ → ℕ → Ptr → Option Bool
search_loop zero h client_pid current = none
search_loop (suc k) h client_pid current = elim (current == null) [
  | true ↦ some false
  | false ↦ elim (h current) [
    | none ↦ none
    | some n ↦ elim (n.value == client_pid) [
      | true ↦ some true
      | false ↦ search_loop k h client_pid n.next
    ]
  ]
]

pub is_client_in_queue : Queue → ℕ → Option Bool
unfolding is_empty search_loop
is_client_in_queue q client_pid =
    if is_empty q then some false else search_loop (q.size + 1) q.heap client_pid q.front

-- The assignment to `queue->front` or to `prev->next`.
relink : Queue → Ptr → Ptr → Option Queue
relink q prev next =
    if prev == null
    then some (record q { front = next })
    else elim (set_next q.heap prev next) [ none ↦ none | some h ↦ some (record q { heap = h }) ]

-- The body of the test that finds the client; the node is returned and not freed.
unlink : Queue → Ptr → Ptr → Ptr → Option (Option Ptr × Queue)
unfolding relink
unlink q prev current next = elim (relink q prev next) [
  | none ↦ none
  | some r ↦ some (
    some current,
    record r { rear = if current == r.rear then prev else r.rear; size = r.size - 1 },
  )
]

remove_loop : ℕ → Queue → ℕ → Ptr → Ptr → Option (Option Ptr × Queue)
unfolding unlink
remove_loop zero q client_pid prev current = none
remove_loop (suc k) q client_pid prev current = elim (current == null) [
  | true ↦ some (none, q)
  | false ↦ elim (q.heap current) [
    | none ↦ none
    | some n ↦ elim (n.value == client_pid) [
      | true ↦ unlink q prev current n.next
      | false ↦ remove_loop k q client_pid current n.next
    ]
  ]
]

-- The inner `none` is NULL.
pub remove_client : Queue → ℕ → Option (Option Ptr × Queue)
unfolding is_empty remove_loop
remove_client q client_pid =
    if is_empty q then some (none, q) else remove_loop (q.size + 1) q client_pid null q.front

-- The queue holds the cells `xs`, in this order.
pub record IsQueue (q : Queue) (xs : Cells ℕ) : Type 0 where
  pub chain : Chain q.heap xs
  pub distinct : Distinct xs
  pub front : q.front ≡ first xs null
  pub rear : q.rear ≡ last xs null
  pub size : q.size ≡ length xs
