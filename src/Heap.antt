-- ===== src/Heap.antt =====
-- The memory in which the linked queues of Midterm/queue.h and Final/queue.c stand: nodes with a
-- value and a pointer to the next node. Each queue has nodes of its own.
pub mod Chain
use system_programming_cse.Common.{ℕ, ◌≡◌, ◌==◌, Bool, Option, none, some, if◌then◌else◌}

-- NULL is 0.
abbrev pub Ptr : Type 0
Ptr = ℕ

abbrev pub null : Ptr
null = 0

pub record Node (A : Type 0) : Type 0 where
  pub value : A
  pub next : Ptr

abbrev pub node : {A : Type 0} → A → Ptr → Node A
node v p = record { value = v; next = p }

abbrev pub Heap : Type 0 → Type 0
Heap A = Ptr → Option (Node A)

abbrev pub write : {A : Type 0} → Heap A → Ptr → Option (Node A) → Heap A
write h p c a = if a == p then c else h a

-- `p->next = q`; `none` is a write through a pointer to no node.
unfoldable pub set_next : {A : Type 0} → Heap A → Ptr → Ptr → Option (Heap A)
set_next h p q = elim (h p) [ none ↦ none | some n ↦ some (write h p (some (node n.value q))) ]
