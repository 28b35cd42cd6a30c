-- ===== src/PideShop/Orders.antt =====
-- Final/server.c: the way of an order from the client over the manager, the cooks and the couriers. The queues of
-- Final/queue.c are lists, and so are the used parts of the arrays of the two pools, their last entry first.
pub mod Conservation
pub mod Bounds
pub mod Cancel
pub mod Messages
pub mod Statuses
pub mod Heard
pub mod Story
pub mod Cooks
mod Tests
use system_programming_cse.Common.{
  ℕ, zero, suc, ◌+◌, ◌-◌, ◌*◌, Bool, true, false, Option, none, some, List, [], ◌∷◌, ◌++◌, map,
  ◌==◌, ◌&&◌, not, if◌then◌else◌, ltb, Text, codes, length, take, drop, get_elem?, set,
}

abbrev pub order_cancelled : ℕ
order_cancelled = 5

abbrev pub max_clients : ℕ
max_clients = 50

abbrev max_delivery_capacity : ℕ
max_delivery_capacity = 3

-- `order_t`, without its field `data`, which nothing reads.
pub record Order : Type 0 where
  pub request_type : ℕ
  pub order_id : ℕ
  pub sock : ℕ
  pub client_address : Text
  pub status : Text
  pub cook_id : ℕ
  pub delivery_id : ℕ

-- Where a cook stands: it waits for a task, it has one, its task is in the oven, it has taken one out of the oven.
pub data Cook : Type 0 where
  free : Cook
  holding baking baked : Order → Cook

-- `task_sem` is that of the cooks' pool, `carried` what each courier carries, and `sent` what was sent to the
-- clients' sockets, the last message first.
pub record Shop : Type 0 where
  pub order_queue : List Order
  pub oven_queue : List Order
  pub delivery_queue : List Order
  pub cook_tasks : List Order
  pub task_sem : ℕ
  pub cooks : List Cook
  pub delivery_tasks : List Order
  pub carried : List (List Order)
  pub delivered : List Order
  pub sent : List (ℕ × Order)

-- `remove_order_from_queue`: every order is taken out, and put back if it has another id.
unfoldable pub remove_order : ℕ → List Order → List Order
remove_order id [] = []
remove_order id (o ∷ os) =
    let rest = remove_order id os in if o.order_id == id then rest else o ∷ rest

update_client : Order → Text → Shop → Shop
update_client o status s = record s { sent = (o.sock, record o { status = status }) ∷ s.sent }

-- The answer to a cancel goes to the socket in the order that was sent. The three removals and the answer are one
-- step: in the code the one from the queue of the oven may overlap with calls of the cooks.
pub handle_client : ℕ → Order → Shop → Shop
unfolding remove_order update_client
handle_client sock o s =
    if o.request_type == order_cancelled
    then update_client o (codes "Cancelled") (record s {
      order_queue = remove_order o.order_id s.order_queue;
      oven_queue = remove_order o.order_id s.oven_queue;
      delivery_queue = remove_order o.order_id s.delivery_queue;
    })
    else record s { order_queue = s.order_queue ++ (record o { sock = sock } ∷ []) }

-- What a step of a thread does: it waits, it writes behind the array of a pool, or it goes on.
pub data Outcome : Type 0 where
  waits undefined : Outcome
  goes : Shop → Outcome

-- An order into the array of a pool, which has MAX_CLIENTS entries.
pushed : Order → List Order → (List Order → Shop) → Outcome
pushed o tasks after =
    if ltb (length tasks) max_clients then goes (after (o ∷ tasks)) else undefined

pub manager_step : Shop → Outcome
unfolding pushed
manager_step s = elim s.order_queue [
  | [] ↦ waits
  | o ∷ os ↦
      pushed o s.cook_tasks
        (λ tasks. record s { order_queue = os; cook_tasks = tasks; task_sem = s.task_sem + 1 })
]

-- A cook takes the last task; `sem_wait` and the look into the array are one step.
take_task : ℕ → ℕ → Shop → Outcome
unfolding update_client
take_task i id s = elim s.cook_tasks [
  | [] ↦ if ltb 0 s.task_sem then goes (record s { task_sem = s.task_sem - 1 }) else waits
  | o ∷ os ↦
      if ltb 0 s.task_sem
      then (let task = record o { cook_id = id } in
          goes (
            update_client task (codes "Cooking") (record s {
              cook_tasks = os;
              task_sem = s.task_sem - 1;
              cooks = set s.cooks i (holding task);
            })))
      else waits
]

-- The next step of a cook in the loop of `cook_worker`. The order that is taken out of the oven is the first one
-- there, and the cook goes on with its own.
cook_at : ℕ → ℕ → Cook → Shop → Outcome
unfolding take_task pushed update_client
cook_at i id free s = take_task i id s
cook_at i id (holding o) s = goes (record (update_client o (codes "In Oven") s) {
  oven_queue = s.oven_queue ++ (o ∷ []);
  cooks = set s.cooks i (baking o);
})
cook_at i id (baking o) s =
    goes (record s { oven_queue = drop 1 s.oven_queue; cooks = set s.cooks i (baked o) })
cook_at i id (baked o) s = pushed o s.delivery_tasks (λ tasks.
    record (update_client o (codes "Cooked") s) {
      delivery_tasks = tasks;
      cooks = set s.cooks i free;
    })

pub cook_step : ℕ → ℕ → Shop → Outcome
unfolding cook_at
cook_step i id s = elim (get_elem? s.cooks i) [ none ↦ waits | some c ↦ cook_at i id c s ]

-- How many orders a courier takes, who has waited in vain or not.
batch_size : Bool → ℕ → ℕ
batch_size timed_out n =
    if ltb n max_delivery_capacity then (if timed_out then n else 0) else max_delivery_capacity

-- The same message to the client of each order.
update_all : Text → List Order → Shop → Shop
unfolding update_client
update_all status [] s = s
update_all status (o ∷ os) s = update_all status os (update_client o status s)

numbered : ℕ → Order → Order
numbered id o = record o { delivery_id = id }

-- The next step of a courier: one that carries nothing takes a batch.
courier_at : ℕ → ℕ → Bool → List Order → Shop → Outcome
unfolding batch_size update_all numbered
courier_at i id timed_out [] s =
    let size = batch_size timed_out (length s.delivery_tasks) in
    let batch = map (numbered id) (take size s.delivery_tasks) in
    goes (
      update_all (codes "Delivering") batch
        (record s { delivery_tasks = drop size s.delivery_tasks; carried = set s.carried i batch }))
courier_at i id timed_out (o ∷ os) s = goes (
    update_all (codes "Delivered") (o ∷ os)
      (record s { carried = set s.carried i []; delivered = s.delivered ++ o ∷ os }))

pub courier_step : ℕ → ℕ → Bool → Shop → Outcome
unfolding courier_at
courier_step i id timed_out s = elim (get_elem? s.carried i) [
  | none ↦ waits
  | some batch ↦ courier_at i id timed_out batch s
]

-- Which thread goes on: a client with its socket, the manager, a cook with its number, or a courier.
pub data Event : Type 0 where
  client : (sock : ℕ) (order : Order) → Event
  manager : Event
  cook : (index id : ℕ) → Event
  courier : (index id : ℕ) (timed_out : Bool) → Event

unfoldable pub step : Event → Shop → Outcome
unfolding handle_client manager_step cook_step courier_step
step (client sock o) s = goes (handle_client sock o s)
step manager s = manager_step s
step (cook i id) s = cook_step i id s
step (courier i id timed_out) s = courier_step i id timed_out s

-- Steps in any order; a thread that waits changes nothing, and `none` is undefined behaviour.
unfoldable pub run : List Event → Shop → Option Shop
unfolding step
run [] s = some s
run (e ∷ es) s = elim (step e s) [ waits ↦ run es s | undefined ↦ none | goes t ↦ run es t ]

all_free : ℕ → List Cook
all_free zero = []
all_free (suc n) = free ∷ all_free n

none_carried : ℕ → List (List Order)
none_carried zero = []
none_carried (suc n) = [] ∷ none_carried n

-- `init_thread_pool` starts the workers, and `main` starts as many again.
pub open_shop : ℕ → ℕ → Shop
unfolding all_free none_carried
open_shop cook_thread_pool_size delivery_thread_pool_size = record {
  order_queue = [];
  oven_queue = [];
  delivery_queue = [];
  cook_tasks = [];
  task_sem = 0;
  cooks = all_free (2 * cook_thread_pool_size);
  delivery_tasks = [];
  carried = none_carried (2 * delivery_thread_pool_size);
  delivered = [];
  sent = [];
}
