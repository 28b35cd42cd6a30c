-- ===== src/PideShop/Orders/Cooks.antt =====
-- What the steps of the shop of Final/server.c do to its cooks and to the queue of the oven.
use system_programming_cse.Common.{
  ℕ, zero, suc, ◌*◌, ◌≤◌, ◌≡◌, refl, ◌⊎◌, inl, inr, Bool, true, false, Bool-cases, Option-cases,
  some, List, [], ◌∷◌, ◌++◌, arith, length, drop, get_elem?, set, ltb, ◌==◌, Text, codes, map, take,
}
use system_programming_cse.PideShop.Orders.{
  Order, order_cancelled, max_clients, Cook, free, holding, baking, baked, Shop, remove_order,
  update_client, handle_client, Outcome, waits, undefined, goes, pushed, manager_step, take_task,
  cook_at, cook_step, batch_size, update_all, numbered, all_free, open_shop, courier_at,
  courier_step, client, manager, courier, step,
}

-- What a step of a cook does, by where it stands.
abbrev pub CookMoves : ℕ → Cook → Shop → Shop → Type 0
CookMoves i free s t =
    (t.oven_queue ≡ s.oven_queue)
    × ((t.cooks ≡ s.cooks) ⊎ ((o : Order) × (t.cooks ≡ set s.cooks i (holding o))))
CookMoves i (holding o) s t =
    (t.oven_queue ≡ s.oven_queue ++ (o ∷ [])) × (t.cooks ≡ set s.cooks i (baking o))
CookMoves i (baking o) s t =
    (t.oven_queue ≡ drop 1 s.oven_queue) × (t.cooks ≡ set s.cooks i (baked o))
CookMoves i (baked o) s t = (t.oven_queue ≡ s.oven_queue) × (t.cooks ≡ set s.cooks i free)

abbrev pub MovesBy : ℕ → Cook → Shop → Outcome → Type 0
MovesBy i c s waits = Unit {0}
MovesBy i c s undefined = Unit {0}
MovesBy i c s (goes t) = CookMoves i c s t

take_task-MovesBy : (i id : ℕ) (s : Shop) → MovesBy i free s (take_task i id s)
unfolding take_task update_client
take_task-MovesBy i id s = go s.cook_tasks refl (ltb 0 s.task_sem) refl
  where
    go :
        (os : List Order)
        → s.cook_tasks ≡ os
        → (b : Bool) → ltb 0 s.task_sem ≡ b
        → MovesBy i free s (take_task i id s)
    go [] e true f = rw (e, f, take_task) (refl, inl refl)
    go [] e false f = rw (e, f, take_task) tt
    go (o ∷ os) e true f = rw (e, f, take_task) (refl, inr (record o { cook_id = id }, refl))
    go (o ∷ os) e false f = rw (e, f, take_task) tt

cook_at-MovesBy : (i id : ℕ) (c : Cook) (s : Shop) → MovesBy i c s (cook_at i id c s)
unfolding cook_at pushed update_client
cook_at-MovesBy i id free s = take_task-MovesBy i id s
cook_at-MovesBy i id (holding o) s = (refl, refl)
cook_at-MovesBy i id (baking o) s = (refl, refl)
cook_at-MovesBy i id (baked o) s = elim (Bool-cases (ltb (length s.delivery_tasks) max_clients)) [
  | inl f ↦ rw (f, cook_at, pushed) (refl, refl)
  | inr f ↦ rw (f, cook_at, pushed) tt
]

pub cook_step-MovesBy :
    (i id : ℕ) (c : Cook) (s : Shop)
    → get_elem? s.cooks i ≡ some c
    → MovesBy i c s (cook_step i id s)
unfolding cook_step
cook_step-MovesBy i id c s e = rw (e, cook_step) (cook_at-MovesBy i id c s)

remove_order-less : (j : ℕ) (os : List Order) → length (remove_order j os) ≤ length os
unfolding remove_order
remove_order-less j [] = omega arith
remove_order-less j (o ∷ os) = ground (arith, remove_order-less j os)

-- The steps of the other threads move no cook and put nothing into the oven.
abbrev pub SparesOven : Shop → Outcome → Type 0
SparesOven s waits = Unit {0}
SparesOven s undefined = Unit {0}
SparesOven s (goes t) = (t.cooks ≡ s.cooks) × (length t.oven_queue ≤ length s.oven_queue)

pub client-SparesOven : (sock : ℕ) (o : Order) (s : Shop) → SparesOven s (step (client sock o) s)
unfolding step handle_client update_client
client-SparesOven sock o s = elim (Bool-cases (o.request_type == order_cancelled)) [
  | inl e ↦ rw e (refl, remove_order-less o.order_id s.oven_queue)
  | inr e ↦ rw e (refl, omega arith)
]

pub manager-SparesOven : (s : Shop) → SparesOven s (step manager s)
unfolding step manager_step pushed
manager-SparesOven s = go s.order_queue refl
  where
    go : (os : List Order) → s.order_queue ≡ os → SparesOven s (manager_step s)
    go [] e = rw (e, manager_step) tt
    go (o ∷ os) e = elim (Bool-cases (ltb (length s.cook_tasks) max_clients)) [
      | inl f ↦ rw (e, f, manager_step, pushed) (refl, omega arith)
      | inr f ↦ rw (e, f, manager_step, pushed) tt
    ]

update_all-same :
    (status : Text) (os : List Order) (s : Shop)
    → ((update_all status os s).cooks ≡ s.cooks)
      × ((update_all status os s).oven_queue ≡ s.oven_queue)
unfolding update_all update_client
update_all-same status [] s = (refl, refl)
update_all-same status (o ∷ os) s =
    update_all-same status os (record s { sent = (o.sock, record o { status = status }) ∷ s.sent })

courier_at-SparesOven :
    (i id : ℕ) (timed_out : Bool) (batch : List Order) (s : Shop)
    → SparesOven s (courier_at i id timed_out batch s)
unfolding courier_at
courier_at-SparesOven i id timed_out [] s =
    let size = batch_size timed_out (length s.delivery_tasks) in
    let batch = map (numbered id) (take size s.delivery_tasks) in
    let (cooks, oven) =
      update_all-same (codes "Delivering") batch (record s {
        delivery_tasks = drop size s.delivery_tasks;
        carried = set s.carried i batch;
      }) in
    (cooks, rw oven (omega arith))
courier_at-SparesOven i id timed_out (o ∷ os) s =
    let (cooks, oven) =
      update_all-same (codes "Delivered") (o ∷ os)
        (record s { carried = set s.carried i []; delivered = s.delivered ++ o ∷ os }) in
    (cooks, rw oven (omega arith))

pub courier-SparesOven :
    (i id : ℕ) (timed_out : Bool) (s : Shop) → SparesOven s (step (courier i id timed_out) s)
unfolding step courier_step
courier-SparesOven i id timed_out s = elim (Option-cases (get_elem? s.carried i)) [
  | inl e ↦ rw (e, courier_step) tt
  | inr (batch, e) ↦ rw (e, courier_step) (courier_at-SparesOven i id timed_out batch s)
]

-- The cooks at the start.
abbrev pub AreFree : ℕ → List Cook → Type 0
AreFree zero [] = Unit {0}
AreFree (suc n) (free ∷ cs) = AreFree n cs
AreFree _ _ = ⊥

all_free-AreFree : (n : ℕ) → AreFree n (all_free n)
unfolding all_free
all_free-AreFree zero = tt
all_free-AreFree (suc n) = all_free-AreFree n

pub open_shop-AreFree :
    (m n : ℕ) → AreFree (2 * m) (open_shop m n).cooks × (length (open_shop m n).oven_queue ≡ 0)
unfolding open_shop
open_shop-AreFree m n = (all_free-AreFree (2 * m), refl)
