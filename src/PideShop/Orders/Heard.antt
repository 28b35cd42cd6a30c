-- ===== src/PideShop/Orders/Heard.antt =====
-- The order in which a client of Final/server.c is told how far its order is.
use system_programming_cse.Common.{
  ℕ, suc, zero, ◌≡◌, ◌≢◌, arith, refl, sym, ◌∙◌, ◌⊎◌, inl, inr, Bool, true, false, not, ◌&&◌,
  Bool-cases, Option-cases, List, [], ◌∷◌, ◌++◌, append_assoc, map, ◌==◌, if◌then◌else◌, ltb, Text,
  codes, text_eq, length, take, drop, get_elem?, set,
}
use system_programming_cse.Common.Sums.{sum}
use system_programming_cse.PideShop.Orders.Bounds.{at_sock}
use system_programming_cse.PideShop.Orders.{
  order_cancelled, max_clients, Order, Cook, free, holding, baking, baked, Shop, update_client,
  handle_client, Outcome, waits, undefined, goes, pushed, manager_step, take_task, cook_at,
  cook_step, update_all, numbered, courier_at, courier_step, Event, client, manager, cook, courier,
  step, batch_size,
}
use system_programming_cse.PideShop.Orders.Messages.{
  Status, cooking, in_oven, cooked, delivering, is_delivered, status_text, says,
}

-- The statuses that were sent to the socket, but for answers to cancels, the last one first.
abbrev pub heard : ℕ → List (ℕ × Order) → List Text
heard k [] = []
heard k ((sock, o) ∷ ms) =
    let rest = heard k ms in
    if sock == k && not (text_eq o.status (codes "Cancelled")) then o.status ∷ rest else rest

-- The first `n` statuses of an order, the last one first.
abbrev pub story : ℕ → List Text
story zero = []
story (suc zero) = codes "Cooking" ∷ []
story (suc (suc zero)) = codes "In Oven" ∷ codes "Cooking" ∷ []
story (suc (suc (suc zero))) = codes "Cooked" ∷ codes "In Oven" ∷ codes "Cooking" ∷ []
story (suc (suc (suc (suc zero)))) =
    codes "Delivering" ∷ codes "Cooked" ∷ codes "In Oven" ∷ codes "Cooking" ∷ []
story _ =
    codes "Delivered" ∷ codes "Delivering" ∷ codes "Cooked" ∷ codes "In Oven" ∷ codes "Cooking" ∷ []

-- All of the messages have the status.
abbrev pub AllSay : Text → List (ℕ × Order) → Type 0
AllSay status [] = Unit {0}
AllSay status ((sock, o) ∷ ms) = (o.status ≡ status) × AllSay status ms

-- A step sends messages with one status.
abbrev pub Sent : List (ℕ × Order) → List (ℕ × Order) → Type 0
Sent old all =
    (new : List (ℕ × Order)) × (all ≡ new ++ old)
    × (AllSay (codes "Cancelled") new ⊎ ((m : Status) × AllSay (status_text m) new))

abbrev pub SentBy : Shop → Outcome → Type 0
SentBy s waits = Unit {0}
SentBy s undefined = Unit {0}
SentBy s (goes t) = Sent s.sent t.sent

none-Sent : (ms : List (ℕ × Order)) → Sent ms ms
none-Sent ms = ([], refl, inl tt)

AllSay-append :
    (status : Text) (xs ys : List (ℕ × Order))
    → AllSay status xs
    → AllSay status ys
    → AllSay status (xs ++ ys)
AllSay-append status [] ys h k = k
AllSay-append status (x ∷ xs) ys (e, h) k = (e, AllSay-append status xs ys h k)

update_all-AllSay :
    (status : Text) (os : List Order) (s : Shop)
    → (new : List (ℕ × Order)) × ((update_all status os s).sent ≡ new ++ s.sent) × AllSay status new
unfolding update_all update_client
update_all-AllSay status [] s = ([], refl, tt)
update_all-AllSay status (o ∷ os) s =
    let (new, e, all) =
      update_all-AllSay status os
        (record s { sent = (o.sock, record o { status = status }) ∷ s.sent }) in
    (
      new ++ (o.sock, record o { status = status }) ∷ [],
      e ∙ sym (append_assoc new ((o.sock, record o { status = status }) ∷ []) s.sent),
      AllSay-append status new ((o.sock, record o { status = status }) ∷ []) all (refl, tt),
    )

handle_client-Sent : (sock : ℕ) (o : Order) (s : Shop) → Sent s.sent (handle_client sock o s).sent
unfolding handle_client update_client
handle_client-Sent sock o s = elim (Bool-cases (o.request_type == order_cancelled)) [
  | inl e ↦ rw e ((o.sock, record o { status = codes "Cancelled" }) ∷ [], refl, inl (refl, tt))
  | inr e ↦ rw e ([], refl, inl tt)
]

manager_step-SentBy : (s : Shop) → SentBy s (manager_step s)
unfolding manager_step pushed
manager_step-SentBy s = go s.order_queue refl
  where
    go : (os : List Order) → s.order_queue ≡ os → SentBy s (manager_step s)
    go [] e = rw (e, manager_step) tt
    go (o ∷ os) e = elim (Bool-cases (ltb (length s.cook_tasks) max_clients)) [
      | inl f ↦ rw (e, f, manager_step, pushed) ([], refl, inl tt)
      | inr f ↦ rw (e, f, manager_step, pushed) tt
    ]

take_task-SentBy : (i n : ℕ) (s : Shop) → SentBy s (take_task i n s)
unfolding take_task update_client
take_task-SentBy i n s = go s.cook_tasks refl (ltb 0 s.task_sem) refl
  where
    go :
        (os : List Order)
        → s.cook_tasks ≡ os
        → (b : Bool) → ltb 0 s.task_sem ≡ b
        → SentBy s (take_task i n s)
    go [] e true f = rw (e, f, take_task) ([], refl, inl tt)
    go [] e false f = rw (e, f, take_task) tt
    go (o ∷ os) e true f = rw (e, f, take_task) (_ ∷ [], refl, inr (cooking, (refl, tt)))
    go (o ∷ os) e false f = rw (e, f, take_task) tt

cook_at-SentBy : (i n : ℕ) (c : Cook) (s : Shop) → SentBy s (cook_at i n c s)
unfolding cook_at pushed update_client
cook_at-SentBy i n free s = take_task-SentBy i n s
cook_at-SentBy i n (holding o) s = (_ ∷ [], refl, inr (in_oven, (refl, tt)))
cook_at-SentBy i n (baking o) s = ([], refl, inl tt)
cook_at-SentBy i n (baked o) s = elim (Bool-cases (ltb (length s.delivery_tasks) max_clients)) [
  | inl f ↦ rw (f, cook_at, pushed) (_ ∷ [], refl, inr (cooked, (refl, tt)))
  | inr f ↦ rw (f, cook_at, pushed) tt
]

courier_at-SentBy :
    (i n : ℕ) (timed_out : Bool) (batch : List Order) (s : Shop)
    → SentBy s (courier_at i n timed_out batch s)
unfolding courier_at
courier_at-SentBy i n timed_out [] s =
    let size = batch_size timed_out (length s.delivery_tasks) in
    let batch = map (numbered n) (take size s.delivery_tasks) in
    let (new, e, all) =
      update_all-AllSay (codes "Delivering") batch (record s {
        delivery_tasks = drop size s.delivery_tasks;
        carried = set s.carried i batch;
      }) in
    (new, e, inr (delivering, all))
courier_at-SentBy i n timed_out (o ∷ os) s =
    let (new, e, all) =
      update_all-AllSay (codes "Delivered") (o ∷ os)
        (record s { carried = set s.carried i []; delivered = s.delivered ++ o ∷ os }) in
    (new, e, inr (is_delivered, all))

pub step-SentBy : (e : Event) (s : Shop) → SentBy s (step e s)
unfolding step cook_step courier_step
step-SentBy (client sock o) s = handle_client-Sent sock o s
step-SentBy manager s = manager_step-SentBy s
step-SentBy (cook i n) s = elim (Option-cases (get_elem? s.cooks i)) [
  | inl e ↦ rw (e, cook_step) tt
  | inr (c, e) ↦ rw (e, cook_step) (cook_at-SentBy i n c s)
]
step-SentBy (courier i n timed_out) s = elim (Option-cases (get_elem? s.carried i)) [
  | inl e ↦ rw (e, courier_step) tt
  | inr (batch, e) ↦ rw (e, courier_step) (courier_at-SentBy i n timed_out batch s)
]

-- Messages that all say the same, seen from a socket.
pub heard-Cancelled :
    (k : ℕ) (new old : List (ℕ × Order))
    → AllSay (codes "Cancelled") new
    → heard k (new ++ old) ≡ heard k old
heard-Cancelled k [] old h = refl
heard-Cancelled k ((sock, o) ∷ new) old (e, h) = ground (arith, e, heard-Cancelled k new old h)

pub sum-Cancelled :
    (k : ℕ) (m : Status) (new : List (ℕ × Order))
    → AllSay (codes "Cancelled") new
    → sum (says (at_sock k) m) new ≡ 0
sum-Cancelled k m [] h = refl
sum-Cancelled k m ((sock, o) ∷ new) (e, h) = ground (arith, e, sum-Cancelled k m new h)

pub sum-other :
    (k : ℕ) (j m : Status) (new : List (ℕ × Order))
    → AllSay (status_text j) new
    → j ≢ m
    → sum (says (at_sock k) m) new ≡ 0
sum-other k j m [] h d = refl
sum-other k j m ((sock, o) ∷ new) (e, h) d = ground (arith, e, d, sum-other k j m new h d)

pub heard-none :
    (k : ℕ) (j : Status) (new old : List (ℕ × Order))
    → AllSay (status_text j) new
    → sum (says (at_sock k) j) new ≡ 0
    → heard k (new ++ old) ≡ heard k old
heard-none k j [] old h z = refl
heard-none k j ((sock, o) ∷ new) old (e, h) z = ground (arith, e, z, heard-none k j new old h)

pub heard-one :
    (k : ℕ) (j : Status) (new old : List (ℕ × Order))
    → AllSay (status_text j) new
    → sum (says (at_sock k) j) new ≡ 1
    → heard k (new ++ old) ≡ status_text j ∷ heard k old
heard-one k j [] old h z = ground (arith, z)
heard-one k j ((sock, o) ∷ new) old (e, h) z =
    ground (arith, e, z, heard-one k j new old h, heard-none k j new old h)
