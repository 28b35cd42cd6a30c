-- ===== src/PideShop/Orders/Messages.antt =====
-- The messages of Final/server.c to the sockets of the clients, against how far the orders are.
use system_programming_cse.Common.{
  ℕ, ◌+◌, ◌≡◌, refl, Bool, inl, inr, Option-cases, some, List, [], ◌∷◌, ◌++◌, map, if◌then◌else◌,
  arith, Text, codes, text_eq, length, take, drop, get_elem?, set,
}
use system_programming_cse.PideShop.Orders.{
  Order, Cook, free, holding, baking, baked, Shop, update_client, handle_client, Outcome, waits,
  undefined, goes, pushed, manager_step, take_task, cook_at, cook_step, batch_size, update_all,
  numbered, courier_at, courier_step, Event, client, manager, cook, courier, step, run,
}
use system_programming_cse.Common.Sums.{sum, sum-append, sum-take, sum-set, sum-map}

-- What a client is told about an order on its way.
pub data Status : Type 0 where
  cooking in_oven cooked delivering is_delivered : Status

abbrev pub status_text : Status → Text
status_text cooking = codes "Cooking"
status_text in_oven = codes "In Oven"
status_text cooked = codes "Cooked"
status_text delivering = codes "Delivering"
status_text is_delivered = codes "Delivered"

-- Each socket and id with a weight.
module _ (weight : ℕ → ℕ → ℕ) where
  abbrev pub weigh : Order → ℕ
  weigh o = weight o.sock o.order_id

  -- The orders that are so far that the client has been told the status: at a cook, in the pool of the
  -- couriers, and with a courier.
  abbrev pub past_cook : Status → Cook → ℕ
  past_cook _ free = 0
  past_cook cooking (holding o) = weigh o
  past_cook cooking (baking o) = weigh o
  past_cook cooking (baked o) = weigh o
  past_cook in_oven (baking o) = weigh o
  past_cook in_oven (baked o) = weigh o
  past_cook _ _ = 0

  abbrev pub past_pool : Status → Order → ℕ
  past_pool delivering o = 0
  past_pool is_delivered o = 0
  past_pool _ o = weigh o

  abbrev pub past_courier : Status → Order → ℕ
  past_courier is_delivered o = 0
  past_courier _ o = weigh o

  -- The weight of the orders in the shop that have reached the status.
  unfoldable pub past : Status → Shop → ℕ
  past m s =
      sum (past_cook m) s.cooks
      + sum (past_pool m) s.delivery_tasks
      + sum (sum (past_courier m)) s.carried
      + sum weigh s.delivered

  -- The weight of the messages with the status that have been sent.
  abbrev pub says : Status → ℕ × Order → ℕ
  says m (sock, o) = if text_eq o.status (status_text m) then weight sock o.order_id else 0

  unfoldable pub messages : Status → Shop → ℕ
  messages m s = sum (says m) s.sent

  -- What has been sent and what should have been.
  abbrev pub Told : Status → Shop → Type 0
  Told m s = messages m s ≡ past m s

  unfoldable pub ToldAfter : Status → Outcome → Type 0
  ToldAfter m waits = Unit {0}
  ToldAfter m undefined = Unit {0}
  ToldAfter m (goes t) = Told m t

  handle_client-Told :
      (m : Status) (sock : ℕ) (o : Order) (s : Shop) → Told m s → Told m (handle_client sock o s)
  unfolding handle_client update_client messages past
  handle_client-Told m sock o s h = ground arith

  manager_step-ToldAfter : (m : Status) (s : Shop) → Told m s → ToldAfter m (manager_step s)
  unfolding ToldAfter manager_step pushed messages past
  manager_step-ToldAfter m s h = ground arith

  take_task-ToldAfter :
      (m : Status) (i n : ℕ) (s : Shop)
      → get_elem? s.cooks i ≡ some free
      → Told m s
      → ToldAfter m (take_task i n s)
  unfolding ToldAfter take_task update_client messages past
  take_task-ToldAfter m i n s at h = go s.cook_tasks refl
    where
      go : (tasks : List Order) → s.cook_tasks ≡ tasks → ToldAfter m (take_task i n s)
      go [] e = ground (arith, e)
      go (o ∷ os) e =
          ground
            (arith, e, sum-set (past_cook m) s.cooks i free (holding (record o { cook_id = n })) at)

  cook_at-ToldAfter :
      (m : Status) (i n : ℕ) (c : Cook) (s : Shop)
      → get_elem? s.cooks i ≡ some c
      → Told m s
      → ToldAfter m (cook_at i n c s)
  unfolding ToldAfter cook_at pushed update_client messages past
  cook_at-ToldAfter m i n free s at h = take_task-ToldAfter m i n s at h
  cook_at-ToldAfter m i n (holding o) s at h =
      ground (arith, sum-set (past_cook m) s.cooks i (holding o) (baking o) at)
  cook_at-ToldAfter m i n (baking o) s at h =
      ground (arith, sum-set (past_cook m) s.cooks i (baking o) (baked o) at)
  cook_at-ToldAfter m i n (baked o) s at h =
      ground (arith, sum-set (past_cook m) s.cooks i (baked o) free at)

  -- The same message about every order of a list.
  update_all-messages :
      (m : Status) (status : Text) (os : List Order) (s : Shop)
      → (messages m (update_all status os s)
          ≡ messages m s + (if text_eq status (status_text m) then sum weigh os else 0))
        × (past m (update_all status os s) ≡ past m s)
  unfolding update_all update_client messages past
  update_all-messages m status [] s = ground arith
  update_all-messages m status (o ∷ os) s = ground (
    arith,
    update_all-messages m status os
        (record s { sent = (o.sock, record o { status = status }) ∷ s.sent }),
  )

  -- A courier is past each status but the last, the pool only past the first three.
  sum-past_courier :
      (m : Status) (os : List Order)
      → sum (past_courier m) os
        ≡ (if text_eq (status_text is_delivered) (status_text m) then 0 else sum weigh os)
  sum-past_courier m [] = ground arith
  sum-past_courier m (o ∷ os) = ground (arith, sum-past_courier m os)

  sum-past_pool :
      (m : Status) (os : List Order)
      → sum (past_pool m) os
        ≡ (if text_eq (status_text delivering) (status_text m) then 0 else sum (past_courier m) os)
  sum-past_pool m [] = ground arith
  sum-past_pool m (o ∷ os) = ground (arith, sum-past_pool m os)

  courier_at-ToldAfter :
      (m : Status) (i n : ℕ) (timed_out : Bool) (batch : List Order) (s : Shop)
      → get_elem? s.carried i ≡ some batch
      → Told m s
      → ToldAfter m (courier_at i n timed_out batch s)
  unfolding ToldAfter courier_at numbered messages past
  courier_at-ToldAfter m i n timed_out [] s at h =
      let size = batch_size timed_out (length s.delivery_tasks) in
      let taken = take size s.delivery_tasks in
      let batch = map (numbered n) taken in
      let with_batch = record s {
        delivery_tasks = drop size s.delivery_tasks;
        carried = set s.carried i batch;
      } in
      let (sent, kept) = update_all-messages m (codes "Delivering") batch with_batch in
      ground (
        arith,
        sent,
        kept,
        sum-set (sum (past_courier m)) s.carried i [] batch at,
        sum-take (past_pool m) size s.delivery_tasks,
        sum-map (past_courier m) (numbered n) (λ o. same m o) taken,
        sum-map weigh (numbered n) (λ o. refl) taken,
        sum-past_pool m taken,
        sum-past_courier m taken,
      )
    where
      same : (m : Status) (o : Order) → past_courier m (numbered n o) ≡ past_courier m o
      same m o = ground arith
  courier_at-ToldAfter m i n timed_out (o ∷ os) s at h =
      let empty = record s { carried = set s.carried i []; delivered = s.delivered ++ o ∷ os } in
      let (sent, kept) = update_all-messages m (codes "Delivered") (o ∷ os) empty in
      ground (
        arith,
        sent,
        kept,
        sum-set (sum (past_courier m)) s.carried i (o ∷ os) [] at,
        sum-append weigh s.delivered (o ∷ os),
        sum-past_courier m (o ∷ os),
      )

  pub step-ToldAfter : (m : Status) (e : Event) (s : Shop) → Told m s → ToldAfter m (step e s)
  unfolding step cook_step courier_step ToldAfter
  step-ToldAfter m (client sock o) s h = handle_client-Told m sock o s h
  step-ToldAfter m manager s h = manager_step-ToldAfter m s h
  step-ToldAfter m (cook i n) s h = elim (Option-cases (get_elem? s.cooks i)) [
    | inl e ↦ rw (e, cook_step, ToldAfter) tt
    | inr (c, e) ↦ rw (e, cook_step) (cook_at-ToldAfter m i n c s e h)
  ]
  step-ToldAfter m (courier i n timed_out) s h = elim (Option-cases (get_elem? s.carried i)) [
    | inl e ↦ rw (e, courier_step, ToldAfter) tt
    | inr (batch, e) ↦ rw (e, courier_step) (courier_at-ToldAfter m i n timed_out batch s e h)
  ]

  pub run-Told :
      (m : Status) (es : List Event) (s t : Shop) → Told m s → run es s ≡ some t → Told m t
  unfolding run ToldAfter
  run-Told m [] s t h e = ground (arith, e)
  run-Told m (e ∷ es) s t h r =
      go (λ u k q. run-Told m es u t k q) (step e s) refl (step-ToldAfter m e s h)
    where
      go :
          ((u : Shop) → Told m u → run es u ≡ some t → Told m t)
          → (x : Outcome) → step e s ≡ x
          → ToldAfter m x
          → Told m t
      go rest waits q k = rest s h (ground (arith, q, r))
      go rest undefined q k = ground (arith, q, r)
      go rest (goes u) q k = rest u k (ground (arith, q, r))
