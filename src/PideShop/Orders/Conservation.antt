-- ===== src/PideShop/Orders/Conservation.antt =====
-- No order of Final/server.c that nobody cancels is lost or doubled on its way.
use system_programming_cse.Common.{
  ℕ, ◌+◌, ◌≡◌, refl, ap, subst, ◌≤◌, ℕ_discrete, ◌∙◌, Bool, Bool-cases, inl, inr, Option-cases,
  some, List, [], ◌∷◌, ◌++◌, map, ◌==◌, if◌then◌else◌, arith, Text, codes, length, take, drop,
  get_elem?, set,
}
use system_programming_cse.PideShop.Orders.{
  order_cancelled, Order, Cook, free, holding, baking, baked, Shop, remove_order, update_client,
  handle_client, Outcome, waits, undefined, goes, pushed, manager_step, take_task, cook_at,
  cook_step, batch_size, update_all, numbered, courier_at, courier_step, Event, client, manager,
  cook, courier, step, run,
}
use system_programming_cse.Common.Sums.{sum, sum-append, sum-take, sum-set, sum-map}

-- Each socket and id with a weight: the weight of the orders in a list, at a cook, and in the whole shop.
module _ (weight : ℕ → ℕ → ℕ) where
  abbrev pub is_it : Order → ℕ
  is_it o = weight o.sock o.order_id

  abbrev pub count : List Order → ℕ
  count = sum is_it

  abbrev pub at_cook : Cook → ℕ
  at_cook free = 0
  at_cook (holding o) = is_it o
  at_cook (baking o) = is_it o
  at_cook (baked o) = is_it o

  unfoldable pub total : Shop → ℕ
  total s =
      count s.order_queue
      + count s.cook_tasks
      + sum at_cook s.cooks
      + count s.delivery_tasks
      + sum count s.carried
      + count s.delivered

  -- The total behind a step that is to add `n`; a step that is undefined counts as if it did.
  after : Shop → ℕ → Outcome → ℕ
  after s n waits = total s
  after s n undefined = total s + n
  after s n (goes t) = total t

  remove_order-count :
      (j : ℕ) (os : List Order)
      → ((sock : ℕ) → weight sock j ≡ 0)
      → count (remove_order j os) ≡ count os
  unfolding remove_order
  remove_order-count j [] light = refl
  remove_order-count j (o ∷ os) light = elim (ℕ_discrete o.order_id j) [
    | yes e ↦
        let none_there : weight o.sock o.order_id ≡ 0 = ap (weight o.sock) e ∙ light o.sock in
        ground (arith, remove_order-count j os light)
    | no n ↦ ground (arith, remove_order-count j os light)
  ]

  remove_order-less : (j : ℕ) (os : List Order) → count (remove_order j os) ≤ count os
  unfolding remove_order
  remove_order-less j [] = omega arith
  remove_order-less j (o ∷ os) = ground (arith, remove_order-less j os)

  -- The weight that a client places on its socket, and no cancel of an id with a weight.
  abbrev pub placed_by : Event → ℕ
  placed_by (client sock o) =
      if o.request_type == order_cancelled then 0 else weight sock o.order_id
  placed_by e = 0

  abbrev pub Spares : Event → Type 0
  Spares (client sock o) = o.request_type ≡ order_cancelled → (k : ℕ) → weight k o.order_id ≡ 0
  Spares e = Unit {0}

  handle_client-total :
      (sock : ℕ) (o : Order) (s : Shop)
      → Spares (client sock o)
      → total (handle_client sock o s) ≡ total s + placed_by (client sock o)
  unfolding handle_client update_client total
  handle_client-total sock o s spares = elim (Bool-cases (o.request_type == order_cancelled)) [
    | inl e ↦
        let same = remove_order-count o.order_id s.order_queue (spares (ground arith)) in
        rw e (omega (arith, same))
    | inr e ↦ rw e (omega (arith, sum-append is_it s.order_queue (record o { sock = sock } ∷ [])))
  ]

  handle_client-less :
      (sock : ℕ) (o : Order) (s : Shop)
      → total (handle_client sock o s) ≤ total s + placed_by (client sock o)
  unfolding handle_client update_client total
  handle_client-less sock o s = elim (Bool-cases (o.request_type == order_cancelled)) [
    | inl e ↦ rw e (omega (arith, remove_order-less o.order_id s.order_queue))
    | inr e ↦ rw e (omega (arith, sum-append is_it s.order_queue (record o { sock = sock } ∷ [])))
  ]

  manager_step-total : (s : Shop) → after s 0 (manager_step s) ≡ total s
  unfolding after manager_step pushed total
  manager_step-total s = ground arith

  take_task-total :
      (i n : ℕ) (s : Shop) → get_elem? s.cooks i ≡ some free → after s 0 (take_task i n s) ≡ total s
  unfolding after take_task update_client total
  take_task-total i n s at = go s.cook_tasks refl
    where
      go : (tasks : List Order) → s.cook_tasks ≡ tasks → after s 0 (take_task i n s) ≡ total s
      go [] e = ground (arith, e)
      go (o ∷ os) e =
          ground (arith, e, sum-set at_cook s.cooks i free (holding (record o { cook_id = n })) at)

  cook_at-total :
      (i n : ℕ) (c : Cook) (s : Shop)
      → get_elem? s.cooks i ≡ some c
      → after s 0 (cook_at i n c s) ≡ total s
  unfolding after cook_at pushed update_client total
  cook_at-total i n free s at = take_task-total i n s at
  cook_at-total i n (holding o) s at =
      omega (arith, sum-set at_cook s.cooks i (holding o) (baking o) at)
  cook_at-total i n (baking o) s at =
      omega (arith, sum-set at_cook s.cooks i (baking o) (baked o) at)
  cook_at-total i n (baked o) s at = ground (arith, sum-set at_cook s.cooks i (baked o) free at)

  cook_step-total : (i n : ℕ) (s : Shop) → after s 0 (cook_step i n s) ≡ total s
  unfolding cook_step after
  cook_step-total i n s = elim (Option-cases (get_elem? s.cooks i)) [
    | inl e ↦ rw (e, after) refl
    | inr (c, e) ↦ rw (e, after) (cook_at-total i n c s e)
  ]

  update_all-total :
      (status : Text) (os : List Order) (s : Shop) → total (update_all status os s) ≡ total s
  unfolding update_all update_client total
  update_all-total status [] s = refl
  update_all-total status (o ∷ os) s =
      update_all-total status os
        (record s { sent = (o.sock, record o { status = status }) ∷ s.sent })

  courier_at-total :
      (i n : ℕ) (timed_out : Bool) (batch : List Order) (s : Shop)
      → get_elem? s.carried i ≡ some batch
      → after s 0 (courier_at i n timed_out batch s) ≡ total s
  unfolding after courier_at numbered total
  courier_at-total i n timed_out [] s at =
      let size = batch_size timed_out (length s.delivery_tasks) in
      let taken = map (numbered n) (take size s.delivery_tasks) in
      let with_batch = record s {
        delivery_tasks = drop size s.delivery_tasks;
        carried = set s.carried i taken;
      } in
      omega (
        arith,
        update_all-total _ taken with_batch,
        sum-set count s.carried i [] taken at,
        sum-take is_it size s.delivery_tasks,
        sum-map is_it (numbered n) (λ o. refl) (take size s.delivery_tasks),
      )
  courier_at-total i n timed_out (o ∷ os) s at =
      let empty = record s { carried = set s.carried i []; delivered = s.delivered ++ o ∷ os } in
      omega (
        arith,
        update_all-total (codes "Delivered") (o ∷ os) empty,
        sum-set count s.carried i (o ∷ os) [] at,
        sum-append is_it s.delivered (o ∷ os),
      )

  courier_step-total :
      (i n : ℕ) (timed_out : Bool) (s : Shop) → after s 0 (courier_step i n timed_out s) ≡ total s
  unfolding courier_step after
  courier_step-total i n timed_out s = elim (Option-cases (get_elem? s.carried i)) [
    | inl e ↦ rw (e, after) refl
    | inr (batch, e) ↦ rw (e, after) (courier_at-total i n timed_out batch s e)
  ]

  step-total :
      (e : Event) (s : Shop) → Spares e → after s (placed_by e) (step e s) ≡ total s + placed_by e
  unfolding step after
  step-total (client sock o) s spares = handle_client-total sock o s spares
  step-total manager s spares = omega (arith, manager_step-total s)
  step-total (cook i n) s spares = omega (arith, cook_step-total i n s)
  step-total (courier i n timed_out) s spares = omega (arith, courier_step-total i n timed_out s)

  pub step-less : (e : Event) (s t : Shop) → step e s ≡ goes t → total t ≤ total s + placed_by e
  unfolding step after
  step-less (client sock o) s t h =
      let same : handle_client sock o s ≡ t = cc in
      subst (λ u. total u ≤ total s + placed_by (client sock o)) same (handle_client-less sock o s)
  step-less manager s t h = ground (arith, h, manager_step-total s)
  step-less (cook i n) s t h = ground (arith, h, cook_step-total i n s)
  step-less (courier i n timed_out) s t h = ground (arith, h, courier_step-total i n timed_out s)

  abbrev pub placed : List Event → ℕ
  placed = sum placed_by

  abbrev pub AllSpare : List Event → Type 0
  AllSpare [] = Unit {0}
  AllSpare (e ∷ es) = Spares e × AllSpare es

  pub run-total :
      (es : List Event) (s t : Shop)
      → AllSpare es
      → run es s ≡ some t
      → total t ≡ total s + placed es
  unfolding run after
  run-total [] s t spare h = ground (arith, h)
  run-total (e ∷ es) s t (spares, more) h =
      go (λ u q. run-total es u t more q) (step e s) refl (step-total e s spares)
    where
      go :
          ((u : Shop) → run es u ≡ some t → total t ≡ total u + placed es)
          → (x : Outcome) → step e s ≡ x
          → after s (placed_by e) x ≡ total s + placed_by e
          → total t ≡ total s + placed (e ∷ es)
      go rest waits q n =
          let same : run es s ≡ some t = ground (arith, q, h) in omega (arith, n, rest s same)
      go rest undefined q n = ground (arith, q, h)
      go rest (goes u) q n =
          let same : run es u ≡ some t = ground (arith, q, h) in omega (arith, n, rest u same)

  pub run-less : (es : List Event) (s t : Shop) → run es s ≡ some t → total t ≤ total s + placed es
  unfolding run
  run-less [] s t h = ground (arith, h)
  run-less (e ∷ es) s t h = go (λ u q. run-less es u t q) (step e s) refl (step-less e s)
    where
      go :
          ((u : Shop) → run es u ≡ some t → total t ≤ total u + placed es)
          → (x : Outcome) → step e s ≡ x
          → ((u : Shop) → step e s ≡ goes u → total u ≤ total s + placed_by e)
          → total t ≤ total s + placed (e ∷ es)
      go rest waits q n =
          let same : run es s ≡ some t = ground (arith, q, h) in omega (arith, rest s same)
      go rest undefined q n = ground (arith, q, h)
      go rest (goes u) q n =
          let same : run es u ≡ some t = ground (arith, q, h) in omega (arith, n u q, rest u same)
