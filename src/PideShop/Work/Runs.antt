-- ===== src/PideShop/Work/Runs.antt =====
-- The threads of Final/server.c with the semaphores of the oven, seen as steps of the shop and turns of its
-- cooks.
use system_programming_cse.Common.{
  ℕ, ◌+◌, ◌*◌, ◌≤◌, ◌≡◌, ◌==◌, false, refl, sym, ap, subst, ◌∙◌, ◌⊎◌, inl, inr, Option-cases, some,
  List, [], ◌∷◌, ◌++◌, arith, get_elem?, length,
}
use system_programming_cse.PideShop.Oven.{
  max_oven_capacity, Kitchen, preparing, placing, removing, turn, turns, kitchen,
}
use system_programming_cse.PideShop.Oven
use system_programming_cse.PideShop.Oven.Capacity.{turns-capacity}
use system_programming_cse.PideShop.Orders.{
  Cook, free, holding, Shop, Outcome, cook_step, Event, client, manager, cook, courier, step, run,
  open_shop, order_cancelled,
}
use system_programming_cse.PideShop.Orders.Conservation.{placed}
use system_programming_cse.PideShop.Orders
use system_programming_cse.PideShop.Work.{
  Work, Progress, waits, undefined, goes, with_kitchen, semaphore_step, outside_step, work_at,
  with_places, work_step, run_work, open_work,
}
use system_programming_cse.PideShop.Orders.{max_clients}
use system_programming_cse.PideShop.Orders.Conservation.{total, step-less}
use system_programming_cse.PideShop.Orders.Bounds.{one, step-defined, open_shop-total}
use system_programming_cse.PideShop.Work.Together.{run_work-Good, open_work-Good}

-- A step of the whole is one of the shop or leaves it as it is, and is a turn in the kitchen or
-- leaves that.
abbrev Parts : Event → Work → Progress → Type 0
Parts e w waits = Unit {0}
Parts e w undefined = step e w.shop ≡ Orders.undefined
Parts e w (goes v) =
    ((step e w.shop ≡ Orders.goes v.shop) ⊎ (v.shop ≡ w.shop))
    × ((is : List ℕ) × (turns is w.kitchen ≡ v.kitchen))

with_kitchen-Parts :
    (e : Event) (w : Work) (k : Kitchen) (is : List ℕ) (x : Outcome)
    → step e w.shop ≡ x
    → turns is w.kitchen ≡ k
    → Parts e w (with_kitchen k x)
unfolding with_kitchen
with_kitchen-Parts e w k is Orders.waits h t = tt
with_kitchen-Parts e w k is Orders.undefined h t = h
with_kitchen-Parts e w k is (Orders.goes s) h t = (inl h, (is, t))

work_at-Parts :
    (i id : ℕ) (p : Oven.Cook) (c : Cook) (w : Work) → Parts (cook i id) w (work_at i id p c w)
unfolding work_at outside_step semaphore_step step turns
work_at-Parts i id preparing (holding o) w = (inr refl, (i ∷ [], refl))
work_at-Parts i id preparing c w =
    with_kitchen-Parts (cook i id) w w.kitchen [] (cook_step i id w.shop) refl refl
work_at-Parts i id placing c w =
    with_kitchen-Parts (cook i id) w (turn i w.kitchen) (i ∷ []) (cook_step i id w.shop) refl refl
work_at-Parts i id removing c w =
    with_kitchen-Parts (cook i id) w (turn i w.kitchen) (i ∷ []) (cook_step i id w.shop) refl refl
work_at-Parts i id p c w = (inr refl, (i ∷ [], refl))

work_step-Parts : (e : Event) (w : Work) → Parts e w (work_step e w)
unfolding work_step with_places turns
work_step-Parts (client sock o) w =
    with_kitchen-Parts (client sock o) w w.kitchen [] (step (client sock o) w.shop) refl refl
work_step-Parts manager w =
    with_kitchen-Parts manager w w.kitchen [] (step manager w.shop) refl refl
work_step-Parts (courier i id timed_out) w =
    with_kitchen-Parts (courier i id timed_out) w w.kitchen []
      (step (courier i id timed_out) w.shop) refl refl
work_step-Parts (cook i id) w = elim (Option-cases (get_elem? w.kitchen.cooks i)) [
  | inl e ↦ rw (e, with_places) tt
  | inr (p, e) ↦ elim (Option-cases (get_elem? w.shop.cooks i)) [
    | inl f ↦ rw (e, f, with_places) tt
    | inr (c, f) ↦ rw (e, f, with_places) (work_at-Parts i id p c w)
  ]
]

turns-append : (is js : List ℕ) (k : Kitchen) → turns (is ++ js) k ≡ turns js (turns is k)
unfolding turns
turns-append [] js k = refl
turns-append (i ∷ is) js k = turns-append is js (turn i k)

-- A run of the shop and turns in the kitchen that come to the same, and place no more than the given
-- steps.
abbrev pub Projects : List Event → Work → Work → Type 0
Projects es w v =
    (fs : List Event) × (is : List ℕ) × (run fs w.shop ≡ some v.shop)
    × (turns is w.kitchen ≡ v.kitchen)
    × ((weight : ℕ → ℕ → ℕ) → placed weight fs ≤ placed weight es)

run-step :
    (e : Event) (es : List Event) (s t : Shop)
    → step e s ≡ Orders.goes t
    → run (e ∷ es) s ≡ run es t
unfolding run
run-step e es s t h = rw (h, run) refl

run_work-Projects : (es : List Event) (w v : Work) → run_work es w ≡ some v → Projects es w v
unfolding run_work run turns
run_work-Projects [] w v h =
    let same : w ≡ v = cc in
    ([], [], ap (λ x. some x.shop) same, ap (λ x. x.kitchen) same, λ weight. omega arith)
run_work-Projects (e ∷ es) w v h =
    go (λ u q. run_work-Projects es u v q) (work_step e w) refl (work_step-Parts e w)
  where
    go :
        ((u : Work) → run_work es u ≡ some v → Projects es u v)
        → (x : Progress) → work_step e w ≡ x
        → Parts e w x
        → Projects (e ∷ es) w v
    go rest waits q k =
        let (fs, js, ran, turned, few) = rest w (ground (arith, q, h)) in
        (fs, js, ran, turned, λ weight. omega (arith, few weight))
    go rest undefined q k = ground (arith, q, h)
    go rest (goes u) q (inl s, (is, t)) =
        let (fs, js, ran, turned, few) = rest u (ground (arith, q, h)) in
        (
          e ∷ fs,
          is ++ js,
          run-step e fs w.shop u.shop s ∙ ran,
          turns-append is js w.kitchen ∙ ap (turns js) t ∙ turned,
          λ weight. omega (arith, few weight),
        )
    go rest (goes u) q (inr s, (is, t)) =
        let (fs, js, ran, turned, few) = rest u (ground (arith, q, h)) in
        (
          fs,
          is ++ js,
          ap (run fs) (sym s) ∙ ran,
          turns-append is js w.kitchen ∙ ap (turns js) t ∙ turned,
          λ weight. omega (arith, few weight),
        )

-- The orders there and those that are placed are few enough for the arrays of the pools.
Few : List Event → Work → Type 0
Few es w = total one w.shop + placed one es ≤ max_clients

Few-step :
    (e : Event) (es : List Event) (w u : Work) → Parts e w (goes u) → Few (e ∷ es) w → Few es u
unfolding Few
Few-step e es w u (inl s, _) few = omega (arith, few, step-less one e w.shop u.shop s)
Few-step e es w u (inr s, _) few = omega (arith, few, ap (total one) s)

run_work-defined : (es : List Event) (w : Work) → Few es w → (v : Work) × (run_work es w ≡ some v)
unfolding run_work Few
run_work-defined [] w few = (w, refl)
run_work-defined (e ∷ es) w few =
    go (λ u h. run_work-defined es u h) (work_step e w) refl (work_step-Parts e w)
  where
    go :
        ((u : Work) → Few es u → (v : Work) × (run_work es u ≡ some v))
        → (x : Progress) → work_step e w ≡ x
        → Parts e w x
        → (v : Work) × (run_work (e ∷ es) w ≡ some v)
    go rest waits q k = let (v, h) = rest w (omega (arith, few)) in (v, rw (q, run_work) h)
    go rest undefined q k = absurd (step-defined e w.shop (omega (arith, few)) k)
    go rest (goes u) q k = let (v, h) = rest u (Few-step e es w u k few) in (v, rw (q, run_work) h)

-- No client cancels an order.
abbrev pub NoCancel : List Event → Type 0
NoCancel [] = Unit {0}
NoCancel (client sock o ∷ es) = ((o.request_type == order_cancelled) ≡ false) × NoCancel es
NoCancel (e ∷ es) = NoCancel es

-- If the clients place no more than MAX_CLIENTS orders and cancel none, and no two calls on the queue of the
-- oven overlap: every run of the threads with the semaphores of the
-- oven overruns no array; for the orders it is a run of the steps of PideShop.Orders that places no more,
-- so that its theorems hold, and for the oven it is turns of the cooks; and the queue of the oven holds no more orders than the oven has places.
pub run_work-oven_queue :
    (es : List Event) (cooks couriers : ℕ)
    → placed one es ≤ max_clients
    → NoCancel es
    → (v : Work) × (run_work es (open_work cooks couriers) ≡ some v)
      × ((fs : List Event) × (run fs (open_shop cooks couriers) ≡ some v.shop)
          × ((weight : ℕ → ℕ → ℕ) → placed weight fs ≤ placed weight es))
      × ((is : List ℕ) × (turns is (kitchen (2 * cooks)) ≡ v.kitchen))
      × (length v.shop.oven_queue ≤ max_oven_capacity)
unfolding open_work Few
run_work-oven_queue es cooks couriers few no_cancel =
    let start = open_work cooks couriers in
    let (v, h) =
      run_work-defined es start (omega (arith, few, open_shop-total one cooks couriers)) in
    let (fs, is, ran, turned, fewer) = run_work-Projects es start v h in
    let good = run_work-Good es start v (open_work-Good cooks couriers) h in
    let size : v.kitchen.oven.queue_size ≤ max_oven_capacity =
      subst (λ k. k.oven.queue_size ≤ max_oven_capacity) turned (turns-capacity (2 * cooks) is).0 in
    (v, h, (fs, ran, fewer), (is, turned), omega (arith, good.queued, size))
