-- ===== src/PideShop/Orders/Bounds.antt =====
-- The arrays of the pools of Final/server.c are large enough for fifty orders.
use system_programming_cse.Common.{
  ℕ, zero, suc, ◌+◌, ◌*◌, ◌≤◌, ◌≡◌, ◌≢◌, refl, ap, ◌∙◌, Bool, Option-cases, inl, inr, some, List,
  [], ◌∷◌, ◌==◌, if◌then◌else◌, arith, length, get_elem?,
}
use system_programming_cse.PideShop.Orders.{
  max_clients, Order, Cook, free, holding, baking, baked, Shop, Outcome, waits, undefined, goes,
  pushed, manager_step, take_task, cook_at, cook_step, courier_at, courier_step, Event, client,
  manager, cook, courier, step, run, all_free, none_carried, open_shop,
}
use system_programming_cse.Common.Sums.{sum}
use system_programming_cse.PideShop.Orders.Conservation.{
  count, at_cook, total, placed, AllSpare, step-less, run-total,
}

abbrev pub one : ℕ → ℕ → ℕ
one sock id = 1

count-one : (os : List Order) → count one os ≡ length os
count-one [] = refl
count-one (o ∷ os) = omega (arith, count-one os)

at_cook-le :
    (w : ℕ → ℕ → ℕ) (cs : List Cook) (i : ℕ) (c : Cook)
    → get_elem? cs i ≡ some c
    → at_cook w c ≤ sum (at_cook w) cs
at_cook-le w [] i c h = cc
at_cook-le w (d ∷ cs) zero c h = ground (arith, h)
at_cook-le w (d ∷ cs) (suc i) c h = omega (arith, at_cook-le w cs i c h)

manager_step-defined : (s : Shop) → total one s ≤ max_clients → manager_step s ≢ undefined
unfolding manager_step pushed total
manager_step-defined s h u = go s.order_queue refl
  where
    go : (os : List Order) → s.order_queue ≡ os → ⊥
    go [] e = ground (arith, e, u)
    go (o ∷ os) e =
        let held = ap (count one) e in ground (arith, e, u, count-one s.cook_tasks, held)

take_task-defined : (i n : ℕ) (s : Shop) → take_task i n s ≢ undefined
unfolding take_task
take_task-defined i n s u = ground (arith, u)

cook_at-defined :
    (i n : ℕ) (c : Cook) (s : Shop)
    → get_elem? s.cooks i ≡ some c
    → total one s ≤ max_clients
    → cook_at i n c s ≢ undefined
unfolding cook_at pushed total
cook_at-defined i n free s at h u = take_task-defined i n s u
cook_at-defined i n (holding o) s at h u = ground (arith, u)
cook_at-defined i n (baking o) s at h u = ground (arith, u)
cook_at-defined i n (baked o) s at h u =
    ground (arith, u, count-one s.delivery_tasks, at_cook-le one s.cooks i (baked o) at)

courier_at-defined :
    (i n : ℕ) (timed_out : Bool) (batch : List Order) (s : Shop)
    → courier_at i n timed_out batch s ≢ undefined
unfolding courier_at
courier_at-defined i n timed_out [] s u = ground (arith, u)
courier_at-defined i n timed_out (o ∷ os) s u = ground (arith, u)

pub step-defined : (e : Event) (s : Shop) → total one s ≤ max_clients → step e s ≢ undefined
unfolding step cook_step courier_step courier_at
step-defined (client sock o) s h u = ground (arith, u)
step-defined manager s h u = manager_step-defined s h u
step-defined (cook i n) s h u = elim (Option-cases (get_elem? s.cooks i)) [
  | inl e ↦ ground (arith, e, u)
  | inr (c, e) ↦ cook_at-defined i n c s e h (rw (e, cook_step) at u)
]
step-defined (courier i n timed_out) s h u = elim (Option-cases (get_elem? s.carried i)) [
  | inl e ↦ ground (arith, e, u)
  | inr (batch, e) ↦ courier_at-defined i n timed_out batch s (rw (e, courier_step) at u)
]

-- From any state of the shop, as long as the orders there and those that are placed are no more
-- than MAX_CLIENTS.
pub run-defined :
    (es : List Event) (s : Shop)
    → total one s + placed one es ≤ max_clients
    → (t : Shop) × (run es s ≡ some t)
unfolding run
run-defined [] s h = (s, refl)
run-defined (e ∷ es) s h = go (λ u q. run-defined es u q) (step e s) refl
  where
    go :
        ((u : Shop) → total one u + placed one es ≤ max_clients → (t : Shop) × (run es u ≡ some t))
        → (x : Outcome) → step e s ≡ x
        → (t : Shop) × (run (e ∷ es) s ≡ some t)
    go rest waits q =
        let same : run (e ∷ es) s ≡ run es s = rw (q, run) refl in
        let (t, r) = rest s (omega (arith, h)) in (t, same ∙ r)
    go rest undefined q = absurd (step-defined e s (omega (arith, h)) q)
    go rest (goes u) q =
        let same : run (e ∷ es) s ≡ run es u = rw (q, run) refl in
        let (t, r) = rest u (omega (arith, h, step-less one e s u q)) in (t, same ∙ r)

all_free-sum : (w : ℕ → ℕ → ℕ) (n : ℕ) → sum (at_cook w) (all_free n) ≡ 0
unfolding all_free
all_free-sum w zero = refl
all_free-sum w (suc n) = omega (arith, all_free-sum w n)

none_carried-sum : (w : ℕ → ℕ → ℕ) (n : ℕ) → sum (count w) (none_carried n) ≡ 0
unfolding none_carried
none_carried-sum w zero = refl
none_carried-sum w (suc n) = omega (arith, none_carried-sum w n)

pub open_shop-total : (w : ℕ → ℕ → ℕ) (m n : ℕ) → total w (open_shop m n) ≡ 0
unfolding open_shop total
open_shop-total w m n = omega (arith, all_free-sum w (2 * m), none_carried-sum w (2 * n))

all_free-length : (n : ℕ) → length (all_free n) ≡ n
unfolding all_free
all_free-length zero = refl
all_free-length (suc n) = ap suc (all_free-length n)

none_carried-length : (n : ℕ) → length (none_carried n) ≡ n
unfolding none_carried
none_carried-length zero = refl
none_carried-length (suc n) = ap suc (none_carried-length n)

pub open_shop-length :
    (m n : ℕ) → (length (open_shop m n).cooks ≡ 2 * m) × (length (open_shop m n).carried ≡ 2 * n)
unfolding open_shop
open_shop-length m n = (all_free-length (2 * m), none_carried-length (2 * n))

abbrev pub only : ℕ → ℕ → ℕ → ℕ
only id sock j = if j == id then 1 else 0

abbrev pub at_sock : ℕ → ℕ → ℕ → ℕ
at_sock k sock j = if sock == k then 1 else 0

-- If the clients place no more than MAX_CLIENTS orders, then no array is overrun, whatever the order
-- of the steps and whatever is cancelled; and for an id that nobody cancels, as many orders with it
-- are in the queue of the manager, in the pools, with the cooks and the couriers, or delivered, as
-- clients have placed.
pub run-open_shop :
    (es : List Event) (cooks couriers id : ℕ)
    → placed one es ≤ max_clients
    → AllSpare (only id) es
    → (t : Shop) × (run es (open_shop cooks couriers) ≡ some t)
      × (total (only id) t ≡ placed (only id) es)
run-open_shop es m n id few spare =
    let start = open_shop m n in
    let (t, r) = run-defined es start (omega (arith, open_shop-total one m n)) in
    let kept = run-total (only id) es start t spare r in
    (t, r, omega (arith, open_shop-total (only id) m n))
