-- ===== src/PideShop/Work/Agreement.antt =====
-- Where a cook stands at the oven of Final/server.c, against what it does with its order.
use system_programming_cse.Common.{
  ℕ, zero, suc, ◌≤◌, ◌≡◌, refl, sym, ap, subst, inl, inr, Bool, true, false, some, List, [], ◌∷◌,
  arith, get_elem?, set, length, length-append, length-drop,
}
use system_programming_cse.PideShop.Oven.{
  max_oven_capacity, Kitchen, preparing, claiming, placing, placed, baking, removing, removed,
  leaving, turn, kitchen,
}
use system_programming_cse.PideShop.Oven
use system_programming_cse.PideShop.Oven.Capacity.{Inv, turn-Inv}
use system_programming_cse.PideShop.Oven.Places.{
  next_place, next_size, Moves, turn-Moves, placing-Moves, removing-Moves,
}
use system_programming_cse.PideShop.Orders.{
  Order, Cook, free, holding, baked, Shop, Outcome, cook_step, Event, client, manager, cook,
  courier, step, open_shop,
}
use system_programming_cse.PideShop.Orders.Cooks.{CookMoves, MovesBy, cook_step-MovesBy, SparesOven}
use system_programming_cse.PideShop.Orders
use system_programming_cse.PideShop.Work.{
  Work, Progress, waits, undefined, goes, with_kitchen, semaphore_step, outside_step, work_at,
}

-- An order is in the oven from `enqueue` to `dequeue`.
abbrev pub agrees : Oven.Cook → Cook → Bool
agrees preparing (Orders.baking o) = false
agrees preparing c = true
agrees claiming (holding o) = true
agrees placing (holding o) = true
agrees placed (Orders.baking o) = true
agrees baking (Orders.baking o) = true
agrees removing (Orders.baking o) = true
agrees removed (baked o) = true
agrees leaving (baked o) = true
agrees _ _ = false

abbrev pub Agree : List Oven.Cook → List Cook → Type 0
Agree [] [] = Unit {0}
Agree [] (c ∷ cs) = ⊥
Agree (p ∷ ps) [] = ⊥
Agree (p ∷ ps) (c ∷ cs) = (agrees p c ≡ true) × Agree ps cs

pub Agree-get :
    (ps : List Oven.Cook) (cs : List Cook) (i : ℕ) (p : Oven.Cook) (c : Cook)
    → Agree ps cs
    → get_elem? ps i ≡ some p
    → get_elem? cs i ≡ some c
    → agrees p c ≡ true
Agree-get [] [] i p c h e f = ground (arith, e)
Agree-get [] (d ∷ cs) i p c h e f = absurd h
Agree-get (q ∷ ps) [] i p c h e f = absurd h
Agree-get (q ∷ ps) (d ∷ cs) zero p c (h, _) e f =
    let left : q ≡ p = cc in
    let right : d ≡ c = cc in
    subst (λ x. agrees x c ≡ true) left (subst (λ x. agrees q x ≡ true) right h)
Agree-get (q ∷ ps) (d ∷ cs) (suc i) p c (_, h) e f = Agree-get ps cs i p c h e f

-- One cook moves at the oven, in the shop, or in both.
Agree-set :
    (ps : List Oven.Cook) (cs : List Cook) (i : ℕ) (p : Oven.Cook) (c : Cook)
    → Agree ps cs
    → agrees p c ≡ true
    → Agree (set ps i p) (set cs i c)
Agree-set [] [] i p c h e = tt
Agree-set [] (d ∷ cs) i p c h e = absurd h
Agree-set (q ∷ ps) [] i p c h e = absurd h
Agree-set (q ∷ ps) (d ∷ cs) zero p c (_, h) e = (e, h)
Agree-set (q ∷ ps) (d ∷ cs) (suc i) p c (g, h) e = (g, Agree-set ps cs i p c h e)

set-get : {A : Type 0} (xs : List A) (i : ℕ) (x : A) → get_elem? xs i ≡ some x → set xs i x ≡ xs
set-get [] i x e = refl
set-get (y ∷ xs) zero x e = ap (λ z. z ∷ xs) (ground (arith, e))
set-get (y ∷ xs) (suc i) x e = ap (λ zs. y ∷ zs) (set-get xs i x e)

-- The invariant of the whole: that of the kitchen, the agreement, and the queue of the oven.
pub record Good (s : Shop) (k : Kitchen) : Type 0 where
  pub inv : Inv k
  pub agree : Agree k.cooks s.cooks
  pub queued : length s.oven_queue ≤ k.oven.queue_size

-- A step of the shop that moves no cook and puts nothing into the oven.
pub Good-shop :
    (s t : Shop) (k : Kitchen)
    → t.cooks ≡ s.cooks
    → length t.oven_queue ≤ length s.oven_queue
    → Good s k
    → Good t k
Good-shop s t k e le g = record {
  inv = g.inv;
  agree = subst (Agree k.cooks) (sym e) g.agree;
  queued = omega (arith, le, g.queued);
}

-- A cook that posts a semaphore or waits for one.
semaphore-Good :
    (i : ℕ) (p : Oven.Cook) (c : Cook) (s : Shop) (k : Kitchen)
    → get_elem? k.cooks i ≡ some p
    → get_elem? s.cooks i ≡ some c
    → agrees (next_place p) c ≡ true
    → ((n : ℕ) → next_size p n ≡ n)
    → Good s k
    → Good s (turn i k)
semaphore-Good i p c s k e f a same g = elim (turn-Moves i p k e) [
  | inl stays ↦ subst (Good s) (sym stays) g
  | inr (cooks, size) ↦ record {
    inv = turn-Inv i k g.inv;
    agree =
        subst (λ ps. Agree ps s.cooks) (sym cooks)
          (subst (Agree (set k.cooks i (next_place p))) (set-get s.cooks i c f)
            (Agree-set k.cooks s.cooks i (next_place p) c g.agree a));
    queued = omega (arith, size, same k.oven.queue_size, g.queued);
  }
]

-- A cook that moves in both, with `n` orders more or less in the queue.
both-Good :
    (i : ℕ) (p : Oven.Cook) (c : Cook) (s t : Shop) (k : Kitchen)
    → Moves i p k (turn i k)
    → t.cooks ≡ set s.cooks i c
    → agrees (next_place p) c ≡ true
    → length t.oven_queue ≤ next_size p k.oven.queue_size
    → Good s k
    → Good t (turn i k)
both-Good i p c s t k (cooks, size) e a le g = record {
  inv = turn-Inv i k g.inv;
  agree =
      subst (λ ps. Agree ps t.cooks) (sym cooks)
        (subst (Agree (set k.cooks i (next_place p))) (sym e)
          (Agree-set k.cooks s.cooks i (next_place p) c g.agree a));
  queued = omega (arith, size, le);
}

-- A cook that moves in the shop only.
outside-Good :
    (i : ℕ) (p : Oven.Cook) (c : Cook) (s t : Shop) (k : Kitchen)
    → get_elem? k.cooks i ≡ some p
    → t.cooks ≡ set s.cooks i c
    → agrees p c ≡ true
    → t.oven_queue ≡ s.oven_queue
    → Good s k
    → Good t k
outside-Good i p c s t k e f a q g = record {
  inv = g.inv;
  agree = subst (Agree k.cooks) (sym f) (
      subst (λ ps. Agree ps (set s.cooks i c)) (set-get k.cooks i p e)
        (Agree-set k.cooks s.cooks i p c g.agree a));
  queued = omega (arith, ap length q, g.queued);
}

abbrev pub GoodAfter : Progress → Type 0
GoodAfter waits = Unit {0}
GoodAfter undefined = Unit {0}
GoodAfter (goes w) = Good w.shop w.kitchen

-- Steps of the shop with a kitchen.
with_kitchen-MovesBy :
    (k : Kitchen) (x : Outcome) (i : ℕ) (c : Cook) (s : Shop)
    → ((t : Shop) → CookMoves i c s t → Good t k)
    → MovesBy i c s x
    → GoodAfter (with_kitchen k x)
unfolding with_kitchen
with_kitchen-MovesBy k Orders.waits i c s h m = tt
with_kitchen-MovesBy k Orders.undefined i c s h m = tt
with_kitchen-MovesBy k (Orders.goes t) i c s h m = h t m

pub with_kitchen-SparesOven :
    (k : Kitchen) (x : Outcome) (s : Shop)
    → Good s k
    → SparesOven s x
    → GoodAfter (with_kitchen k x)
unfolding with_kitchen
with_kitchen-SparesOven k Orders.waits s g m = tt
with_kitchen-SparesOven k Orders.undefined s g m = tt
with_kitchen-SparesOven k (Orders.goes t) s g (e, le) = Good-shop s t k e le g

pub work_at-GoodAfter :
    (i id : ℕ) (p : Oven.Cook) (c : Cook) (w : Work)
    → get_elem? w.kitchen.cooks i ≡ some p
    → get_elem? w.shop.cooks i ≡ some c
    → agrees p c ≡ true
    → Good w.shop w.kitchen
    → GoodAfter (work_at i id p c w)
unfolding work_at outside_step semaphore_step
work_at-GoodAfter i id preparing free w e f a g =
    with_kitchen-MovesBy w.kitchen (cook_step i id w.shop) i free w.shop after
      (cook_step-MovesBy i id free w.shop f)
  where
    after : (t : Shop) → CookMoves i free w.shop t → Good t w.kitchen
    after t (q, inl same) = Good-shop w.shop t w.kitchen same (omega (arith, ap length q)) g
    after t (q, inr (o, m)) = outside-Good i preparing (holding o) w.shop t w.kitchen e m refl q g
work_at-GoodAfter i id preparing (holding o) w e f a g =
    semaphore-Good i preparing (holding o) w.shop w.kitchen e f refl (λ n. refl) g
work_at-GoodAfter i id preparing (Orders.baking o) w e f a g = ground (arith, a)
work_at-GoodAfter i id preparing (baked o) w e f a g =
    with_kitchen-MovesBy w.kitchen (cook_step i id w.shop) i (baked o) w.shop
      (λ t m. outside-Good i preparing free w.shop t w.kitchen e m.1 refl m.0 g)
      (cook_step-MovesBy i id (baked o) w.shop f)
work_at-GoodAfter i id claiming (holding o) w e f a g =
    semaphore-Good i claiming (holding o) w.shop w.kitchen e f refl (λ n. refl) g
work_at-GoodAfter i id placing (holding o) w e f a g =
    with_kitchen-MovesBy (turn i w.kitchen) (cook_step i id w.shop) i (holding o) w.shop
      (λ t m.
        both-Good i placing (Orders.baking o) w.shop t w.kitchen (placing-Moves i w.kitchen e) m.1
          refl (omega (arith, ap length m.0, length-append w.shop.oven_queue (o ∷ []), g.queued)) g)
      (cook_step-MovesBy i id (holding o) w.shop f)
work_at-GoodAfter i id placed (Orders.baking o) w e f a g =
    semaphore-Good i placed (Orders.baking o) w.shop w.kitchen e f refl (λ n. refl) g
work_at-GoodAfter i id baking (Orders.baking o) w e f a g =
    semaphore-Good i baking (Orders.baking o) w.shop w.kitchen e f refl (λ n. refl) g
work_at-GoodAfter i id removing (Orders.baking o) w e f a g =
    with_kitchen-MovesBy (turn i w.kitchen) (cook_step i id w.shop) i (Orders.baking o) w.shop
      (λ t m.
        both-Good i removing (baked o) w.shop t w.kitchen (removing-Moves i w.kitchen e) m.1 refl
          (omega (arith, ap length m.0, length-drop 1 w.shop.oven_queue, g.queued)) g)
      (cook_step-MovesBy i id (Orders.baking o) w.shop f)
work_at-GoodAfter i id removed (baked o) w e f a g =
    semaphore-Good i removed (baked o) w.shop w.kitchen e f refl (λ n. refl) g
work_at-GoodAfter i id leaving (baked o) w e f a g =
    semaphore-Good i leaving (baked o) w.shop w.kitchen e f refl (λ n. refl) g
work_at-GoodAfter i id _ _ w e f a g = ground (arith, a)
