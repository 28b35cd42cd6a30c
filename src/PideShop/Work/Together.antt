-- ===== src/PideShop/Work/Together.antt =====
-- The invariant of the threads of Final/server.c and the semaphores of the oven, in every run.
use system_programming_cse.Common.{
  ℕ, zero, suc, ◌*◌, ◌≡◌, refl, subst, inl, inr, Option-cases, some, List, [], ◌∷◌, arith,
  get_elem?,
}
use system_programming_cse.PideShop.Oven.{
  max_oven_capacity, Kitchen, preparing, placing, removing, turn, turns, kitchen,
}
use system_programming_cse.PideShop.Oven
use system_programming_cse.PideShop.Oven.Capacity.{kitchen-Inv}
use system_programming_cse.PideShop.Oven.Places.{ArePreparing, kitchen-ArePreparing}
use system_programming_cse.PideShop.Orders.{
  Cook, free, Event, client, manager, cook, courier, step, open_shop,
}
use system_programming_cse.PideShop.Orders.Cooks.{
  client-SparesOven, manager-SparesOven, courier-SparesOven, AreFree, open_shop-AreFree,
}
use system_programming_cse.PideShop.Work.{
  Work, Progress, waits, undefined, goes, with_places, work_step, run_work, open_work,
}
use system_programming_cse.PideShop.Work.Agreement.{
  Agree, Agree-get, Good, GoodAfter, with_kitchen-SparesOven, work_at-GoodAfter,
}

work_step-GoodAfter : (e : Event) (w : Work) → Good w.shop w.kitchen → GoodAfter (work_step e w)
unfolding work_step with_places
work_step-GoodAfter (client sock o) w g =
    with_kitchen-SparesOven w.kitchen (step (client sock o) w.shop) w.shop g
      (client-SparesOven sock o w.shop)
work_step-GoodAfter manager w g =
    with_kitchen-SparesOven w.kitchen (step manager w.shop) w.shop g (manager-SparesOven w.shop)
work_step-GoodAfter (courier i id timed_out) w g =
    with_kitchen-SparesOven w.kitchen (step (courier i id timed_out) w.shop) w.shop g
      (courier-SparesOven i id timed_out w.shop)
work_step-GoodAfter (cook i id) w g = elim (Option-cases (get_elem? w.kitchen.cooks i)) [
  | inl e ↦ rw (e, with_places) tt
  | inr (p, e) ↦ elim (Option-cases (get_elem? w.shop.cooks i)) [
    | inl f ↦ rw (e, f, with_places) tt
    | inr (c, f) ↦
        rw (e, f, with_places)
          (work_at-GoodAfter i id p c w e f
            (Agree-get w.kitchen.cooks w.shop.cooks i p c g.agree e f) g)
  ]
]

pub run_work-Good :
    (es : List Event) (w v : Work)
    → Good w.shop w.kitchen
    → run_work es w ≡ some v
    → Good v.shop v.kitchen
unfolding run_work
run_work-Good [] w v g h = let same : w ≡ v = cc in subst (λ x. Good x.shop x.kitchen) same g
run_work-Good (e ∷ es) w v g h =
    go (λ u k q. run_work-Good es u v k q) (work_step e w) refl (work_step-GoodAfter e w g)
  where
    go :
        ((u : Work) → Good u.shop u.kitchen → run_work es u ≡ some v → Good v.shop v.kitchen)
        → (x : Progress) → work_step e w ≡ x
        → GoodAfter x
        → Good v.shop v.kitchen
    go rest waits q k = rest w g (ground (arith, q, h))
    go rest undefined q k = ground (arith, q, h)
    go rest (goes u) q k = rest u k (ground (arith, q, h))

start-Agree :
    (n : ℕ) (ps : List Oven.Cook) (cs : List Cook) → ArePreparing n ps → AreFree n cs → Agree ps cs
start-Agree zero [] [] p f = tt
start-Agree (suc n) (preparing ∷ ps) (free ∷ cs) p f = (refl, start-Agree n ps cs p f)
start-Agree zero [] (c ∷ cs) p f = absurd f
start-Agree zero (q ∷ ps) cs p f = absurd p
start-Agree (suc n) [] cs p f = absurd p
start-Agree (suc n) (preparing ∷ ps) [] p f = absurd f
start-Agree (suc n) (preparing ∷ ps) (c ∷ cs) p f = absurd f
start-Agree (suc n) (q ∷ ps) cs p f = absurd p

pub open_work-Good :
    (cooks couriers : ℕ) → Good (open_work cooks couriers).shop (open_work cooks couriers).kitchen
unfolding open_work
open_work-Good cooks couriers =
    let (are_free, empty) = open_shop-AreFree cooks couriers in
    record {
      inv = kitchen-Inv (2 * cooks);
      agree =
          start-Agree (2 * cooks) (kitchen (2 * cooks)).cooks (open_shop cooks couriers).cooks
            (kitchen-ArePreparing (2 * cooks)) are_free;
      queued = omega (arith, empty);
    }
