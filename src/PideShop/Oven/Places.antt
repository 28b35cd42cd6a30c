-- ===== src/PideShop/Oven/Places.antt =====
-- How a turn of a cook of Final/server.c changes its place and the queue of the oven.
use system_programming_cse.Common.{
  ℕ, zero, suc, List, [], ◌∷◌, ◌+◌, ◌-◌, ◌≡◌, refl, ◌⊎◌, inl, inr, Bool-cases, some, ltb, get_elem?,
  set,
}
use system_programming_cse.PideShop.Oven.{
  Cook, preparing, claiming, placing, placed, baking, removing, removed, leaving, cook_step,
  Kitchen, moved, turn_of, turn, all_preparing, kitchen,
}

-- The place behind a place, and the size of the queue behind that step.
abbrev pub next_place : Cook → Cook
next_place preparing = claiming
next_place claiming = placing
next_place placing = placed
next_place placed = baking
next_place baking = removing
next_place removing = removed
next_place removed = leaving
next_place leaving = preparing

abbrev pub next_size : Cook → ℕ → ℕ
next_size placing n = n + 1
next_size removing n = n - 1
next_size _ n = n

abbrev pub Moves : ℕ → Cook → Kitchen → Kitchen → Type 0
Moves i p k l =
    (l.cooks ≡ set k.cooks i (next_place p)) × (l.oven.queue_size ≡ next_size p k.oven.queue_size)

moved-Moves :
    (i : ℕ) (p : Cook) (k : Kitchen)
    → (moved k i (cook_step k.oven p) ≡ k) ⊎ Moves i p k (moved k i (cook_step k.oven p))
unfolding cook_step moved
moved-Moves i preparing k = elim (Bool-cases (ltb 0 k.oven.capacity)) [
  | inl e ↦ rw e (inr (refl, refl))
  | inr e ↦ rw e (inl refl)
]
moved-Moves i claiming k = elim (Bool-cases (ltb 0 k.oven.tools)) [
  | inl e ↦ rw e (inr (refl, refl))
  | inr e ↦ rw e (inl refl)
]
moved-Moves i placing k = inr (refl, refl)
moved-Moves i placed k = inr (refl, refl)
moved-Moves i baking k = elim (Bool-cases (ltb 0 k.oven.tools)) [
  | inl e ↦ rw e (inr (refl, refl))
  | inr e ↦ rw e (inl refl)
]
moved-Moves i removing k = inr (refl, refl)
moved-Moves i removed k = inr (refl, refl)
moved-Moves i leaving k = inr (refl, refl)

-- A turn leaves the kitchen as it is, or takes the cook to its next place.
pub turn-Moves :
    (i : ℕ) (p : Cook) (k : Kitchen)
    → get_elem? k.cooks i ≡ some p
    → (turn i k ≡ k) ⊎ Moves i p k (turn i k)
unfolding turn turn_of
turn-Moves i p k e = rw (e, turn, turn_of) (moved-Moves i p k)

-- Nothing makes a cook wait before it puts its order into the queue or takes one out.
pub placing-Moves :
    (i : ℕ) (k : Kitchen) → get_elem? k.cooks i ≡ some placing → Moves i placing k (turn i k)
unfolding turn turn_of moved cook_step
placing-Moves i k e = rw (e, turn, turn_of) (refl, refl)

pub removing-Moves :
    (i : ℕ) (k : Kitchen) → get_elem? k.cooks i ≡ some removing → Moves i removing k (turn i k)
unfolding turn turn_of moved cook_step
removing-Moves i k e = rw (e, turn, turn_of) (refl, refl)

-- The cooks at the start.
abbrev pub ArePreparing : ℕ → List Cook → Type 0
ArePreparing zero [] = Unit {0}
ArePreparing (suc n) (preparing ∷ cs) = ArePreparing n cs
ArePreparing _ _ = ⊥

all_preparing-ArePreparing : (n : ℕ) → ArePreparing n (all_preparing n)
unfolding all_preparing
all_preparing-ArePreparing zero = tt
all_preparing-ArePreparing (suc n) = all_preparing-ArePreparing n

pub kitchen-ArePreparing : (n : ℕ) → ArePreparing n (kitchen n).cooks
unfolding kitchen
kitchen-ArePreparing n = all_preparing-ArePreparing n
