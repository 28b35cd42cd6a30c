-- ===== src/Parking/Rounds.antt =====
-- A round ends, and leaves the lot as it was; so does the loop of `simulateParkingLot`.
use system_programming_cse.Common.{
  ℕ, ◌+◌, ◌<◌, ◌≡◌, refl, ap, subst, ◌⊎◌, inl, inr, Option-cases, none, some, List, [], ◌∷◌, arith,
}
use system_programming_cse.Parking.{
  Vehicle, automobile, pickup, Bay, Owner, arriving, checking, parking, posting, waiting, parked,
  full, left, Attendant, idle, called, counting, unlocking, reporting, finished, Round, start, Turn,
  owner_turn, attendant_turn, owner_step, attendant_step, step, Reach, IsJoined,
}
use system_programming_cse.Parking.Invariant.{Inv, opened, Reach-Inv}

-- The steps that a thread still has before it, at most.
abbrev pub owner_rest : Owner → ℕ
owner_rest arriving = 5
owner_rest checking = 4
owner_rest parking = 3
owner_rest posting = 2
owner_rest waiting = 1
owner_rest parked = 0
owner_rest full = 1
owner_rest left = 0

abbrev pub attendant_rest : Attendant → ℕ
attendant_rest idle = 5
attendant_rest called = 4
attendant_rest counting = 3
attendant_rest unlocking = 2
attendant_rest reporting = 1
attendant_rest finished = 0

abbrev pub rest : Round → ℕ
rest r = owner_rest r.owner + attendant_rest r.attendant

owner_step-rest :
    (b : Bay) (o : Owner) {c : Bay} {p : Owner}
    → owner_step b o ≡ some (c, p)
    → owner_rest p < owner_rest o
unfolding owner_step
owner_step-rest b arriving e = ground arith
owner_step-rest b o e = ground arith

attendant_step-rest :
    (b : Bay) (a : Attendant) {c : Bay} {q : Attendant}
    → attendant_step b a ≡ some (c, q)
    → attendant_rest q < attendant_rest a
unfolding attendant_step
attendant_step-rest b idle e = ground arith
attendant_step-rest b a e = ground arith

-- Every step of either thread lowers the number of steps that are left: a round is finite.
pub step-rest : (t : Turn) (r : Round) {u : Round} → step t r ≡ some u → rest u < rest r
unfolding step
step-rest owner_turn r e = ground (arith, owner_step-rest r.bay r.owner)
step-rest attendant_turn r e = ground (arith, attendant_step-rest r.bay r.attendant)

blocked_owner :
    {n : ℕ} (r : Round)
    → 0 < n
    → Inv n r
    → step owner_turn r ≡ none
    → step attendant_turn r ≡ none
    → IsJoined r
unfolding step owner_step attendant_step
blocked_owner r room v p q = ground arith

-- No deadlock: in a round that starts with a free spot, either both threads have returned or one of
-- them can take a step.
pub round_progress :
    {n : ℕ} {r : Round}
    → 0 < n
    → Reach (start (opened n)) r
    → IsJoined r ⊎ ((t : Turn) × (u : Round) × (step t r ≡ some u))
round_progress {n} {r} room h = elim (Option-cases (step owner_turn r)) [
  | inr (u, e) ↦ inr (owner_turn, u, e)
  | inl p ↦ elim (Option-cases (step attendant_turn r)) [
    | inr (u, e) ↦ inr (attendant_turn, u, e)
    | inl q ↦ inl (blocked_owner r room (Reach-Inv room h) p q)
  ]
]

-- When both threads have returned the owner has parked, and the bay is as it was at the start.
pub round_restores :
    {n : ℕ} {r : Round}
    → 0 < n
    → Reach (start (opened n)) r
    → IsJoined r
    → (r.owner ≡ parked) × (r.bay ≡ opened n)
round_restores {r} room h j = joined r (Reach-Inv room h) j
  where
    joined : {n : ℕ} (r : Round) → Inv n r → IsJoined r → (r.owner ≡ parked) × (r.bay ≡ opened n)
    joined r v j = ground arith

-- The variables of hw3.c.
pub record Lot : Type 0 where
  pub automobiles : Bay
  pub pickups : Bay

abbrev pub bay_of : Vehicle → Lot → Bay
bay_of automobile l = l.automobiles
bay_of pickup l = l.pickups

abbrev pub with_bay : Vehicle → Bay → Lot → Lot
with_bay automobile b l = record l { automobiles = b }
with_bay pickup b l = record l { pickups = b }

-- `simulateParkingLot`: the list holds the vehicles that `rand` draws until `stop` is set, and each
-- round runs until both of its threads are joined.
pub data Simulates : Lot → List Vehicle → Lot → Type 0 where
  stopped : {l : Lot} → Simulates l [] l
  drawn :
      {l m : Lot} {r : Round} {vs : List Vehicle} (v : Vehicle)
      → Reach (start (bay_of v l)) r
      → IsJoined r
      → Simulates (with_bay v r.bay l) vs m
      → Simulates l (v ∷ vs) m

-- The counters and semaphores with which `main` starts the loop.
abbrev pub main_lot : Lot
main_lot = record { automobiles = opened 8; pickups = opened 4 }

-- A round in a lot whose variables are those of `main` leaves them so.
round_kept :
    (v : Vehicle) (l : Lot) {r : Round}
    → l ≡ main_lot
    → Reach (start (bay_of v l)) r
    → IsJoined r
    → with_bay v r.bay l ≡ main_lot
round_kept automobile l {r} e h j =
    let e' : l.automobiles ≡ opened 8 = ap (λ (k : Lot). k.automobiles) e in
    let q = round_restores {n = 8} (omega arith) (subst (λ b. Reach (start b) r) e' h) j in
    ground arith
round_kept pickup l {r} e h j =
    let e' : l.pickups ≡ opened 4 = ap (λ (k : Lot). k.pickups) e in
    let q = round_restores {n = 4} (omega arith) (subst (λ b. Reach (start b) r) e' h) j in
    ground arith

Simulates-main : {l m : Lot} {vs : List Vehicle} → Simulates l vs m → l ≡ main_lot → m ≡ main_lot
Simulates-main stopped e = e
Simulates-main (drawn {l} v h j s) e = Simulates-main s (round_kept v l e h j)

-- However many vehicles come, the loop leaves all counters and semaphores as `main` set them: the
-- lot never fills up.
pub simulate_restores : {m : Lot} {vs : List Vehicle} → Simulates main_lot vs m → m ≡ main_lot
simulate_restores s = Simulates-main s refl
