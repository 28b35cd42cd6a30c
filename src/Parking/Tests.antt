-- ===== src/Parking/Tests.antt =====
-- The theorems on hw3.c at one automobile, which the two threads bring to its end.
use system_programming_cse.Common.{◌≡◌, refl, ◌⊎◌, some, [], ◌∷◌, arith}
use system_programming_cse.Parking.{
  automobile, parked, finished, Round, start, Turn, owner_turn, attendant_turn, step, Reach, here,
  next, IsJoined,
}
use system_programming_cse.Parking.Invariant.{Inv, opened, Reach-Inv}
use system_programming_cse.Parking.Rounds.{
  round_progress, round_restores, stopped, drawn, main_lot, simulate_restores,
}

abbrev parked_round : Round
parked_round = record { bay = opened 8; owner = parked; attendant = finished }

-- The owner parks and waits, the attendant serves it, and the owner returns.
one_round : Reach (start (opened 8)) parked_round
unfolding step
one_round =
    next
      (next
        (next
          (next
            (next
              (next
                (next (next (next (next here owner_turn refl) owner_turn refl) owner_turn refl)
                  owner_turn refl)
                attendant_turn refl)
              attendant_turn refl)
            attendant_turn refl)
          attendant_turn refl)
        attendant_turn refl)
      owner_turn refl

Reach-Inv_example : Inv 8 parked_round
Reach-Inv_example = Reach-Inv (omega arith) one_round

round_progress_example :
    IsJoined parked_round ⊎ ((t : Turn) × (u : Round) × (step t parked_round ≡ some u))
round_progress_example = round_progress (omega arith) one_round

round_restores_example : (parked_round.owner ≡ parked) × (parked_round.bay ≡ opened 8)
round_restores_example = round_restores (omega arith) one_round (tt, refl)

simulate_restores_example : main_lot ≡ main_lot
simulate_restores_example =
    simulate_restores {vs = automobile ∷ automobile ∷ []}
      (drawn automobile one_round (tt, refl) (drawn automobile one_round (tt, refl) stopped))
