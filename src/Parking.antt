-- ===== src/Parking.antt =====
-- Homework3/hw3.c: the car owner and the attendant of a parking lot, as interleaved steps.
-- The code is written twice, for automobiles and for pickups; a `Bay` is one copy of its variables.
pub mod Invariant
pub mod Rounds
mod Tests
use system_programming_cse.Common.{
  ◌≡◌, ℕ, suc, ◌+◌, ◌-◌, Bool, true, false, Option, none, some, List, [], ◌∷◌, ltb, if◌then◌else◌,
}

-- The characters 'a' and 'p' that `simulateParkingLot` hands to its threads.
pub data Vehicle : Type 0 where
  automobile pickup : Vehicle

-- `free` is mFree_x, `arrivals` the semaphore newX, `charge` the semaphore inChargeforX, and
-- `locked` says that a thread holds the mutex x_lock.
pub record Bay : Type 0 where
  pub free : ℕ
  pub arrivals : ℕ
  pub charge : ℕ
  pub locked : Bool

-- Where `carOwner` stands, a synchronising call or an update of the counter at a time.
pub data Owner : Type 0 where
  arriving checking parking posting waiting parked full left : Owner

-- Where `carAttendant` stands.
pub data Attendant : Type 0 where
  idle called counting unlocking reporting finished : Attendant

acquire : Bay → Option Bay
acquire b = if b.locked then none else some (record b { locked = true })

release : Bay → Bay
release b = record b { locked = false }

-- `none` is a thread that is blocked, or one that has returned.
pub owner_step : Bay → Owner → Option (Bay × Owner)
unfolding acquire release
owner_step b arriving = elim (acquire b) [ none ↦ none | some c ↦ some (c, checking) ]
owner_step b checking =
    if ltb 0 b.free then some (record b { free = b.free - 1 }, parking) else some (b, full)
owner_step b parking = some (record b { arrivals = b.arrivals + 1 }, posting)
owner_step b posting = some (release b, waiting)
owner_step b waiting =
    if ltb 0 b.charge then some (record b { charge = b.charge - 1 }, parked) else none
owner_step b full = some (release b, left)
owner_step b parked = none
owner_step b left = none

pub attendant_step : Bay → Attendant → Option (Bay × Attendant)
unfolding acquire release
attendant_step b idle =
    if ltb 0 b.arrivals then some (record b { arrivals = b.arrivals - 1 }, called) else none
attendant_step b called = elim (acquire b) [ none ↦ none | some c ↦ some (c, counting) ]
attendant_step b counting = some (record b { free = b.free + 1 }, unlocking)
attendant_step b unlocking = some (release b, reporting)
attendant_step b reporting = some (record b { charge = b.charge + 1 }, finished)
attendant_step b finished = none

-- The two threads of one pass of the loop in `simulateParkingLot`.
pub record Round : Type 0 where
  pub bay : Bay
  pub owner : Owner
  pub attendant : Attendant

abbrev pub start : Bay → Round
start b = record { bay = b; owner = arriving; attendant = idle }

-- Either thread may run next.
pub data Turn : Type 0 where
  owner_turn attendant_turn : Turn

pub step : Turn → Round → Option Round
unfolding owner_step attendant_step
step owner_turn r = elim (owner_step r.bay r.owner) [
  | none ↦ none
  | some (b, o) ↦ some (record r { bay = b; owner = o })
]
step attendant_turn r = elim (attendant_step r.bay r.attendant) [
  | none ↦ none
  | some (b, a) ↦ some (record r { bay = b; attendant = a })
]

-- The states that an interleaving of the two threads leads to.
pub data Reach (r : Round) : Round → Type 0 where
  here : Reach r r
  next : {s u : Round} → Reach r s → (t : Turn) → step t s ≡ some u → Reach r u

abbrev pub IsReturned : Owner → Type 0
IsReturned parked = Unit
IsReturned left = Unit
IsReturned _ = ⊥

-- Both `pthread_join` calls return.
abbrev pub IsJoined : Round → Type 0
IsJoined r = IsReturned r.owner × (r.attendant ≡ finished)
