-- ===== src/Parking/Invariant.antt =====
-- What every interleaving of an owner and an attendant keeps.
use system_programming_cse.Common.{ℕ, ◌+◌, ◌<◌, ◌≡◌, Bool, true, false, ◌&&◌, ◌||◌, some, arith}
use system_programming_cse.Parking.{
  Bay, Owner, arriving, checking, parking, posting, waiting, parked, full, left, Attendant, idle,
  counting, unlocking, reporting, finished, Round, start, Turn, owner_turn, attendant_turn,
  owner_step, attendant_step, step, Reach, here, next,
}

-- The owner has taken a spot off the counter.
abbrev pub took : Owner → ℕ
took parking = 1
took posting = 1
took waiting = 1
took parked = 1
took _ = 0

abbrev pub posted : Owner → ℕ
posted posting = 1
posted waiting = 1
posted parked = 1
posted _ = 0

abbrev pub served : Owner → ℕ
served parked = 1
served _ = 0

abbrev pub owner_holds : Owner → Bool
owner_holds checking = true
owner_holds parking = true
owner_holds posting = true
owner_holds full = true
owner_holds _ = false

abbrev pub turned_away : Owner → Bool
turned_away full = true
turned_away left = true
turned_away _ = false

abbrev pub came : Attendant → ℕ
came idle = 0
came _ = 1

-- The attendant has put a spot back on the counter.
abbrev pub freed : Attendant → ℕ
freed unlocking = 1
freed reporting = 1
freed finished = 1
freed _ = 0

abbrev pub reported : Attendant → ℕ
reported finished = 1
reported _ = 0

abbrev pub attendant_holds : Attendant → Bool
attendant_holds counting = true
attendant_holds unlocking = true
attendant_holds _ = false

pub record Inv (capacity : ℕ) (r : Round) : Type 0 where
  pub spots : r.bay.free + took r.owner ≡ capacity + freed r.attendant
  pub arrivals : r.bay.arrivals + came r.attendant ≡ posted r.owner
  pub charge : r.bay.charge + served r.owner ≡ reported r.attendant
  pub mutex : r.bay.locked ≡ (owner_holds r.owner || attendant_holds r.attendant)
  pub apart : (owner_holds r.owner && attendant_holds r.attendant) ≡ false
  pub stays : turned_away r.owner ≡ false

abbrev pub opened : ℕ → Bay
opened n = record { free = n; arrivals = 0; charge = 0; locked = false }

module _ {n : ℕ} (room : 0 < n) where
  owner-Inv :
      (b : Bay) (o : Owner) (a : Attendant) {c : Bay} {p : Owner}
      → owner_step b o ≡ some (c, p)
      → Inv n (record { bay = b; owner = o; attendant = a })
      → Inv n (record { bay = c; owner = p; attendant = a })
  unfolding owner_step
  owner-Inv b arriving a e v = ground arith
  owner-Inv b o a e v = ground arith

  attendant-Inv :
      (b : Bay) (o : Owner) (a : Attendant) {c : Bay} {q : Attendant}
      → attendant_step b a ≡ some (c, q)
      → Inv n (record { bay = b; owner = o; attendant = a })
      → Inv n (record { bay = c; owner = o; attendant = q })
  unfolding attendant_step
  attendant-Inv b o idle e v = ground arith
  attendant-Inv b o a e v = ground arith

  step-Inv : (t : Turn) (r : Round) {u : Round} → step t r ≡ some u → Inv n r → Inv n u
  unfolding step
  step-Inv owner_turn r e v = ground (arith, owner-Inv r.bay r.owner r.attendant)
  step-Inv attendant_turn r e v = ground (arith, attendant-Inv r.bay r.owner r.attendant)

  -- In every state of a round that starts with a free spot, the counter and the semaphores tell how
  -- far the two threads have come, one thread at most holds the mutex, and the owner never leaves.
  pub Reach-Inv : {r : Round} → Reach (start (opened n)) r → Inv n r
  Reach-Inv here = ground arith
  Reach-Inv (next {s} r t e) = step-Inv t s e (Reach-Inv r)
