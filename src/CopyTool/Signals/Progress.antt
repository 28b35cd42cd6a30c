-- ===== src/CopyTool/Signals/Progress.antt =====
-- With the signals of hw5.c no thread sleeps for ever.
use system_programming_cse.Common.{
  ℕ, zero, suc, ◌<◌, ◌≡◌, ◌≢◌, refl, ◌∙◌, ap, ◌⊎◌, inl, inr, Bool, true, false, some, List, [], ◌∷◌,
  arith, length, get_elem?, Bool-cases, Option-cases,
}
use system_programming_cse.CopyTool.Walk.{Action}
use system_programming_cse.CopyTool.Barrier.{outside}
use system_programming_cse.CopyTool.Barrier.Order.{AllPassed, arrive-or_passed}
use system_programming_cse.CopyTool.Threads.{
  apply, Worker, looking, copying, finished, look, System, AllFinished,
}
use system_programming_cse.CopyTool.Threads
use system_programming_cse.CopyTool.Threads.Invariant.{Inv}
use system_programming_cse.CopyTool.Threads.Results.{look-some, Busy-or_finished}
use system_programming_cse.CopyTool.Signals.{
  wakes, wakes_nobody, is_signalled, Signals, Threaded, Step, manager_acts, manager_waits,
  manager_ends, manager_arrives, worker_looks, worker_waits, worker_copies, worker_closes,
  worker_arrives, Reach, here, next,
}
use system_programming_cse.CopyTool.Signals.Sleepers.{Rested}
use system_programming_cse.CopyTool.Signals.Kept.{Step-Rested}

-- Without the sleepers and the barrier, a run is one of CopyTool.Threads.
pub project : {s t : Threaded} → Reach s t → Threads.Reach s.system t.system
project here = Threads.Reach.here
project (next r (manager_acts m e f g)) = Threads.Reach.next (project r) (Threads.manage e f)
project (next r (manager_waits m e f)) = project r
project (next r (manager_ends m e f)) = Threads.Reach.next (project r) (Threads.manager_ends e f)
project (next r (manager_arrives e f)) = project r
project (next r (worker_looks i e f g)) =
    Threads.Reach.next (project r) (Threads.worker_looks i f g)
project (next r (worker_waits i e f g)) = project r
project (next r (worker_copies i n e f)) =
    Threads.Reach.next (project r) (Threads.worker_copies i n e f)
project (next r (worker_closes i e)) = Threads.Reach.next (project r) (Threads.worker_closes i e)
project (next r (worker_arrives i e f)) = project r

-- A cell of a list that is long enough.
get_elem?-below {ℓ} :
    {A : Type ℓ} (xs : List A) (i : ℕ) → i < length xs → (x : A) × (get_elem? xs i ≡ some x)
get_elem?-below [] i h = elim h [ ]
get_elem?-below (x ∷ xs) zero h = (x, refl)
get_elem?-below (x ∷ xs) (suc i) h = get_elem?-below xs i (omega (arith, h))

below-get_elem? {ℓ} :
    {A : Type ℓ} (xs : List A) (i : ℕ) {x : A} → get_elem? xs i ≡ some x → i < length xs
below-get_elem? [] i e = ground (arith, e)
below-get_elem? (x ∷ xs) zero e = omega arith
below-get_elem? (x ∷ xs) (suc i) e = omega (arith, below-get_elem? xs i e)

AllFinished-get_elem? :
    (ws : List Worker) (i : ℕ) → AllFinished ws → i < length ws → get_elem? ws i ≡ some finished
AllFinished-get_elem? [] i all h = elim h [ ]
AllFinished-get_elem? (w ∷ ws) zero (e, all) h = ap some e
AllFinished-get_elem? (w ∷ ws) (suc i) (e, all) h =
    AllFinished-get_elem? ws i all (omega (arith, h))

asleep-cases :
    (ss : List Bool)
    → ((i : ℕ) × (get_elem? ss i ≡ some true)) ⊎ ((i : ℕ) → get_elem? ss i ≢ some true)
asleep-cases [] = inr (λ i e. ground (arith, e))
asleep-cases (true ∷ ss) = inl (0, refl)
asleep-cases (false ∷ ss) = elim (asleep-cases ss) [
  | inl (i, e) ↦ inl (suc i, e)
  | inr n ↦ inr (λ i. go n i)
]
  where
    go : ((i : ℕ) → get_elem? ss i ≢ some true) → (i : ℕ) → get_elem? (false ∷ ss) i ≢ some true
    go n zero e = ground (arith, e)
    go n (suc i) e = n i e

-- A signal can always be given.
some_signal : (q : Bool) (ss : List Bool) → (ts : List Bool) × Signals q ss ts
some_signal false ss = (ss, refl)
some_signal true ss = elim (asleep-cases ss) [
  | inl (i, e) ↦ (_, wakes i e)
  | inr n ↦ (_, wakes_nobody n)
]

module _ {plan : List Action} {s : Threaded} (v : Rested s) (inv : Inv plan s.system) where
  -- A worker that is awake and has not left its loop can move once there is a pair or the manager has ended.
  awake-Step :
      (i : ℕ) (w : Worker)
      → get_elem? s.sleepers i ≡ some false
      → get_elem? s.system.workers i ≡ some w
      → w ≢ finished
      → (s.system.buffer.is_done ≡ true) ⊎ (s.system.buffer.count ≢ 0)
      → (t : Threaded) × Step s t
  awake-Step i looking e f n h =
      let ((w, b), g) = look-some s.system.buffer h in (_, worker_looks i e f g)
  awake-Step i (copying p) e f n h = (_, worker_closes i f)
  awake-Step i finished e f n h = absurd (n refl)

  -- While the manager sleeps, a worker that is awake can take a pair.
  manager_sleeps-Step : s.manager_sleeps ≡ true → (t : Threaded) × Step s t
  manager_sleeps-Step m = elim (v.served going) [
    | inl z ↦ absurd (omega (arith, z, full, inv.roomy))
    | inr (i, e) ↦
        let (w, f) =
          get_elem?-below s.system.workers i
            (omega (arith, v.one_each, below-get_elem? s.sleepers i e)) in
        awake-Step i w e f (λ q. n (inv.ended (inv.over i (f ∙ ap some q)).0))
          (inr (λ z. omega (arith, z, full, inv.roomy)))
  ]
    where
      full : s.system.buffer.count ≡ s.system.buffer.max_size
      full = (v.full m).0

      n : s.system.todo ≢ []
      n = (v.full m).1

      going : s.system.buffer.is_done ≡ false
      going = elim (Bool-cases s.system.buffer.is_done) [
        | inl d ↦ absurd (n (inv.ended d))
        | inr d ↦ d
      ]

  manager-Step :
      (a : Action) (rest : List Action) → s.system.todo ≡ a ∷ rest → (t : Threaded) × Step s t
  manager-Step a rest e = elim (Bool-cases s.manager_sleeps) [
    | inl m ↦ manager_sleeps-Step m
    | inr m ↦ elim (Option-cases (apply a s.system.buffer)) [
      | inl f ↦ (_, manager_waits m e f)
      | inr (b, f) ↦
          let (ts, g) = some_signal (is_signalled a) s.sleepers in (_, manager_acts m e f g)
    ]
  ]

  -- When the manager has ended nobody sleeps.
  nobody_sleeps :
      (i : ℕ)
      → s.system.buffer.is_done ≡ true
      → i < length s.system.workers
      → get_elem? s.sleepers i ≡ some false
  nobody_sleeps i d h = go (get_elem?-below s.sleepers i (omega (arith, v.one_each, h)))
    where
      go : (b : Bool) × (get_elem? s.sleepers i ≡ some b) → get_elem? s.sleepers i ≡ some false
      go (true, e) = absurd (ground (arith, d, (v.sleeping i e).1))
      go (false, e) = e

  -- All threads that have left their loops come to the barrier, and the last one wakes the others.
  barrier-Step :
      s.system.buffer.is_done ≡ true
      → AllFinished s.system.workers
      → AllPassed s.barrier.threads ⊎ ((t : Threaded) × Step s t)
  barrier-Step d all = elim (arrive-or_passed s.barrier v.gate) [
    | inr passed ↦ inl passed
    | inl (i, e) ↦ inr (arrive i e)
  ]
    where
      arrive : (i : ℕ) → get_elem? s.barrier.threads i ≡ some outside → (t : Threaded) × Step s t
      arrive zero e = (_, manager_arrives d e)
      arrive (suc i) e = (
        _,
        worker_arrives i
            (AllFinished-get_elem? s.system.workers i all
              (omega (arith, v.places, below-get_elem? s.barrier.threads (suc i) e)))
            e,
      )

  done-Step :
      s.system.buffer.is_done ≡ true
      → (AllFinished s.system.workers × AllPassed s.barrier.threads) ⊎ ((t : Threaded) × Step s t)
  done-Step d = elim (Busy-or_finished s.system.workers) [
    | inl all ↦ elim (barrier-Step d all) [ inl passed ↦ inl (all, passed) | inr step ↦ inr step ]
    | inr (i, inl e) ↦ inr (
        awake-Step i looking (nobody_sleeps i d (below-get_elem? s.system.workers i e)) e
          (λ q. ground (arith, q)) (inl d))
    | inr (i, inr (p, e)) ↦ inr (_, worker_closes i e)
  ]

  -- Some thread can go on, or all have passed the barrier.
  pub next-Step :
      (AllFinished s.system.workers × AllPassed s.barrier.threads) ⊎ ((t : Threaded) × Step s t)
  next-Step = go s.system.todo refl
    where
      go :
          (todo : List Action)
          → s.system.todo ≡ todo
          → (AllFinished s.system.workers × AllPassed s.barrier.threads)
            ⊎ ((t : Threaded) × Step s t)
      go (a ∷ rest) e = inr (manager-Step a rest e)
      go [] e = elim (Bool-cases s.system.buffer.is_done) [
        | inl d ↦ done-Step d
        | inr d ↦ elim (Bool-cases s.manager_sleeps) [
          | inl m ↦ absurd ((v.full m).1 e)
          | inr m ↦ inr (_, manager_ends m e d)
        ]
      ]

  -- When all workers have left their loops the manager has nothing left to do.
  pub todo_done : AllFinished s.system.workers → s.system.todo ≡ []
  todo_done all =
      inv.ended
        (inv.over 0 (
          AllFinished-get_elem? s.system.workers 0 all
            (omega (arith, v.one_each, v.some_worker)))).0

pub Reach-Rested : {s t : Threaded} → Reach s t → Rested s → Rested t
Reach-Rested here v = v
Reach-Rested (next r st) v = Step-Rested st (Reach-Rested r v)
