-- ===== src/CopyTool/Signals/Sleepers.antt =====
-- Who sleeps while the threads of hw5.c go on: what every step of CopyTool.Signals keeps.
use system_programming_cse.Common.{
  ℕ, zero, suc, ◌+◌, ◌<◌, ◌≡◌, ◌≢◌, refl, sym, ◌∙◌, ap, ◌⊎◌, inr, Bool, true, false, none, some,
  List, [], ◌∷◌, arith, length, length-set, get_elem?, set, ℕ_discrete,
}
use system_programming_cse.CopyTool.Buffer.{Buffer, add_pair, take_pair}
use system_programming_cse.CopyTool.Walk.{Action}
use system_programming_cse.CopyTool.Barrier.Order.{Inv, opening-Inv, length-opening}
use system_programming_cse.CopyTool.Threads.{
  apply, Worker, looking, copying, finished, look, System,
}
use system_programming_cse.CopyTool.Signals.{
  Signal, wakes, wakes_nobody, broadcast, is_signalled, signal_not_full, Threaded, awake, threads,
}

-- A thread sleeps only while it must; while the manager goes on, the buffer is empty or a worker is awake.
pub record Rested (s : Threaded) : Type 0 where
  pub one_each : length s.sleepers ≡ length s.system.workers
  pub some_worker : 0 < length s.sleepers
  pub full :
      s.manager_sleeps ≡ true
      → (s.system.buffer.count ≡ s.system.buffer.max_size) × (s.system.todo ≢ [])
  pub sleeping :
      (i : ℕ)
      → get_elem? s.sleepers i ≡ some true
      → (get_elem? s.system.workers i ≡ some looking) × (s.system.buffer.is_done ≡ false)
  pub served :
      s.system.buffer.is_done ≡ false
      → (s.system.buffer.count ≡ 0) ⊎ ((i : ℕ) × (get_elem? s.sleepers i ≡ some false))
  pub gate : Inv s.barrier
  pub places : length s.barrier.threads ≡ suc (length s.system.workers)

-- What a list holds behind a write.
pub get_elem?-set_same {ℓ} :
    {A : Type ℓ} (xs : List A) (i : ℕ) (v : A) {x : A}
    → get_elem? xs i ≡ some x
    → get_elem? (set xs i v) i ≡ some v
get_elem?-set_same [] i v e = ground (arith, e)
get_elem?-set_same (y ∷ ys) zero v e = refl
get_elem?-set_same (y ∷ ys) (suc i) v e = get_elem?-set_same ys i v e

pub get_elem?-set_other {ℓ} :
    {A : Type ℓ} (xs : List A) (i j : ℕ) (v : A) → i ≢ j → get_elem? (set xs i v) j ≡ get_elem? xs j
get_elem?-set_other [] i j v n = refl
get_elem?-set_other (y ∷ ys) zero zero v n = absurd (n refl)
get_elem?-set_other (y ∷ ys) zero (suc j) v n = refl
get_elem?-set_other (y ∷ ys) (suc i) zero v n = refl
get_elem?-set_other (y ∷ ys) (suc i) (suc j) v n = get_elem?-set_other ys i j v (λ e. n (ap suc e))

pub length-broadcast : (ss : List Bool) → length (broadcast ss) ≡ length ss
length-broadcast [] = refl
length-broadcast (s ∷ ss) = ap suc (length-broadcast ss)

pub broadcast_awake : (ss : List Bool) (i : ℕ) → get_elem? (broadcast ss) i ≢ some true
broadcast_awake [] i e = ground (arith, e)
broadcast_awake (s ∷ ss) zero e = ground (arith, e)
broadcast_awake (s ∷ ss) (suc i) e = broadcast_awake ss i e

first_awake :
    (ss : List Bool)
    → 0 < length ss
    → ((i : ℕ) → get_elem? ss i ≢ some true)
    → get_elem? ss 0 ≡ some false
first_awake [] h n = elim h [ ]
first_awake (true ∷ ss) h n = absurd (n 0 refl)
first_awake (false ∷ ss) h n = refl

-- A signal wakes one, so that one is awake behind it, and puts nobody to sleep.
pub record Woken (ss ts : List Bool) : Type 0 where
  pub size : length ts ≡ length ss
  pub one_awake : (i : ℕ) × (get_elem? ts i ≡ some false)
  pub others : (i : ℕ) → get_elem? ts i ≡ some true → get_elem? ss i ≡ some true

pub Signal-Woken : {ss ts : List Bool} → 0 < length ss → Signal ss ts → Woken ss ts
Signal-Woken {ss} h (wakes i e) = record {
  size = length-set ss i false;
  one_awake = (i, get_elem?-set_same ss i false e);
  others = λ j f. elim (ℕ_discrete i j) [
    | yes p ↦ absurd (
        ground
          (arith, sym (get_elem?-set_same ss i false e) ∙ ap (get_elem? (set ss i false)) p ∙ f))
    | no n ↦ sym (get_elem?-set_other ss i j false n) ∙ f
  ];
}
Signal-Woken {ss} h (wakes_nobody n) = record {
  size = refl;
  one_awake = (0, first_awake ss h n);
  others = λ i e. e;
}

-- What a call of the manager does to the flag and to the number of pairs.
pub apply-flag : (a : Action) (b : Buffer) {c : Buffer} → apply a b ≡ some c → c.is_done ≡ b.is_done
unfolding apply add_pair
apply-flag a b e = ground arith

pub apply-count :
    (a : Action) (b : Buffer) {c : Buffer}
    → is_signalled a ≡ false
    → apply a b ≡ some c
    → c.count ≡ b.count
unfolding apply is_signalled
apply-count a b h e = ground arith

-- What a look does to the flag, and when the manager is not told.
pub look-flag :
    (b : Buffer) {w : Worker} {c : Buffer}
    → look b ≡ some (w, c)
    → (c.is_done ≡ b.is_done) × ((signal_not_full w true ≡ false) ⊎ (c ≡ b))
unfolding look take_pair signal_not_full
look-flag b e = elim (ℕ_discrete b.count 0) [ yes z ↦ ground arith | no n ↦ ground arith ]

pub told_asleep :
    (w : Worker) (m : Bool)
    → signal_not_full w m ≡ true
    → (signal_not_full w true ≡ true) × (m ≡ true)
unfolding signal_not_full
told_asleep (copying p) m h = ground (arith, h)
told_asleep looking m h = (refl, h)
told_asleep finished m h = (refl, h)

pub look-waits : (b : Buffer) → look b ≡ none → (b.count ≡ 0) × (b.is_done ≡ false)
unfolding look
look-waits b e = ground arith

awake_false : (ws : List Worker) (i : ℕ) → get_elem? (awake ws) i ≢ some true
awake_false [] i e = ground (arith, e)
awake_false (w ∷ ws) zero e = ground (arith, e)
awake_false (w ∷ ws) (suc i) e = awake_false ws i e

length-awake : (ws : List Worker) → length (awake ws) ≡ length ws
length-awake [] = refl
length-awake (w ∷ ws) = ap suc (length-awake ws)

-- The threads that `main` creates.
pub threads-Rested : (n : ℕ) (s : System) → length s.workers ≡ n → 0 < n → Rested (threads n s)
unfolding threads
threads-Rested n s e h =
    let some_worker : 0 < length (awake s.workers) = omega (arith, length-awake s.workers) in
    record {
      one_each = length-awake s.workers;
      some_worker = some_worker;
      full = λ q. absurd (ground (arith, q));
      sleeping = λ i q. absurd (awake_false s.workers i q);
      served = λ q. inr (0, first_awake (awake s.workers) some_worker (awake_false s.workers));
      gate = opening-Inv (n + 1) (omega arith);
      places = length-opening (n + 1) ∙ omega (arith, e);
    }
