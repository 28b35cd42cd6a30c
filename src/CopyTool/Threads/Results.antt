-- ===== src/CopyTool/Threads/Results.antt =====
-- No pair is lost or handed out twice, workers leave only when all is handed out, and no thread is
-- stuck for ever.
use system_programming_cse.Common.{
  ℕ, suc, ◌+◌, ◌*◌, ◌^◌, ◌<◌, ◌≡◌, ◌≢◌, refl, sym, ◌∙◌, ap, true, Bool-cases, Option-cases, ◌⊎◌,
  inl, inr, none, some, List, [], ◌∷◌, ◌++◌, append-nil, Text, arith, length, get_elem?, length-set,
}
use system_programming_cse.CopyTool.Buffer.{Buffer, Pair, create_buffer}
use system_programming_cse.CopyTool.Buffer.Refine.{contents, create_buffer-IsValid, window}
use system_programming_cse.CopyTool.Walk.{Dir, Action, process_directory}
use system_programming_cse.CopyTool.Walk.Descriptors.{
  puts, files_counted, process_directory-IsBalanced,
}
use system_programming_cse.CopyTool.Threads.{
  apply, Worker, looking, copying, finished, look, System, Step, manage, manager_ends, worker_looks,
  worker_copies, worker_closes, Reach, here, next, begin, AllLooking, AllFinished,
}
use system_programming_cse.CopyTool.Threads.Invariant.{Inv, Reach-Inv, begin-Inv}

-- A worker that finds a pair, or the end of the manager, does not wait.
pub look-some :
    (b : Buffer) → (b.is_done ≡ true) ⊎ (b.count ≢ 0) → (r : Worker × Buffer) × (look b ≡ some r)
unfolding look
look-some b h = elim (Option-cases (look b)) [ inr (r, e) ↦ (r, e) | inl e ↦ absurd (ground arith) ]

-- The manager waits only for a place in a full buffer.
apply-none : (a : Action) (b : Buffer) → apply a b ≡ none → b.count ≡ b.max_size
unfolding apply
apply-none (Action.put p) b e = ground arith
apply-none a b e = ground arith

Reach-length : {s t : System} → Reach s t → length t.workers ≡ length s.workers
Reach-length here = refl
Reach-length (next r (manage e f)) = Reach-length r
Reach-length (next r (manager_ends e f)) = Reach-length r
Reach-length (next {t} r (worker_looks i {w = w} e f)) = length-set t.workers i w ∙ Reach-length r
Reach-length (next r (worker_copies i n e f)) = Reach-length r
Reach-length (next {t} r (worker_closes i e)) = length-set t.workers i looking ∙ Reach-length r

-- A worker that is not finished.
abbrev pub Busy : List Worker → Type 0
Busy ws =
    (i : ℕ) × ((get_elem? ws i ≡ some looking) ⊎ ((p : Pair) × (get_elem? ws i ≡ some (copying p))))

pub Busy-or_finished : (ws : List Worker) → AllFinished ws ⊎ Busy ws
Busy-or_finished [] = inl tt
Busy-or_finished (looking ∷ ws) = inr (0, inl refl)
Busy-or_finished (copying p ∷ ws) = inr (0, inr (p, refl))
Busy-or_finished (finished ∷ ws) = elim (Busy-or_finished ws) [
  | inl h ↦ inl (refl, h)
  | inr (i, h) ↦ inr (suc i, h)
]

-- A worker that is not finished can move once there is a pair or the manager has ended.
Busy-moves :
    (s : System)
    → (s.buffer.is_done ≡ true) ⊎ (s.buffer.count ≢ 0)
    → Busy s.workers
    → (t : System) × Step s t
Busy-moves s h (i, inl e) = let ((w, b), f) = look-some s.buffer h in (_, worker_looks i e f)
Busy-moves s h (i, inr (p, e)) = (_, worker_closes i e)

-- The first worker can move while the manager waits for a place.
first-Busy :
    {plan : List Action} (s : System) (ws : List Worker)
    → Inv plan s
    → s.workers ≡ ws
    → s.todo ≢ []
    → 0 < length ws
    → Busy s.workers
first-Busy s [] v e t n = elim n [ ]
first-Busy s (looking ∷ ws) v e t n = (0, inl (rw e))
first-Busy s (copying p ∷ ws) v e t n = (0, inr (p, rw e))
first-Busy s (finished ∷ ws) v e t n = absurd (t (v.ended (v.over 0 (rw e)).0))

next-Step :
    {plan : List Action} {s : System}
    → Inv plan s
    → 0 < length s.workers
    → ((s.buffer.is_done ≡ true) × AllFinished s.workers) ⊎ ((t : System) × Step s t)
next-Step {s} v some_worker = go s.todo refl
  where
    manager_waits :
        {a : Action} {rest : List Action}
        → s.todo ≡ a ∷ rest
        → s.buffer.count ≢ 0
        → (t : System) × Step s t
    manager_waits e c =
        Busy-moves s (inr c) (first-Busy s s.workers v refl (λ n. ground arith) some_worker)

    go :
        (xs : List Action)
        → s.todo ≡ xs
        → ((s.buffer.is_done ≡ true) × AllFinished s.workers) ⊎ ((t : System) × Step s t)
    go (a ∷ rest) e = elim (Option-cases (apply a s.buffer)) [
      | inr (b, f) ↦ inr (_, manage e f)
      | inl f ↦ inr (manager_waits e (λ z. omega (arith, v.roomy, apply-none a s.buffer f)))
    ]
    go [] e = elim (Bool-cases s.buffer.is_done) [
      | inr f ↦ inr (_, manager_ends e f)
      | inl f ↦ elim (Busy-or_finished s.workers) [
        | inl all ↦ inl (f, all)
        | inr busy ↦ inr (Busy-moves s (inl f) busy)
      ]
    ]

module _ (slots : List ℕ) (size : ℕ) {b : Buffer} (pos : 0 < size) (small : size * 2 < 2 ^ 31)
    (storage : length slots ≡ size * 2) (created : create_buffer true (some slots) size ≡ some b)
    {ws : List Worker} (fresh_workers : AllLooking ws) where
  pub start-Inv : (plan : List Action) → Inv plan (begin b plan ws)
  start-Inv plan =
      let (v, none_yet, sized, not_yet, zero_yet) =
        create_buffer-IsValid slots size pos small storage created in
      begin-Inv b plan ws v (omega arith) none_yet (omega arith) not_yet fresh_workers

  -- At every moment the pairs that workers have taken, then those in the buffer, then those that the
  -- manager will still put, are the pairs of the walk in their order: none is lost or doubled.
  pub pairs_in_order :
      (plan : List Action) {s : System}
      → Reach (begin b plan ws) s
      → s.handed ++ contents s.buffer ++ puts s.todo ≡ puts plan
  pairs_in_order plan r = (Reach-Inv (start-Inv plan) r).queue

  -- A worker of a walk over a directory that puts fewer than 2^31 pairs ends only when the manager has nothing
  -- left to do and all its pairs have been taken, and then the number of regular files that `main` prints is
  -- the number of pairs, which is an `int`.
  pub worker_ends_last :
      (path_max : ℕ) (d : Dir) (src dest : Text) {s : System} (i : ℕ)
      → Reach (begin b (process_directory path_max d src dest) ws) s
      → get_elem? s.workers i ≡ some finished
      → length (puts (process_directory path_max d src dest)) < 2 ^ 31
      → (s.handed ≡ puts (process_directory path_max d src dest))
        × (s.buffer.num_regular_files ≡ length s.handed)
        × (s.buffer.num_regular_files < 2 ^ 31)
        × (s.todo ≡ [])
  worker_ends_last path_max d src dest {s} i r e few =
      let plan = process_directory path_max d src dest in
      let v = Reach-Inv (start-Inv plan) r in
      let (over, empty) = v.over i e in
      let todo : s.todo ≡ [] = v.ended over in
      let all : s.handed ≡ puts plan =
        sym (append-nil s.handed)
        ∙ sym (append-nil (s.handed ++ []))
        ∙ ap (λ n. s.handed ++ window s.buffer.slots (s.buffer.max_size * 2) s.buffer.head n ++ [])
            (sym empty)
        ∙ ap (λ xs. s.handed ++ contents s.buffer ++ puts xs) (sym todo)
        ∙ v.queue in
      let balanced = (process_directory-IsBalanced path_max d src dest).1 in
      let counted : s.buffer.num_regular_files + 0 ≡ files_counted plan =
        ap (λ xs. s.buffer.num_regular_files + files_counted xs) (sym todo) ∙ v.counted in
      (all, omega (arith, ap length all), omega (arith, few), todo)

  -- No deadlock: with one worker at least, either the manager has ended and all workers have, or
  -- some thread can go on.
  pub progress :
      (plan : List Action) {s : System}
      → 0 < length ws
      → Reach (begin b plan ws) s
      → ((s.buffer.is_done ≡ true) × AllFinished s.workers) ⊎ ((t : System) × Step s t)
  progress plan {s} some_worker r =
      let v = Reach-Inv (start-Inv plan) r in next-Step v (omega (arith, Reach-length r))
