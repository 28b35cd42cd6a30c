-- ===== src/CopyTool/Limit/Main/Report.antt =====
-- How the program of Homework4 ends.
use system_programming_cse.Common.{
  ℕ, ◌*◌, ◌%◌, ◌^◌, ◌<◌, ◌≡◌, refl, sym, ◌∙◌, ap, subst, ◌⊎◌, inl, inr, Bool, true, false, some,
  List, [], ◌∷◌, ◌++◌, append-nil, Text, arith, length,
}
use system_programming_cse.Common.Strings.{pos, atoi}
use system_programming_cse.CopyTool.Buffer.Refine.{create_buffer-IsValid}
use system_programming_cse.CopyTool.Walk.{Action}
use system_programming_cse.CopyTool.Walk
use system_programming_cse.CopyTool.Threads.{System, AllFinished}
use system_programming_cse.CopyTool.Threads
use system_programming_cse.CopyTool.Threads.Flag.{Step-is_done}
use system_programming_cse.CopyTool.Threads.Counters.{bytes_copied}
use system_programming_cse.CopyTool.Main.{World, with_sizes, statistics}
use system_programming_cse.CopyTool.Main
use system_programming_cse.CopyTool.Main.Started.{
  Started, with_sizes-Started, Started-run, totals, Started-totals,
}
use system_programming_cse.CopyTool.Limit.{Dir, process_directory}
use system_programming_cse.CopyTool.Limit.Prefix.{seen, process_directory-IsCut}
use system_programming_cse.CopyTool.Limit.Main.{
  Program, running, exited, IsAllowed, Step, thread, manager_exits, Reach, here, next, started,
  with_threads, start,
}

-- The steps of the threads in a run of the program; where the walk ends it, none of them sets the flag.
Running : Bool → System → Program → Type 0
Running e s (running f t) =
    (f ≡ e) × Threads.Reach s t × (e ≡ true → t.buffer.is_done ≡ s.buffer.is_done)
Running e s exited = e ≡ true

unflagged :
    {s t : System} (st : Threads.Step s t) → IsAllowed true st → t.buffer.is_done ≡ s.buffer.is_done
unflagged st allowed = elim (Step-is_done st) [
  | inl (is_end, e) ↦ absurd (allowed is_end)
  | inr (other, e) ↦ e
]

Reach-Running : {e : Bool} {s : System} {p : Program} → Reach (running e s) p → Running e s p
unfolding Running
Reach-Running here = (refl, Threads.Reach.here, λ q. refl)
Reach-Running (next r (thread st allowed)) =
    let (f, run, flag) = Reach-Running r in
    (
      f,
      Threads.Reach.next run st,
      λ q. unflagged st (subst (λ b. IsAllowed b st) (f ∙ q) allowed) ∙ flag q,
    )
Reach-Running (next r (manager_exits e)) = sym (Reach-Running r).0

with_threads-running :
    (e : Bool) (m : Main.Start) {out : Text} {num_workers buffer_size : ℕ} {p : Program}
    → with_threads e m ≡ started out num_workers buffer_size p
    → (s : System) × (m ≡ Main.Start.started out num_workers buffer_size s) × (p ≡ running e s)
unfolding with_threads
with_threads-running e (Main.Start.stopped out status) h = ground (arith, h)
with_threads-running e (Main.Start.started out n b s) h = (s, ground (arith, h), ground (arith, h))

-- The walk that comes to its end is that of Homework5.
whole-process_directory :
    (path_max : ℕ) (d : Dir) (src dest : Text)
    → (process_directory path_max d src dest).ended ≡ false
    → (process_directory path_max d src dest).actions
      ≡ Walk.process_directory path_max (seen d) src dest
whole-process_directory path_max d src dest e =
    let cut = process_directory-IsCut path_max d src dest in
    let actions = (process_directory path_max d src dest).actions in
    sym (append-nil actions) ∙ ap (λ r. actions ++ r) (sym (cut.whole e)) ∙ sym cut.starts

-- What may have become of a program with the threads `s` at first: a step is left, or the walk has ended the
-- program, or all threads have ended, with the numbers of the directory.
abbrev pub Outcome : Bool → Dir → ℕ → ℕ → System → Program → Type 0
Outcome walk_ends d num_workers buffer_size s p =
    ((q : Program) × Step p q)
    ⊎ ((p ≡ exited) × (walk_ends ≡ true))
    ⊎ ((t : System) × (p ≡ running false t)
        × (walk_ends ≡ false)
        × AllFinished t.workers
        × (run : Threads.Reach s t) × (statistics num_workers buffer_size t.buffer
            ≡ totals num_workers buffer_size (seen d) (bytes_copied run % 2 ^ 64)))

module _ (w : World) (path_max : ℕ) (d : Dir) (src dest : Text) {num_workers buffer_size : ℕ}
    {s : System} (room : (n : ℕ) (slots : List ℕ) → w.storage n ≡ some slots → length slots ≡ n)
    (small : buffer_size * 2 < 2 ^ 31) (pos_size : 0 < buffer_size) (pos_workers : 0 < num_workers)
    (found : Started w buffer_size num_workers
      (process_directory path_max d src dest).actions
      s) where
  abbrev Ends : Program → Type 0
  Ends = Outcome (process_directory path_max d src dest).ended d num_workers buffer_size s

  unflagged_start : s.buffer.is_done ≡ false
  unflagged_start =
      let storage = room (buffer_size * 2) found.slots found.stored in
      let (_, _, _, not_yet, _) =
        create_buffer-IsValid found.slots buffer_size pos_size small storage found.created in
      subst (λ x. x.buffer.is_done ≡ false) found.begun not_yet

  whole-Ends :
      {t : System}
      → (process_directory path_max d src dest).ended ≡ false
      → Threads.Reach s t
      → Ends (running false t)
  whole-Ends {t} e run =
      elim (Started-totals w (process_directory path_max d src dest).actions room small pos_size
        pos_workers found run path_max (seen d) src dest
        (whole-process_directory path_max d src dest e)) [
          | inl (u, st) ↦ inl (running false u, thread st tt)
          | inr (all, over, same) ↦ inr (inr (t, refl, e, all, run, same))
        ]

  cut-Ends :
      {t : System} → t.buffer.is_done ≡ s.buffer.is_done → Threads.Reach s t → Ends (running true t)
  cut-Ends {t} flag run =
      elim (Started-run w (process_directory path_max d src dest).actions room small pos_size
        pos_workers found run).1 [
          | inl (over, all) ↦ absurd (ground (arith, over, flag, unflagged_start))
          | inr (u, st) ↦ elim (Step-is_done st) [
            | inl (is_end, e) ↦ inl (exited, manager_exits e)
            | inr (other, e) ↦ inl (running true u, thread st other)
          ]
        ]

  Running-Ends : (p : Program) → Running (process_directory path_max d src dest).ended s p → Ends p
  unfolding Running
  Running-Ends exited h = inr (inl (refl, h))
  Running-Ends (running true t) (f, run, flag) = cut-Ends (flag (sym f)) run
  Running-Ends (running false t) (f, run, flag) = whole-Ends (sym f) run

-- `main` of Homework4 over a directory, with five arguments of which the sizes are positive, with memory for
-- its buffer, and a size whose double is an `int`: after any steps of its threads, where a wait is
-- a step that cannot be taken yet and the exit at EMFILE is one step, either some step is left;
-- or the program has exited, and the walk has met EMFILE; or the walk has not, all threads have ended, and
-- the numbers that `main` prints are the sizes that were asked for, those of the directory, and the bytes
-- that the workers have copied, as a `size_t`.
start-Outcome :
    (w : World) (path_max : ℕ) (tree : Text → Dir) (program size workers src dest : Text)
    {out : Text} {num_workers buffer_size : ℕ} {p q : Program}
    → ((n : ℕ) (slots : List ℕ) → w.storage n ≡ some slots → length slots ≡ n)
    → buffer_size * 2 < 2 ^ 31
    → start w path_max tree (program ∷ size ∷ workers ∷ src ∷ dest ∷ [])
      ≡ started out num_workers buffer_size p
    → Reach p q
    → (atoi size ≡ pos buffer_size)
      × (atoi workers ≡ pos num_workers)
      × (s : System) × (p ≡ running (process_directory path_max (tree src) src dest).ended s)
      × Outcome
          (process_directory path_max (tree src) src dest).ended
          (tree src)
          num_workers
          buffer_size
          s
          q
unfolding start
start-Outcome w path_max tree program size workers src dest {p = p} {q} room small e r =
    let walk = process_directory path_max (tree src) src dest in
    let (s, m, same) =
      with_threads-running walk.ended (with_sizes w walk.actions (atoi size) (atoi workers)) e in
    let (size_read, workers_read, pos_size, pos_workers, found) =
      with_sizes-Started w walk.actions (atoi size) (atoi workers) m in
    (
      size_read,
      workers_read,
      s,
      same,
      Running-Ends w path_max (tree src) src dest room small pos_size pos_workers found q
          (Reach-Running (subst (λ x. Reach x q) same r)),
    )
