-- ===== src/CopyTool/Main/Started.antt =====
-- The threads that `main` of hw5.c has started, up to their end.
use system_programming_cse.Common.{
  ℕ, zero, suc, ◌+◌, ◌*◌, ◌%◌, ◌^◌, ◌<◌, ◌≡◌, ◌∙◌, refl, sym, ap, subst, ◌⊎◌, inl, inr, Bool, true,
  false, Option, none, some, List, [], Text, arith, length,
}
use system_programming_cse.Common.Strings.{ℤ, pos, negsuc}
use system_programming_cse.Common.Sums.{sum}
use system_programming_cse.CopyTool.Buffer.{Buffer, create_buffer}
use system_programming_cse.CopyTool.Buffer.Refine.{create_buffer-IsValid}
use system_programming_cse.CopyTool.Walk.{Action, Dir, process_directory}
use system_programming_cse.CopyTool.Walk.Counts.{
  Kind, files, directories, fifos, counts, found, process_directory-found,
}
use system_programming_cse.CopyTool.Threads.{System, Step, Reach, begin, AllLooking, AllFinished}
use system_programming_cse.CopyTool.Threads.Invariant.{Inv, Reach-Inv}
use system_programming_cse.CopyTool.Threads.Results.{start-Inv, progress}
use system_programming_cse.CopyTool.Threads.Counters.{counter, Reach-due, bytes_copied, Reach-total}
use system_programming_cse.CopyTool.Main.{
  World, started, check_fd_limit, new_workers, with_buffer, with_limit, with_sizes, Statistics,
  statistics,
}

-- What a call that starts the threads has found.
pub record Started (w : World) (buffer_size num_workers : ℕ) (plan : List Action) (s : System)
    : Type 0 where
  pub slots : List ℕ
  pub buffer : Buffer
  pub stored : w.storage (buffer_size * 2) ≡ some slots
  pub created : create_buffer true (some slots) buffer_size ≡ some buffer
  pub begun : begin buffer plan (new_workers num_workers) ≡ s

module _ (w : World) (size workers : ℕ) (plan : List Action) {out : Text}
    {num_workers buffer_size : ℕ} {s : System} where
  with_buffer-Started :
      (text : Text) (has_memory : Bool) (storage : Option (List ℕ))
      → w.storage (size * 2) ≡ storage
      → with_buffer text size workers plan (create_buffer has_memory storage size)
        ≡ started out num_workers buffer_size s
      → (size ≡ buffer_size) × (workers ≡ num_workers) × Started w size workers plan s
  unfolding with_buffer create_buffer
  with_buffer-Started text false storage h e = ground arith
  with_buffer-Started text true none h e = ground arith
  with_buffer-Started text true (some slots) h e = (
    ground arith,
    ground arith,
    record { slots = slots; buffer = _; stored = h; created = refl; begun = ground arith },
  )

  with_limit-Started :
      (o : Option Text)
      → with_limit w size workers plan o ≡ started out num_workers buffer_size s
      → (size ≡ buffer_size) × (workers ≡ num_workers) × Started w size workers plan s
  unfolding with_limit
  with_limit-Started none e = ground arith
  with_limit-Started (some text) e =
      with_buffer-Started text w.has_memory (w.storage (size * 2)) refl e

pub with_sizes-Started :
    (w : World) (plan : List Action) (x y : ℤ) {out : Text} {num_workers buffer_size : ℕ}
    {s : System}
    → with_sizes w plan x y ≡ started out num_workers buffer_size s
    → (x ≡ pos buffer_size)
      × (y ≡ pos num_workers)
      × (0 < buffer_size)
      × (0 < num_workers)
      × Started w buffer_size num_workers plan s
unfolding with_sizes
with_sizes-Started w plan (pos (suc m)) (pos (suc n)) {num_workers = workers} {s = s} e =
    let (p, q, h) = with_limit-Started w (suc m) (suc n) plan (check_fd_limit w.limit) e in
    (
      ap pos p,
      ap pos q,
      omega arith,
      omega arith,
      subst (λ k. Started w k workers plan s) p (subst (λ k. Started w (suc m) k plan s) q h),
    )
with_sizes-Started w plan (pos zero) y e = ground arith
with_sizes-Started w plan (negsuc m) y e = ground arith
with_sizes-Started w plan (pos (suc m)) (pos zero) e = ground arith
with_sizes-Started w plan (pos (suc m)) (negsuc n) e = ground arith

new_workers-AllLooking : (n : ℕ) → AllLooking (new_workers n)
new_workers-AllLooking zero = tt
new_workers-AllLooking (suc n) = (refl, new_workers-AllLooking n)

length-new_workers : (n : ℕ) → length (new_workers n) ≡ n
length-new_workers zero = refl
length-new_workers (suc n) = omega (arith, length-new_workers n)

-- The numbers of a copy of a directory.
abbrev pub totals : ℕ → ℕ → Dir → ℕ → Statistics
totals num_workers buffer_size d bytes = record {
  consumers = num_workers;
  buffer_size = buffer_size;
  num_regular_files = found files d;
  num_fifo = found fifos d;
  num_directories = found directories d;
  total_bytes_copied = bytes;
}

-- The counters of a run over a directory once the manager has nothing left to do.
module _ (path_max : ℕ) (d : Dir) (src dest : Text) {s t : System}
    (planned : s.todo ≡ process_directory path_max d src dest) (r : Reach s t)
    (e : t.todo ≡ []) where
  counter-found : (k : Kind) → counter k s.buffer ≡ 0 → counter k t.buffer ≡ found k d
  counter-found k z = omega (
    arith,
    Reach-due k r,
    ap (sum (counts k)) planned,
    ap (sum (counts k)) e,
    process_directory-found path_max k d src dest,
  )

  counters-totals :
      (workers buffer_size : ℕ)
      → s.buffer.num_regular_files + s.buffer.num_directories + s.buffer.num_fifo
          + s.buffer.total_bytes_copied
        ≡ 0
      → statistics workers buffer_size t.buffer
        ≡ totals workers buffer_size d (bytes_copied r % 2 ^ 64)
  unfolding statistics
  counters-totals workers buffer_size z = ground (
    arith,
    counter-found files (omega arith),
    counter-found directories (omega arith),
    counter-found fifos (omega arith),
    Reach-total r (omega arith),
  )

-- Threads that `main` has started, with memory for the buffer, and a size whose double is an `int`.
module _ (w : World) (plan : List Action) {num_workers buffer_size : ℕ} {s t : System}
    (room : (n : ℕ) (slots : List ℕ) → w.storage n ≡ some slots → length slots ≡ n)
    (small : buffer_size * 2 < 2 ^ 31) (pos_size : 0 < buffer_size) (pos_workers : 0 < num_workers)
    (found : Started w buffer_size num_workers plan s) (r : Reach s t) where
  pub Started-run :
      Inv plan t × (((t.buffer.is_done ≡ true) × AllFinished t.workers) ⊎ ((u : System) × Step t u))
  Started-run =
      let fresh = new_workers-AllLooking num_workers in
      let storage = room (buffer_size * 2) found.slots found.stored in
      let run : Reach (begin found.buffer plan (new_workers num_workers)) t =
        subst (λ x. Reach x t) (sym found.begun) r in
      (
        Reach-Inv
            (start-Inv found.slots buffer_size pos_size small storage found.created fresh plan) run,
        progress found.slots buffer_size pos_size small storage found.created fresh plan
            (omega (arith, length-new_workers num_workers)) run,
      )

  pub length-workers : length s.workers ≡ num_workers
  length-workers = ap (λ x. length x.workers) (sym found.begun) ∙ length-new_workers num_workers

  -- When the manager has nothing left to do, the numbers are those of the directory of which the plan is
  -- the walk.
  pub Started-statistics :
      (path_max : ℕ) (d : Dir) (src dest : Text)
      → plan ≡ process_directory path_max d src dest
      → t.todo ≡ []
      → statistics num_workers buffer_size t.buffer
        ≡ totals num_workers buffer_size d (bytes_copied r % 2 ^ 64)
  Started-statistics path_max d src dest walk e =
      let storage = room (buffer_size * 2) found.slots found.stored in
      let (_, _, _, _, zero_yet) =
        create_buffer-IsValid found.slots buffer_size pos_size small storage found.created in
      counters-totals path_max d src dest (ap (λ x. x.todo) (sym found.begun) ∙ walk) r e
        num_workers buffer_size
        (subst
          (λ x.
            x.buffer.num_regular_files + x.buffer.num_directories + x.buffer.num_fifo
              + x.buffer.total_bytes_copied
            ≡ 0)
          found.begun zero_yet)

  -- A thread can go on, or all have ended, and the numbers are those of the directory of which the plan
  -- is the walk.
  pub Started-totals :
      (path_max : ℕ) (d : Dir) (src dest : Text)
      → plan ≡ process_directory path_max d src dest
      → ((u : System) × Step t u)
        ⊎ (AllFinished t.workers
            × (t.buffer.is_done ≡ true)
            × (statistics num_workers buffer_size t.buffer
                ≡ totals num_workers buffer_size d (bytes_copied r % 2 ^ 64)))
  Started-totals path_max d src dest walk =
      let (v, moves) = Started-run in
      elim moves [
        | inr step ↦ inl step
        | inl (over, all) ↦
            inr (all, over, Started-statistics path_max d src dest walk (v.ended over))
      ]
