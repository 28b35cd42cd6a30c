-- ===== src/CopyTool/Threads/Counters.antt =====
-- The numbers that the threads leave in the buffer for `main` to print.
use system_programming_cse.Common.{ℕ, ◌+◌, ◌%◌, ◌^◌, ◌≡◌, refl, ◌∙◌, ap, some, arith}
use system_programming_cse.Common.Sums.{sum}
use system_programming_cse.CopyTool.Buffer.{Buffer, add_pair, take_pair}
use system_programming_cse.CopyTool.Walk.{Action}
use system_programming_cse.CopyTool.Walk.Counts.{Kind, files, directories, fifos, counts}
use system_programming_cse.CopyTool.Threads.{
  apply, set_done, Worker, look, add_bytes, System, Step, manage, manager_ends, worker_looks,
  worker_copies, worker_closes, Reach, here, next,
}

-- The counter of the kind in the buffer.
abbrev pub counter : Kind → Buffer → ℕ
counter files b = b.num_regular_files
counter directories b = b.num_directories
counter fifos b = b.num_fifo

apply-counter :
    (k : Kind) (a : Action) (b : Buffer) {c : Buffer}
    → apply a b ≡ some c
    → (counter k c ≡ counter k b + counts k a) × (c.total_bytes_copied ≡ b.total_bytes_copied)
unfolding apply add_pair
apply-counter k a b e = ground arith

look-counter :
    (k : Kind) (b : Buffer) {w : Worker} {c : Buffer}
    → look b ≡ some (w, c)
    → (counter k c ≡ counter k b) × (c.total_bytes_copied ≡ b.total_bytes_copied)
unfolding look take_pair
look-counter k b e = ground arith

-- What the counter of a kind holds, with what the manager will still add to it.
abbrev due : Kind → System → ℕ
due k s = counter k s.buffer + sum (counts k) s.todo

Step-due : {s t : System} (k : Kind) → Step s t → due k t ≡ due k s
unfolding set_done add_bytes
Step-due {s} k (manage {a} {rest} {b} e f) =
    omega (arith, (apply-counter k a s.buffer f).0, ap (sum (counts k)) e)
Step-due files (manager_ends e f) = refl
Step-due directories (manager_ends e f) = refl
Step-due fifos (manager_ends e f) = refl
Step-due {s} k (worker_looks i e f) = omega (arith, (look-counter k s.buffer f).0)
Step-due files (worker_copies i n e pos) = refl
Step-due directories (worker_copies i n e pos) = refl
Step-due fifos (worker_copies i n e pos) = refl
Step-due k (worker_closes i e) = refl

pub Reach-due : {s t : System} (k : Kind) → Reach s t → due k t ≡ due k s
Reach-due k here = refl
Reach-due k (next r st) = Step-due k st ∙ Reach-due k r

-- The bytes that the workers have copied in a run.
abbrev copied_by : {s t : System} → Step s t → ℕ
copied_by (worker_copies i n e pos) = n
copied_by _ = 0

abbrev pub bytes_copied : {s t : System} → Reach s t → ℕ
bytes_copied here = 0
bytes_copied (next r st) = bytes_copied r + copied_by st

Step-total :
    {s t : System} (st : Step s t) (n : ℕ)
    → s.buffer.total_bytes_copied ≡ n % 2 ^ 64
    → t.buffer.total_bytes_copied ≡ (n + copied_by st) % 2 ^ 64
unfolding set_done add_bytes
Step-total {s} (manage {a} {b = b} e f) n h = omega (arith, (apply-counter files a s.buffer f).1)
Step-total (manager_ends e f) n h = omega arith
Step-total {s} (worker_looks i e f) n h = omega (arith, (look-counter files s.buffer f).1)
Step-total (worker_copies i m e pos) n h = omega arith
Step-total (worker_closes i e) n h = omega arith

pub Reach-total :
    {s t : System} (r : Reach s t)
    → s.buffer.total_bytes_copied ≡ 0
    → t.buffer.total_bytes_copied ≡ bytes_copied r % 2 ^ 64
Reach-total here h = omega arith
Reach-total (next r st) h = Step-total st (bytes_copied r) (Reach-total r h)
