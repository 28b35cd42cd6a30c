-- ===== src/CopyTool/Threads/Flag.antt =====
-- Only the end of the manager sets the flag `done` of the buffer.
use system_programming_cse.Common.{◌≡◌, refl, ◌⊎◌, inl, inr, some, [], arith}
use system_programming_cse.CopyTool.Buffer.{Buffer, add_pair, take_pair}
use system_programming_cse.CopyTool.Walk.{Action}
use system_programming_cse.CopyTool.Threads.{
  apply, Worker, look, add_bytes, System, Step, manage, manager_ends, worker_looks, worker_copies,
  worker_closes,
}

-- The step is the end of the manager.
abbrev pub IsEnd : {s t : System} → Step s t → Type 0
IsEnd (manager_ends e f) = Unit {0}
IsEnd _ = ⊥

apply-is_done : (a : Action) (b : Buffer) {c : Buffer} → apply a b ≡ some c → c.is_done ≡ b.is_done
unfolding apply add_pair
apply-is_done a b e = ground arith

look-is_done : (b : Buffer) {w : Worker} {c : Buffer} → look b ≡ some (w, c) → c.is_done ≡ b.is_done
unfolding look take_pair
look-is_done b e = ground arith

pub Step-is_done :
    {s t : System} (st : Step s t)
    → (IsEnd st × (s.todo ≡ [])) ⊎ ((IsEnd st → ⊥) × (t.buffer.is_done ≡ s.buffer.is_done))
unfolding add_bytes
Step-is_done {s} (manage {a} e f) = inr (λ x. x, apply-is_done a s.buffer f)
Step-is_done (manager_ends e f) = inl (tt, e)
Step-is_done {s} (worker_looks i e f) = inr (λ x. x, look-is_done s.buffer f)
Step-is_done (worker_copies i n e p) = inr (λ x. x, refl)
Step-is_done (worker_closes i e) = inr (λ x. x, refl)
