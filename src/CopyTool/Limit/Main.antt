-- ===== src/CopyTool/Limit/Main.antt =====
-- Homework4/hw4.c and hw4.h: `main`, and the threads of the earlier version, of which the manager may end the
-- program. The threads share the code of Homework5, without the barrier behind their ends, and `main` is that
-- of Homework5 up to the text of the usage. SIGINT, the signals of the condition variables and the
-- steps of `cleanup` at EMFILE, which frees what workers may still use, are left out.
pub mod Report
mod Tests
use system_programming_cse.Common.{ℕ, Bool, true, false, List, [], ◌∷◌, ◌≡◌, Text, codes}
use system_programming_cse.Common.Strings.{atoi}
use system_programming_cse.CopyTool.Threads.{System}
use system_programming_cse.CopyTool.Threads.Flag.{IsEnd}
use system_programming_cse.CopyTool.Threads
use system_programming_cse.CopyTool.Main.{World, with_sizes}
use system_programming_cse.CopyTool.Main
use system_programming_cse.CopyTool.Limit.{Dir, Walked, process_directory}

-- `walk_ends` says that the last call of the walk meets EMFILE, behind which the program exits.
pub data Program : Type 0 where
  running : (walk_ends : Bool) → System → Program
  exited : Program

-- The flag is set only behind a walk that comes to its end.
abbrev pub IsAllowed : {s t : System} → Bool → Threads.Step s t → Type 0
IsAllowed true st = IsEnd st → ⊥
IsAllowed false st = Unit {0}

pub data Step : Program → Program → Type 0 where
  thread :
      {walk_ends : Bool} {s t : System} (st : Threads.Step s t)
      → IsAllowed walk_ends st
      → Step (running walk_ends s) (running walk_ends t)
  manager_exits : {s : System} → s.todo ≡ [] → Step (running true s) exited

pub data Reach (p : Program) : Program → Type 0 where
  here : Reach p p
  next : {q r : Program} → Reach p q → Step q r → Reach p r

pub data Start : Type 0 where
  -- what was written, and the exit status
  stopped : Text → ℕ → Start
  -- what was written, the number of workers, the size of the buffer, and the threads
  started : Text → ℕ → ℕ → Program → Start

usage : Text
usage = codes "Usage: <buffer_size> <num_workers> <src_dir> <dest_dir>\n"

-- The threads over the walk that has been planned.
with_threads : Bool → Main.Start → Start
with_threads walk_ends (Main.Start.stopped out status) = stopped out status
with_threads walk_ends (Main.Start.started out num_workers buffer_size s) =
    started out num_workers buffer_size (running walk_ends s)

-- `main` up to the joins.
pub start : World → ℕ → (Text → Dir) → List Text → Start
unfolding with_threads with_sizes usage atoi process_directory
start w path_max tree (program ∷ buffer_size ∷ num_workers ∷ src_dir ∷ dest_dir ∷ []) =
    let walk = process_directory path_max (tree src_dir) src_dir dest_dir in
    with_threads walk.ended (with_sizes w walk.actions (atoi buffer_size) (atoi num_workers))
start w path_max tree argv = stopped usage 1
