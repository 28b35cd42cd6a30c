-- ===== src/CopyTool/Limit/Main/Tests.antt =====
-- The program of Homework4 over a directory with one file.
use system_programming_cse.Common.{◌≡◌, refl, some, false, [], ◌∷◌, codes}
use system_programming_cse.Common.Strings.{atoi}
use system_programming_cse.CopyTool.Buffer.{create_buffer}
use system_programming_cse.CopyTool.Buffer.Tests.{empty_buffer}
use system_programming_cse.CopyTool.Walk
use system_programming_cse.CopyTool.Walk.{is_link, join}
use system_programming_cse.CopyTool.Threads.{looking, begin}
use system_programming_cse.CopyTool.Threads.Tests.{plan}
use system_programming_cse.CopyTool.Main.Tests.{world, limit_text}
use system_programming_cse.CopyTool.Limit.{
  Dir, listing, nil, cons, regular, descriptor, process_directory,
}
use system_programming_cse.CopyTool.Limit.Main.{running, started, stopped, start}

abbrev small_tree : Dir
small_tree = listing (cons (regular (codes "f") (descriptor 4) (some 5)) nil)

start_usage :
    start world 4096 (λ name. small_tree) (codes "hw4" ∷ [])
    ≡ stopped (codes "Usage: <buffer_size> <num_workers> <src_dir> <dest_dir>\n") 1
unfolding start
start_usage = refl

start-small_tree :
    start world 4096
      (λ name. small_tree)
      (codes "hw4" ∷ codes "2" ∷ codes "1" ∷ codes "s" ∷ codes "d" ∷ [])
    ≡ started limit_text 1 2 (running false (begin empty_buffer plan (looking ∷ [])))
unfolding start create_buffer atoi is_link join process_directory Walk.process_directory
start-small_tree = refl
