-- ===== src/CopyTool/Walk/Tests.antt =====
-- A directory "a" with a file, a link to itself and a file that cannot be written.
use system_programming_cse.Common.{◌≡◌, refl, true, none, some, [], ◌∷◌, arith, codes}
use system_programming_cse.CopyTool.Walk.{
  Dir, listing, nil, cons, directory, regular, fifo, make_dir, count_dir, open_read, open_write,
  close, put, count_file, make_fifo, count_fifo, join, process_directory,
}
use system_programming_cse.CopyTool.Walk.Descriptors.{IsBalanced, process_directory-IsBalanced}
use system_programming_cse.CopyTool.Walk.Paths.{AllStay, process_directory-stays}

abbrev pub tree : Dir
tree = listing (
    cons (directory (codes ".") true (listing nil)) (
      cons (regular (codes "f") (some 4) (some 5)) (
        cons (directory (codes "a") true (listing (cons (regular (codes "g") (some 6) none) nil)))
          (cons (fifo (codes "p") true) nil))))

actions :
    process_directory 4096 tree (codes "s") (codes "d")
    ≡ open_read (codes "s/f") (some 4)
      ∷ open_write (codes "d/f") (some 5)
      ∷ put (4, 5)
      ∷ count_file
      ∷ make_dir (codes "d/a")
      ∷ count_dir
      ∷ open_read (codes "s/a/g") (some 6)
      ∷ open_write (codes "d/a/g") none
      ∷ close 6
      ∷ make_fifo (codes "d/p")
      ∷ count_fifo
      ∷ []
unfolding process_directory join
actions = refl

process_directory-IsBalanced_example :
    IsBalanced (process_directory 4096 tree (codes "s") (codes "d"))
process_directory-IsBalanced_example =
    process_directory-IsBalanced 4096 tree (codes "s") (codes "d")

process_directory-stays_example :
    AllStay (codes "s") (codes "d") (process_directory 4096 tree (codes "s") (codes "d"))
process_directory-stays_example =
    process_directory-stays 4096 tree (codes "s") (codes "d") (omega arith) (omega arith)
