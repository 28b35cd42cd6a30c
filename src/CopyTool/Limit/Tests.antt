-- ===== src/CopyTool/Limit/Tests.antt =====
-- A directory with two files, for the second of which there is no descriptor left.
use system_programming_cse.Common.{◌≡◌, refl, true, some, none, [], ◌∷◌, codes}
use system_programming_cse.CopyTool.Walk.{open_read, open_write, put, count_file, is_link, join}
use system_programming_cse.CopyTool.Walk
use system_programming_cse.CopyTool.Limit.{
  Dir, listing, nil, cons, regular, descriptor, exhausted, process_directory,
}
use system_programming_cse.CopyTool.Limit.Prefix.{seen, IsCut, process_directory-IsCut}

abbrev two_files : Dir
two_files = listing (
    cons (regular (codes "a") (descriptor 4) (some 5))
      (cons (regular (codes "b") exhausted (some 6)) nil))

ended_early : process_directory 4096 two_files (codes "s") (codes "d") ≡ record {
  actions =
      open_read (codes "s/a") (some 4)
      ∷ open_write (codes "d/a") (some 5)
      ∷ put (4, 5)
      ∷ count_file
      ∷ open_read (codes "s/b") none
      ∷ [];
  ended = true;
}
unfolding process_directory is_link join
ended_early = refl

process_directory-IsCut_example :
    IsCut
      (process_directory 4096 two_files (codes "s") (codes "d"))
      (Walk.process_directory 4096 (seen two_files) (codes "s") (codes "d"))
process_directory-IsCut_example = process_directory-IsCut 4096 two_files (codes "s") (codes "d")
