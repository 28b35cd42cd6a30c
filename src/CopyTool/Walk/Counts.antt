-- ===== src/CopyTool/Walk/Counts.antt =====
-- What the manager counts, against what lies in the directory.
use system_programming_cse.Common.{
  ℕ, ◌+◌, ◌≡◌, refl, Bool, true, if◌then◌else◌, Option, some, List, Text, arith,
}
use system_programming_cse.Common.Sums.{sum, sum-append}
use system_programming_cse.CopyTool.Walk.{
  Dir, unreadable, listing, Entries, nil, cons, Entry, directory, regular, fifo, other, Action,
  count_dir, count_file, count_fifo, is_link, join, regular_actions, fifo_actions,
  directory_actions, process_directory, process_entries, process_entry,
}

-- A kind of thing in a directory that the manager counts.
pub data Kind : Type 0 where
  files directories fifos : Kind

-- How much a call of the manager adds to the counter of that kind.
abbrev pub counts : Kind → Action → ℕ
counts files count_file = 1
counts directories count_dir = 1
counts fifos count_fifo = 1
counts _ _ = 0

-- A regular file counts if both of its descriptors were opened, a directory and a FIFO if the copy
-- was made or was there.
abbrev pub one_file : Kind → Option ℕ → Option ℕ → ℕ
one_file files (some s) (some d) = 1
one_file _ _ _ = 0

abbrev pub one_fifo : Kind → Bool → ℕ
one_fifo fifos true = 1
one_fifo _ _ = 0

abbrev pub one_directory : Kind → ℕ
one_directory directories = 1
one_directory _ = 0

-- The things of a kind in a directory and in those below it; nothing is found below a directory of
-- which no copy could be made.
module _ (k : Kind) where
  unfoldable mutual
    pub found : Dir → ℕ
    found unreadable = 0
    found (listing es) = found_among es

    pub found_among : Entries → ℕ
    found_among nil = 0
    found_among (cons e es) = found_at e + found_among es

    pub found_at : Entry → ℕ
    found_at (directory name made d) =
        if is_link name then 0 else if made then one_directory k + found d else 0
    found_at (regular name s d) = if is_link name then 0 else one_file k s d
    found_at (fifo name made) = if is_link name then 0 else one_fifo k made
    found_at (other name) = 0

sum-regular_actions :
    (k : Kind) (src dest : Text) (s d : Option ℕ)
    → sum (counts k) (regular_actions src dest s d) ≡ one_file k s d
unfolding regular_actions
sum-regular_actions k src dest s d = ground arith

sum-fifo_actions :
    (k : Kind) (dest : Text) (made : Bool)
    → sum (counts k) (fifo_actions dest made) ≡ one_fifo k made
unfolding fifo_actions
sum-fifo_actions k dest made = ground arith

sum-directory_actions :
    (k : Kind) (dest : Text) (made : Bool) (inner : List Action) (n : ℕ)
    → sum (counts k) inner ≡ n
    → sum (counts k) (directory_actions dest made inner) ≡ (if made then one_directory k + n else 0)
unfolding directory_actions
sum-directory_actions k dest made inner n h = ground arith

module _ (path_max : ℕ) (k : Kind) where
  mutual
    unfolding process_directory process_entries process_entry found found_among found_at

    counts-dir :
        (d : Dir) (src dest : Text)
        → sum (counts k) (process_directory path_max d src dest) ≡ found k d
    counts-dir unreadable src dest = refl
    counts-dir (listing es) src dest = counts-entries es src dest

    counts-entries :
        (es : Entries) (src dest : Text)
        → sum (counts k) (process_entries path_max es src dest) ≡ found_among k es
    counts-entries nil src dest = refl
    counts-entries (cons e es) src dest = omega (
      arith,
      sum-append (counts k) (process_entry path_max e src dest)
          (process_entries path_max es src dest),
      counts-entry e src dest,
      counts-entries es src dest,
    )

    counts-entry :
        (e : Entry) (src dest : Text)
        → sum (counts k) (process_entry path_max e src dest) ≡ found_at k e
    counts-entry (directory name made d) src dest = ground (
      arith,
      sum-directory_actions k (join path_max dest name) made
          (process_directory path_max d (join path_max src name) (join path_max dest name))
          (found k d) (counts-dir d (join path_max src name) (join path_max dest name)),
    )
    counts-entry (regular name s d) src dest =
        ground (arith, sum-regular_actions k (join path_max src name) (join path_max dest name) s d)
    counts-entry (fifo name made) src dest =
        ground (arith, sum-fifo_actions k (join path_max dest name) made)
    counts-entry (other name) src dest = refl

-- For every directory and every kind, the calls of the manager add to the counter of the kind as many
-- as a count of the directory itself finds.
pub process_directory-found :
    (path_max : ℕ) (k : Kind) (d : Dir) (src dest : Text)
    → sum (counts k) (process_directory path_max d src dest) ≡ found k d
process_directory-found = counts-dir
