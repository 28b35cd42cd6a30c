-- ===== src/CopyTool/Walk.antt =====
-- `process_directory` of hw5.c: the calls that it makes for a directory, in their order.
pub mod Descriptors
pub mod Counts
pub mod Paths
mod Tests
use system_programming_cse.Common.{
  ℕ, zero, suc, ◌+◌, ◌-◌, ◌||◌, Bool, true, false, Option, none, some, List, [], ◌∷◌, ◌++◌,
  if◌then◌else◌, Text, codes, text_eq, take,
}
use system_programming_cse.CopyTool.Buffer.{Pair}

-- What the calls on the way report: a directory that `opendir` refuses, or its entries in the order
-- of `readdir`. An entry has its `d_name`; a directory also says whether `mkdir` made its copy or
-- found it there, a regular file holds the results of the two calls of `open`, and a FIFO says
-- whether `mkfifo` made it or found it there.
mutual
  pub data Dir : Type 0 where
    unreadable : Dir
    listing : Entries → Dir

  pub data Entries : Type 0 where
    nil : Entries
    cons : Entry → Entries → Entries

  pub data Entry : Type 0 where
    directory : Text → Bool → Dir → Entry
    regular : Text → Option ℕ → Option ℕ → Entry
    fifo : Text → Bool → Entry
    other : Text → Entry

-- A call that the manager makes, or an update of the shared buffer.
pub data Action : Type 0 where
  make_dir : Text → Action
  count_dir : Action
  open_read : Text → Option ℕ → Action
  open_write : Text → Option ℕ → Action
  close : ℕ → Action
  put : Pair → Action
  count_file : Action
  make_fifo : Text → Action
  count_fifo : Action

-- The names "." and "..".
unfoldable pub is_link : Text → Bool
is_link name = text_eq name (codes ".") || text_eq name (codes "..")

-- The branch for DT_REG.
unfoldable pub regular_actions : Text → Text → Option ℕ → Option ℕ → List Action
regular_actions src dest none dest_fd = open_read src none ∷ []
regular_actions src dest (some s) none =
    open_read src (some s) ∷ open_write dest none ∷ close s ∷ []
regular_actions src dest (some s) (some d) =
    open_read src (some s) ∷ open_write dest (some d) ∷ put (s, d) ∷ count_file ∷ []

-- The branch for DT_FIFO.
unfoldable pub fifo_actions : Text → Bool → List Action
fifo_actions dest true = make_fifo dest ∷ count_fifo ∷ []
fifo_actions dest false = make_fifo dest ∷ []

-- The branch for DT_DIR; the last argument is what the recursive call does.
unfoldable pub directory_actions : Text → Bool → List Action → List Action
directory_actions dest true inner = make_dir dest ∷ count_dir ∷ inner
directory_actions dest false inner = make_dir dest ∷ []

-- `path_max` is PATH_MAX of <limits.h>.
module _ (path_max : ℕ) where
  -- `snprintf(path, sizeof(path), "%s/%s", dir, name)`
  unfoldable pub join : Text → Text → Text
  join dir name = take (path_max - 1) (dir ++ b'/' ∷ name)

  unfoldable mutual
    unfolding is_link regular_actions fifo_actions directory_actions

    pub process_directory : Dir → Text → Text → List Action
    process_directory unreadable src dest = []
    process_directory (listing entries) src dest = process_entries entries src dest

    pub process_entries : Entries → Text → Text → List Action
    process_entries nil src dest = []
    process_entries (cons e es) src dest = process_entry e src dest ++ process_entries es src dest

    pub process_entry : Entry → Text → Text → List Action
    process_entry (directory name made d) src dest =
        if is_link name
        then []
        else directory_actions (join dest name) made
            (process_directory d (join src name) (join dest name))
    process_entry (regular name s d) src dest =
        if is_link name then [] else regular_actions (join src name) (join dest name) s d
    process_entry (fifo name made) src dest =
        if is_link name then [] else fifo_actions (join dest name) made
    process_entry (other name) src dest = []
