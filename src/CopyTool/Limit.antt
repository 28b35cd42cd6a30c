-- ===== src/CopyTool/Limit.antt =====
-- Homework4/hw4.h: `process_directory` of the earlier version, which ends the program when it has no descriptor left
-- for a source. The other calls are those of Homework5, whose names are used.
pub mod Prefix
pub mod Main
mod Tests
use system_programming_cse.Common.{
  ℕ, Bool, true, false, Option, none, some, List, [], ◌∷◌, ◌++◌, if◌then◌else◌, Text,
}
use system_programming_cse.CopyTool.Walk.{
  Action, make_dir, count_dir, open_read, open_write, close, put, count_file, make_fifo, count_fifo,
  is_link, join,
}

-- What `open` of a source returns: a descriptor, an error, or EMFILE.
pub data Opened : Type 0 where
  descriptor : ℕ → Opened
  refused exhausted : Opened

-- A directory as in Homework5, with what `open` of a source returns.
mutual
  pub data Dir : Type 0 where
    unreadable : Dir
    listing : Entries → Dir

  pub data Entries : Type 0 where
    nil : Entries
    cons : Entry → Entries → Entries

  pub data Entry : Type 0 where
    directory : Text → Bool → Dir → Entry
    regular : Text → Opened → Option ℕ → Entry
    fifo : Text → Bool → Entry
    other : Text → Entry

-- The calls of a part of the walk, and whether it has ended the program.
pub record Walked : Type 0 where
  pub actions : List Action
  pub ended : Bool

abbrev walked : List Action → Walked
walked actions = record { actions = actions; ended = false }

-- What follows is not done if the program has ended.
abbrev pub and_then : Walked → Walked → Walked
and_then w next =
    if w.ended then w else record { actions = w.actions ++ next.actions; ended = next.ended }

regular_actions : Text → Text → Opened → Option ℕ → Walked
regular_actions src dest exhausted dest_fd = record {
  actions = open_read src none ∷ [];
  ended = true;
}
regular_actions src dest refused dest_fd = walked (open_read src none ∷ [])
regular_actions src dest (descriptor s) none =
    walked (open_read src (some s) ∷ open_write dest none ∷ close s ∷ [])
regular_actions src dest (descriptor s) (some d) =
    walked (open_read src (some s) ∷ open_write dest (some d) ∷ put (s, d) ∷ count_file ∷ [])

fifo_actions : Text → Bool → Walked
fifo_actions dest true = walked (make_fifo dest ∷ count_fifo ∷ [])
fifo_actions dest false = walked (make_fifo dest ∷ [])

directory_actions : Text → Bool → Walked → Walked
directory_actions dest true inner = and_then (walked (make_dir dest ∷ count_dir ∷ [])) inner
directory_actions dest false inner = walked (make_dir dest ∷ [])

module _ (path_max : ℕ) where
  unfoldable mutual
    unfolding regular_actions fifo_actions directory_actions

    pub process_directory : Dir → Text → Text → Walked
    process_directory unreadable src dest = walked []
    process_directory (listing entries) src dest = process_entries entries src dest

    pub process_entries : Entries → Text → Text → Walked
    process_entries nil src dest = walked []
    process_entries (cons e es) src dest =
        and_then (process_entry e src dest) (process_entries es src dest)

    pub process_entry : Entry → Text → Text → Walked
    process_entry (directory name made d) src dest =
        if is_link name
        then walked []
        else directory_actions (join path_max dest name) made
            (process_directory d (join path_max src name) (join path_max dest name))
    process_entry (regular name s d) src dest =
        if is_link name
        then walked []
        else regular_actions (join path_max src name) (join path_max dest name) s d
    process_entry (fifo name made) src dest =
        if is_link name then walked [] else fifo_actions (join path_max dest name) made
    process_entry (other name) src dest = walked []
