-- ===== src/CopyTool/Buffer.antt =====
-- `buffer_t` of hw5.c: the circular buffer of descriptor pairs and the statistics beside it.
pub mod Refine
pub mod Tests
use system_programming_cse.Common.{
  ℕ, ◌+◌, ◌-◌, ◌*◌, ◌%◌, ◌^◌, ◌<◌, ◌≤◌, ◌≡◌, ◌==◌, Bool, true, false, Option, none, some, List,
  if◌then◌else◌, length, get_or, set,
}

-- `slots` is the array `buffer`; a successful `open` returns no negative number.
pub record Buffer : Type 0 where
  pub slots : List ℕ
  pub head : ℕ
  pub tail : ℕ
  pub max_size : ℕ
  pub count : ℕ
  pub num_regular_files : ℕ
  pub num_directories : ℕ
  pub num_fifo : ℕ
  pub total_bytes_copied : ℕ
  pub is_done : Bool

-- A source descriptor and a destination descriptor.
abbrev pub Pair : Type 0
Pair = ℕ × ℕ

fresh : List ℕ → ℕ → Buffer
fresh slots size = record {
  slots = slots;
  head = 0;
  tail = 0;
  max_size = size;
  count = 0;
  num_regular_files = 0;
  num_directories = 0;
  num_fifo = 0;
  total_bytes_copied = 0;
  is_done = false;
}

-- `create_buffer`: the first two arguments are what the two calls of `malloc` return; `none` is
-- the exit of the process.
unfoldable pub create_buffer : Bool → Option (List ℕ) → ℕ → Option Buffer
unfolding fresh
create_buffer false storage size = none
create_buffer true none size = none
create_buffer true (some slots) size = some (fresh slots size)

-- The test of the manager's wait, in `process_directory`.
abbrev pub is_full : Buffer → Bool
is_full b = b.count == b.max_size

-- What the manager does to the buffer when it is not full.
unfoldable pub add_pair : Pair → Buffer → Buffer
add_pair (src_fd, dest_fd) b = record b {
  slots = set (set b.slots b.tail src_fd) (b.tail + 1) dest_fd;
  tail = (b.tail + 2) % (b.max_size * 2);
  count = b.count + 1;
}

-- What a worker takes when the buffer is not empty. Reads out of range are excluded by `IsValid`.
unfoldable pub take_pair : Buffer → Pair × Buffer
take_pair b = (
  (get_or b.slots b.head 0, get_or b.slots (b.head + 1) 0),
  record b { head = (b.head + 2) % (b.max_size * 2); count = b.count - 1 },
)

-- The bound `small` keeps every `int` that the code computes below 2 ^ 31.
pub record IsValid (b : Buffer) : Type 0 where
  pub storage : b.max_size * 2 ≤ length b.slots
  pub small : b.max_size * 2 < 2 ^ 31
  pub head_in : b.head < b.max_size * 2
  pub head_even : b.head % 2 ≡ 0
  pub tail_at : b.tail ≡ (b.head + b.count * 2) % (b.max_size * 2)
  pub fits : b.count ≤ b.max_size
