-- ===== src/CopyTool/Buffer/Tests.antt =====
-- A buffer of two pairs, as the code fills and empties it.
use system_programming_cse.Common.{
  ℕ, ◌+◌, ◌<◌, ◌^◌, ◌≡◌, refl, true, false, some, List, [], ◌∷◌, ◌++◌, arith, length,
}
use system_programming_cse.CopyTool.Buffer.{Buffer, create_buffer, add_pair, take_pair, IsValid}
use system_programming_cse.CopyTool.Buffer.Refine.{
  contents, create_buffer-IsValid, add_pair-appends, take_pair-takes,
}

abbrev pub slots : List ℕ
slots = 7 ∷ 7 ∷ 7 ∷ 7 ∷ []

abbrev pub empty_buffer : Buffer
empty_buffer = record {
  slots = slots;
  head = 0;
  tail = 0;
  max_size = 2;
  count = 0;
  num_regular_files = 0;
  num_directories = 0;
  num_fifo = 0;
  total_bytes_copied = 0;
  is_done = false;
}

-- One pair, at the end of the array: the next place is at its start.
abbrev wrapped : Buffer
wrapped = record empty_buffer { slots = 1 ∷ 2 ∷ 3 ∷ 4 ∷ []; head = 2; tail = 0; count = 1 }

wrapped-IsValid : IsValid wrapped
wrapped-IsValid = omega arith

pub created : create_buffer true (some slots) 2 ≡ some empty_buffer
unfolding create_buffer
created = refl

wrapped-contents : contents (add_pair (5, 6) wrapped) ≡ (3, 4) ∷ (5, 6) ∷ []
unfolding add_pair
wrapped-contents = refl

create_buffer-IsValid_example :
    IsValid empty_buffer
    × (contents empty_buffer ≡ [])
    × (empty_buffer.max_size ≡ 2)
    × (empty_buffer.is_done ≡ false)
    × (◌≡◌ {A = ℕ} (0 + 0 + 0 + 0) 0)
create_buffer-IsValid_example =
    create_buffer-IsValid slots 2 (omega arith) (omega arith) refl created

add_pair-appends_example :
    IsValid (add_pair (5, 6) wrapped)
    × (contents (add_pair (5, 6) wrapped) ≡ contents wrapped ++ (5, 6) ∷ [])
    × (wrapped.tail + 1 < length wrapped.slots)
    × (wrapped.tail + 2 < 2 ^ 31)
add_pair-appends_example = add_pair-appends (5, 6) wrapped wrapped-IsValid refl

take_pair-takes_example :
    IsValid (take_pair wrapped).1
    × (contents wrapped ≡ (take_pair wrapped).0 ∷ contents (take_pair wrapped).1)
    × (wrapped.head + 1 < length wrapped.slots)
    × (wrapped.head + 2 < 2 ^ 31)
take_pair-takes_example = take_pair-takes wrapped wrapped-IsValid (omega arith)
