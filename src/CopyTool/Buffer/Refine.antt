-- ===== src/CopyTool/Buffer/Refine.antt =====
-- The circular buffer is a bounded queue of descriptor pairs.
use native.Mathlib.Nat.{mod-add-mod, mod-eq_of_lt, mod-eq-sub-mod}
use system_programming_cse.Common.{
  ℕ, zero, suc, ◌+◌, ◌-◌, ◌*◌, ◌%◌, ◌<◌, ◌≤◌, ◌≡◌, ◌≢◌, refl, sym, ap, ap₂, ◌∙◌, true, false, some,
  List, [], ◌∷◌, ◌++◌, arith, length, get_or, set, length-set, get_or-set_self, get_or-set_ne,
  dec_lt, ◌^◌,
}
use system_programming_cse.CopyTool.Buffer.{
  Buffer, Pair, create_buffer, is_full, add_pair, take_pair, IsValid,
}

-- The `n` pairs from index `h` on, going round at `cap`.
abbrev pub window : List ℕ → ℕ → ℕ → ℕ → List Pair
window xs cap h zero = []
window xs cap h (suc n) = (get_or xs h 0, get_or xs (h + 1) 0) ∷ window xs cap ((h + 2) % cap) n

-- The queue that a buffer stands for, the oldest pair first.
abbrev pub contents : Buffer → List Pair
contents b = window b.slots (b.max_size * 2) b.head b.count

pub length-window : (xs : List ℕ) (cap h n : ℕ) → length (window xs cap h n) ≡ n
length-window xs cap h zero = refl
length-window xs cap h (suc n) = ap suc (length-window xs cap ((h + 2) % cap) n)

-- Fewer than a full turn of steps of two does not come back to the start.
turn_ne :
    (m h k : ℕ)
    → h < m * 2
    → suc k < m
    → ((h + suc k * 2) % (m * 2) ≢ h)
      × (h % 2 ≡ 0 → ((h + suc k * 2) % (m * 2) + 1 ≢ h) × (h + 1 ≢ (h + suc k * 2) % (m * 2)))
turn_ne m h k hh hk = elim (dec_lt (h + suc k * 2) (m * 2)) [
  | yes p ↦ omega (arith, mod-eq_of_lt p)
  | no p ↦ omega (
    arith,
    mod-eq-sub-mod {n = h + suc k * 2} {m = m * 2} (omega arith),
    mod-eq_of_lt {n = h + suc k * 2 - m * 2} {m = m * 2} (omega arith),
  )
]

module _ (xs : List ℕ) (i a b : ℕ) where
  -- The array after the two stores of the manager at `i`.
  abbrev stored : List ℕ
  stored = set (set xs i a) (i + 1) b

  get_or-stored_ne : (j : ℕ) → i ≢ j → i + 1 ≢ j → get_or stored j 0 ≡ get_or xs j 0
  get_or-stored_ne j p q = get_or-set_ne (set xs i a) b 0 q ∙ get_or-set_ne xs a 0 p

  get_or-stored_fst : i < length xs → get_or stored i 0 ≡ a
  get_or-stored_fst h = get_or-set_ne (set xs i a) b 0 (omega arith) ∙ get_or-set_self xs i a 0 h

  get_or-stored_snd : i + 1 < length xs → get_or stored (i + 1) 0 ≡ b
  get_or-stored_snd h = get_or-set_self (set xs i a) (i + 1) b 0 (omega (arith, length-set xs i a))

shift : (h n c : ℕ) → (h + suc n * 2) % c ≡ ((h + 2) % c + n * 2) % c
shift h n c = rw mod-add-mod (ap (λ k. k % c) (omega arith))

-- Storing a pair just past a window extends it by that pair.
window-stored :
    (xs : List ℕ) (m a b n h i : ℕ)
    → m * 2 ≤ length xs
    → h < m * 2
    → h % 2 ≡ 0
    → n < m
    → i ≡ (h + n * 2) % (m * 2)
    → window (stored xs i a b) (m * 2) h (suc n) ≡ window xs (m * 2) h n ++ (a, b) ∷ []
window-stored xs m a b zero h i hs hh even hn e =
    let none_added : h + 0 * 2 ≡ h = omega arith in
    let e' : i ≡ h = e ∙ ap (λ k. k % (m * 2)) none_added ∙ mod-eq_of_lt hh in
    rw e' (
      ap₂ (λ u v. (u, v) ∷ []) (get_or-stored_fst xs h a b (omega arith))
        (get_or-stored_snd xs h a b (omega arith)))
window-stored xs m a b (suc n) h i hs hh even hn e =
    let (p, q) = turn_ne m h n hh hn in
    let (q₁, q₂) = q even in
    ap₂ (λ u v. u ∷ v)
      (ap₂ (λ u v. (u, v)) (get_or-stored_ne xs i a b h (rw e p) (rw e q₁))
        (get_or-stored_ne xs i a b (h + 1) (λ r. q₂ (sym r ∙ e)) (λ r. p (sym e ∙ omega arith))))
      (window-stored xs m a b n ((h + 2) % (m * 2)) i hs (omega arith) (omega arith) (omega arith)
        (e ∙ shift h n (m * 2)))

window_of_pos :
    (xs : List ℕ) (cap h n : ℕ)
    → 0 < n
    → window xs cap h n
      ≡ (get_or xs h 0, get_or xs (h + 1) 0) ∷ window xs cap ((h + 2) % cap) (n - 1)
window_of_pos xs cap h zero p = elim p [ ]
window_of_pos xs cap h (suc n) p =
    ap (λ k. (get_or xs h 0, get_or xs (h + 1) 0) ∷ window xs cap ((h + 2) % cap) k) (omega arith)

next_even : (h m : ℕ) → h < m * 2 → h % 2 ≡ 0 → (h + 2) % (m * 2) % 2 ≡ 0
next_even h m hh even = elim (dec_lt (h + 2) (m * 2)) [
  | yes p ↦ omega (arith, mod-eq_of_lt p)
  | no p ↦ omega (
    arith,
    mod-eq-sub-mod {n = h + 2} {m = m * 2} (omega arith),
    mod-eq_of_lt {n = h + 2 - m * 2} {m = m * 2} (omega arith),
  )
]

at_even : (h n m : ℕ) → h < m * 2 → h % 2 ≡ 0 → n < m → (h + n * 2) % (m * 2) % 2 ≡ 0
at_even h n m hh even hn = elim (dec_lt (h + n * 2) (m * 2)) [
  | yes p ↦ omega (arith, mod-eq_of_lt p)
  | no p ↦ omega (
    arith,
    mod-eq-sub-mod {n = h + n * 2} {m = m * 2} (omega arith),
    mod-eq_of_lt {n = h + n * 2 - m * 2} {m = m * 2} (omega arith),
  )
]

tail_next : (t h n c : ℕ) → t ≡ (h + n * 2) % c → (t + 2) % c ≡ (h + (n + 1) * 2) % c
tail_next t h n c e = rw e (rw mod-add-mod (ap (λ k. k % c) (omega arith)))

tail_kept : (t h n c : ℕ) → 0 < n → t ≡ (h + n * 2) % c → t ≡ ((h + 2) % c + (n - 1) * 2) % c
tail_kept t h n c pos e = e ∙ rw mod-add-mod (ap (λ k. k % c) (omega arith))

-- A buffer that `create_buffer` returns over an array of two numbers for each place is valid, empty
-- and of the size asked for, with the flag off and all its counters 0, if that size is positive and
-- small enough for an `int`.
pub create_buffer-IsValid :
    (slots : List ℕ) (size : ℕ) {b : Buffer}
    → 0 < size
    → size * 2 < 2 ^ 31
    → length slots ≡ size * 2
    → create_buffer true (some slots) size ≡ some b
    → IsValid b
      × (contents b ≡ [])
      × (b.max_size ≡ size)
      × (b.is_done ≡ false)
      × (b.num_regular_files + b.num_directories + b.num_fifo + b.total_bytes_copied ≡ 0)
unfolding create_buffer
create_buffer-IsValid slots size {b} pos small len e = ground arith

-- When the buffer is not full the manager writes inside the array, keeps it valid, and appends the
-- pair to the queue; the indices stay below 2 ^ 31 before the remainder is taken.
pub add_pair-appends :
    (p : Pair) (b : Buffer)
    → IsValid b
    → is_full b ≡ false
    → IsValid (add_pair p b)
      × (contents (add_pair p b) ≡ contents b ++ p ∷ [])
      × (b.tail + 1 < length b.slots)
      × (b.tail + 2 < 2 ^ 31)
unfolding add_pair
add_pair-appends (s, d) b v room =
    let at = at_even head count max_size v.head_in v.head_even below in
    (
      record {
        storage =
            omega (arith, length-set slots tail s, length-set (set slots tail s) (tail + 1) d);
        small = v.small;
        head_in = v.head_in;
        head_even = v.head_even;
        tail_at = tail_next tail head count (max_size * 2) v.tail_at;
        fits = omega (arith, below);
      },
      ap (window (stored slots tail s d) (max_size * 2) head) one_more
          ∙ window-stored slots max_size s d count head tail v.storage v.head_in v.head_even below
              v.tail_at,
      omega arith,
      omega arith,
    )
  where
    open b use {slots, head, tail, count, max_size}

    below : count < max_size
    below = ground arith

    one_more : count + 1 ≡ suc count
    one_more = omega arith

-- When the buffer is not empty a worker reads inside the array, keeps it valid, and takes the oldest
-- pair off the queue.
pub take_pair-takes :
    (b : Buffer)
    → IsValid b
    → 0 < b.count
    → IsValid (take_pair b).1
      × (contents b ≡ (take_pair b).0 ∷ contents (take_pair b).1)
      × (b.head + 1 < length b.slots)
      × (b.head + 2 < 2 ^ 31)
unfolding take_pair
take_pair-takes b v some_left = (
  record {
    storage = v.storage;
    small = v.small;
    head_in = omega arith;
    head_even = next_even head max_size v.head_in v.head_even;
    tail_at = tail_kept tail head count (max_size * 2) some_left v.tail_at;
    fits = omega arith;
  },
  window_of_pos slots (max_size * 2) head count some_left,
  omega arith,
  omega arith,
)
  where
    open b use {slots, head, tail, count, max_size}
