-- ===== src/CopyTool/Walk/Paths.antt =====
-- The walk reads below the source directory and writes below the destination only.
use system_programming_cse.Common.{
  ℕ, zero, suc, ◌-◌, ◌<◌, ◌≤◌, ◌≡◌, refl, ap, Bool, true, false, if_lem, Option, none, some, List,
  [], ◌∷◌, ◌++◌, append_assoc, Text, arith, length, take, length-take, ◌∙◌,
}
use system_programming_cse.CopyTool.Walk.{
  Dir, unreadable, listing, Entries, nil, cons, Entry, directory, regular, fifo, other, Action,
  make_dir, open_read, open_write, make_fifo, is_link, join, regular_actions, fifo_actions,
  directory_actions, process_directory, process_entries, process_entry,
}

-- The path `p` begins with the bytes of the path `d`.
pub record Below (d p : Text) : Type 0 where
  pub rest : Text
  pub begins : p ≡ d ++ rest

-- The call reads below `src`, and creates or writes below `dest` only.
abbrev pub Stays : Text → Text → Action → Type 0
Stays src dest (make_dir p) = Below dest p
Stays src dest (open_read p r) = Below src p
Stays src dest (open_write p r) = Below dest p
Stays src dest (make_fifo p) = Below dest p
Stays src dest _ = Unit {0}

abbrev pub AllStay : Text → Text → List Action → Type 0
AllStay src dest [] = Unit {0}
AllStay src dest (a ∷ xs) = Stays src dest a × AllStay src dest xs

AllStay-append :
    (src dest : Text) (xs ys : List Action)
    → AllStay src dest xs
    → AllStay src dest ys
    → AllStay src dest (xs ++ ys)
AllStay-append src dest [] ys h k = k
AllStay-append src dest (a ∷ xs) ys (h₀, h) k = (h₀, AllStay-append src dest xs ys h k)

Below-trans : {d e p : Text} → Below d e → Below e p → Below d p
Below-trans {d} u v = record {
  rest = u.rest ++ v.rest;
  begins = v.begins ∙ ap (λ t. t ++ v.rest) u.begins ∙ append_assoc d u.rest v.rest;
}

Stays-mono :
    {src src' dest dest' : Text}
    → Below src src'
    → Below dest dest'
    → (a : Action) → Stays src' dest' a
    → Stays src dest a
Stays-mono s d (make_dir p) h = Below-trans d h
Stays-mono s d (open_read p r) h = Below-trans s h
Stays-mono s d (open_write p r) h = Below-trans d h
Stays-mono s d (make_fifo p) h = Below-trans d h
Stays-mono s d _ h = tt

AllStay-mono :
    {src dest src' dest' : Text}
    → Below src src'
    → Below dest dest'
    → (xs : List Action) → AllStay src' dest' xs
    → AllStay src dest xs
AllStay-mono s d [] h = tt
AllStay-mono s d (a ∷ xs) (h₀, h) = (Stays-mono s d a h₀, AllStay-mono s d xs h)

-- Cutting a text keeps a beginning that is no longer than the cut.
take-Below : (n : ℕ) (d r : Text) → length d ≤ n → Below d (take n (d ++ r))
take-Below n [] r h = record { rest = take n r; begins = refl }
take-Below zero (c ∷ d) r h = elim h [ ]
take-Below (suc n) (c ∷ d) r h =
    let b = take-Below n d r (omega arith) in
    record { rest = b.rest; begins = ap (λ t. c ∷ t) b.begins }

regular-AllStay :
    {src dest : Text} (p q : Text) (s d : Option ℕ)
    → Below src p
    → Below dest q
    → AllStay src dest (regular_actions p q s d)
unfolding regular_actions
regular-AllStay p q none d u v = (u, tt)
regular-AllStay p q (some s) none u v = (u, (v, (tt, tt)))
regular-AllStay p q (some s) (some d) u v = (u, (v, (tt, (tt, tt))))

fifo-AllStay :
    (src : Text) {dest : Text} (q : Text) (made : Bool)
    → Below dest q
    → AllStay src dest (fifo_actions q made)
unfolding fifo_actions
fifo-AllStay src q true v = (v, (tt, tt))
fifo-AllStay src q false v = (v, tt)

directory-AllStay :
    (src : Text) {dest : Text} (q : Text) (made : Bool) (inner : List Action)
    → Below dest q
    → AllStay src dest inner
    → AllStay src dest (directory_actions q made inner)
unfolding directory_actions
directory-AllStay src q true inner v h = (v, (tt, h))
directory-AllStay src q false inner v h = (v, tt)

module _ (path_max : ℕ) where
  join-Below : (dir name : Text) → length dir < path_max → Below dir (join path_max dir name)
  unfolding join
  join-Below dir name h = take-Below (path_max - 1) dir (b'/' ∷ name) (omega arith)

  join-fits : (dir name : Text) → length dir < path_max → length (join path_max dir name) < path_max
  unfolding join
  join-fits dir name h = omega (arith, length-take (path_max - 1) (dir ++ b'/' ∷ name))

  mutual
    unfolding process_directory process_entries process_entry

    stays_dir :
        (d : Dir) (src dest : Text)
        → length src < path_max
        → length dest < path_max
        → AllStay src dest (process_directory path_max d src dest)
    stays_dir unreadable src dest m n = tt
    stays_dir (listing es) src dest m n = stays_entries es src dest m n

    stays_entries :
        (es : Entries) (src dest : Text)
        → length src < path_max
        → length dest < path_max
        → AllStay src dest (process_entries path_max es src dest)
    stays_entries nil src dest m n = tt
    stays_entries (cons e es) src dest m n =
        AllStay-append src dest (process_entry path_max e src dest)
          (process_entries path_max es src dest) (stays_entry e src dest m n)
          (stays_entries es src dest m n)

    stays_entry :
        (e : Entry) (src dest : Text)
        → length src < path_max
        → length dest < path_max
        → AllStay src dest (process_entry path_max e src dest)
    stays_entry (directory name made d) src dest m n = if_lem (AllStay src dest) (is_link name) tt (
        directory-AllStay src (join path_max dest name) made
          (process_directory path_max d (join path_max src name) (join path_max dest name))
          (join-Below dest name n)
          (AllStay-mono (join-Below src name m) (join-Below dest name n)
            (process_directory path_max d (join path_max src name) (join path_max dest name))
            (stays_dir d (join path_max src name) (join path_max dest name) (join-fits src name m)
              (join-fits dest name n))))
    stays_entry (regular name s d) src dest m n = if_lem (AllStay src dest) (is_link name) tt (
        regular-AllStay (join path_max src name) (join path_max dest name) s d
          (join-Below src name m) (join-Below dest name n))
    stays_entry (fifo name made) src dest m n =
        if_lem (AllStay src dest) (is_link name) tt
          (fifo-AllStay src (join path_max dest name) made (join-Below dest name n))
    stays_entry (other name) src dest m n = tt

-- Where the two directories' paths fit PATH_MAX, every path that the walk opens for reading begins
-- with the source directory, and every path that it creates or writes with the destination.
pub process_directory-stays :
    (path_max : ℕ) (d : Dir) (src dest : Text)
    → length src < path_max
    → length dest < path_max
    → AllStay src dest (process_directory path_max d src dest)
process_directory-stays = stays_dir
