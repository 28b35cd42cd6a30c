-- ===== src/CopyTool/Threads/Invariant.antt =====
-- What every step of every thread keeps.
use system_programming_cse.Common.{
  subst, ℕ, zero, suc, ◌+◌, ◌<◌, ◌≡◌, ◌≢◌, refl, sym, ◌∙◌, ap, true, false, Bool-cases, ◌⊎◌, inl,
  inr, some, List, [], ◌∷◌, ◌++◌, append_assoc, append-nil, arith, get_elem?, set, ℕ_discrete,
}
use system_programming_cse.CopyTool.Buffer.{Buffer, Pair, is_full, add_pair, take_pair, IsValid}
use system_programming_cse.CopyTool.Buffer.Refine.{contents, add_pair-appends, take_pair-takes}
use system_programming_cse.CopyTool.Walk.{Action, put}
use system_programming_cse.CopyTool.Walk.Descriptors.{
  puts, files_counted, puts-append, files_counted-append,
}
use system_programming_cse.CopyTool.Threads.{
  apply, set_done, Worker, looking, copying, finished, look, add_bytes, System, pairs_of, Step,
  manage, manager_ends, worker_looks, worker_copies, worker_closes, Reach, here, next, begin,
  AllLooking,
}

-- `plan` is all that the manager does.
pub record Inv (plan : List Action) (s : System) : Type 0 where
  pub valid : IsValid s.buffer
  pub roomy : 0 < s.buffer.max_size
  pub queue : s.handed ++ contents s.buffer ++ puts s.todo ≡ puts plan
  pub counted : s.buffer.num_regular_files + files_counted s.todo ≡ files_counted plan
  pub ended : s.buffer.is_done ≡ true → s.todo ≡ []
  pub over :
      (i : ℕ)
      → get_elem? s.workers i ≡ some finished
      → (s.buffer.is_done ≡ true) × (s.buffer.count ≡ 0)

-- What an action of the manager does to the queue, the counter and the flag.
record Applied (a : Action) (b c : Buffer) : Type 0 where
  valid : IsValid c
  size : c.max_size ≡ b.max_size
  queue : contents c ≡ contents b ++ puts (a ∷ [])
  counted : c.num_regular_files ≡ b.num_regular_files + files_counted (a ∷ [])
  flag : c.is_done ≡ b.is_done

unchanged : {b : Buffer} → IsValid b → contents b ≡ contents b ++ []
unchanged {b} v = sym (append-nil (contents b))

put-Applied :
    (p : Pair) (b : Buffer) → IsValid b → is_full b ≡ false → Applied (put p) b (add_pair p b)
unfolding add_pair
put-Applied p b v room =
    let (valid, queue, _, _) = add_pair-appends p b v room in
    record { valid = valid; size = refl; queue = queue; counted = omega arith; flag = refl }

apply-Applied :
    (a : Action) (b : Buffer) {c : Buffer} → IsValid b → apply a b ≡ some c → Applied a b c
unfolding apply
apply-Applied (put p) b {c} v e = elim (Bool-cases (is_full b)) [
  | inl full ↦ absurd (ground arith)
  | inr room ↦
      let e' : add_pair p b ≡ c = ground arith in
      subst (Applied (put p) b) e' (put-Applied p b v room)
]
apply-Applied a b v e = ground (arith, unchanged v)

-- What a worker that does not wait does.
record Looked (b : Buffer) (w : Worker) (c : Buffer) : Type 0 where
  valid : IsValid c
  size : c.max_size ≡ b.max_size
  queue : contents b ≡ pairs_of w ++ contents c
  counted : c.num_regular_files ≡ b.num_regular_files
  flag : c.is_done ≡ b.is_done
  fewer : b.count ≡ 0 → c.count ≡ 0
  over : w ≡ finished → (c.is_done ≡ true) × (c.count ≡ 0)

take-Looked :
    (b : Buffer) → IsValid b → b.count ≢ 0 → Looked b (copying (take_pair b).0) (take_pair b).1
unfolding take_pair
take-Looked b v some_left =
    let (valid, queue, _, _) = take_pair-takes b v (omega arith) in
    record {
      valid = valid;
      size = refl;
      queue = queue;
      counted = refl;
      flag = refl;
      fewer = λ z. absurd (some_left z);
      over = λ e. absurd (ground arith);
    }

look-Looked :
    (b : Buffer) {w : Worker} {c : Buffer} → IsValid b → look b ≡ some (w, c) → Looked b w c
unfolding look
look-Looked b v e = elim (ℕ_discrete b.count 0) [
  | yes z ↦ ground arith
  | no z ↦ ground (arith, take-Looked b v z)
]

puts-cons : (a : Action) (xs : List Action) → puts (a ∷ xs) ≡ puts (a ∷ []) ++ puts xs
puts-cons a xs = puts-append (a ∷ []) xs

files_counted-cons :
    (a : Action) (xs : List Action)
    → files_counted (a ∷ xs) ≡ files_counted (a ∷ []) + files_counted xs
files_counted-cons a xs = files_counted-append (a ∷ []) xs

-- A cell of a list that was written to, read back, holds what was written or what it held.
get_elem?-set_cases {ℓ} :
    {A : Type ℓ} (xs : List A) (i j : ℕ) (v : A) {x : A}
    → get_elem? (set xs i v) j ≡ some x
    → (v ≡ x) ⊎ (get_elem? xs j ≡ some x)
get_elem?-set_cases [] i j v e = inr e
get_elem?-set_cases (y ∷ ys) zero zero v e = inl (ground arith)
get_elem?-set_cases (y ∷ ys) zero (suc j) v e = inr e
get_elem?-set_cases (y ∷ ys) (suc i) zero v e = inr e
get_elem?-set_cases (y ∷ ys) (suc i) (suc j) v e = get_elem?-set_cases ys i j v e

regroup {ℓ} : {A : Type ℓ} (h c p r : List A) → h ++ (c ++ p) ++ r ≡ h ++ c ++ (p ++ r)
regroup h c p r = simp append_assoc

module _ {plan : List Action} {s : System} (v : Inv plan s) where
  manage-Inv :
      {a : Action} {rest : List Action} {b : Buffer}
      → s.todo ≡ a ∷ rest
      → Applied a s.buffer b
      → Inv plan (record s { buffer = b; todo = rest })
  manage-Inv {a} {rest} {b} e p = record {
    valid = p.valid;
    roomy = omega (arith, p.size);
    queue =
        ap (λ c. s.handed ++ c ++ puts rest) p.queue
        ∙ regroup s.handed (contents s.buffer) (puts (a ∷ [])) (puts rest)
        ∙ ap (λ q. s.handed ++ contents s.buffer ++ q) (sym (puts-cons a rest) ∙ ap puts (sym e))
        ∙ v.queue;
    counted = ground (arith, files_counted-cons a rest);
    ended = λ d. absurd (ground arith);
    over = λ i h. absurd (ground (arith, v.ended (v.over i h).0));
  }

  look-Inv :
      (i : ℕ) {w : Worker} {b : Buffer}
      → Looked s.buffer w b
      → Inv plan
          (record s { buffer = b; workers = set s.workers i w; handed = s.handed ++ pairs_of w })
  look-Inv i {w} {b} p = record {
    valid = p.valid;
    roomy = omega (arith, p.size);
    queue =
        ap (λ t. t ++ puts s.todo) (append_assoc s.handed (pairs_of w) (contents b))
        ∙ ap (λ c. s.handed ++ c ++ puts s.todo) (sym p.queue)
        ∙ v.queue;
    counted = omega arith;
    ended = λ d. v.ended (sym p.flag ∙ d);
    over = λ j h. elim (get_elem?-set_cases s.workers i j w h) [
      | inl e ↦ p.over e
      | inr old ↦ let (d, z) = v.over j old in (p.flag ∙ d, p.fewer z)
    ];
  }

  ends-Inv : s.todo ≡ [] → Inv plan (record s { buffer = set_done s.buffer })
  unfolding set_done
  ends-Inv e = record {
    valid = ground (arith, v.valid);
    roomy = v.roomy;
    queue = v.queue;
    counted = v.counted;
    ended = λ d. e;
    over = λ i h. (refl, (v.over i h).1);
  }

  copies-Inv : (n : ℕ) → Inv plan (record s { buffer = add_bytes n s.buffer })
  unfolding add_bytes
  copies-Inv n = record {
    valid = ground (arith, v.valid);
    roomy = v.roomy;
    queue = v.queue;
    counted = v.counted;
    ended = v.ended;
    over = v.over;
  }

  closes-Inv : (i : ℕ) → Inv plan (record s { workers = set s.workers i looking })
  closes-Inv i = record {
    valid = v.valid;
    roomy = v.roomy;
    queue = v.queue;
    counted = v.counted;
    ended = v.ended;
    over = λ j h. elim (get_elem?-set_cases s.workers i j looking h) [
      | inl e ↦ absurd (ground arith)
      | inr old ↦ v.over j old
    ];
  }

-- Every critical section of every thread keeps the invariant.
pub Step-Inv : {plan : List Action} {s t : System} → Step s t → Inv plan s → Inv plan t
Step-Inv {s} (manage {a} {b = b} e f) v = manage-Inv v e (apply-Applied a s.buffer v.valid f)
Step-Inv (manager_ends e f) v = ends-Inv v e
Step-Inv {s} (worker_looks i e f) v = look-Inv v i (look-Looked s.buffer v.valid f)
Step-Inv (worker_copies i n e pos) v = copies-Inv v n
Step-Inv (worker_closes i e) v = closes-Inv v i

not-finished : (ws : List Worker) (i : ℕ) → AllLooking ws → get_elem? ws i ≡ some finished → ⊥
not-finished [] i h e = ground arith
not-finished (w ∷ ws) zero h e = ground arith
not-finished (w ∷ ws) (suc i) h e = not-finished ws i h.1 e

pub begin-Inv :
    (b : Buffer) (plan : List Action) (ws : List Worker)
    → IsValid b
    → 0 < b.max_size
    → contents b ≡ []
    → b.num_regular_files ≡ 0
    → b.is_done ≡ false
    → AllLooking ws
    → Inv plan (begin b plan ws)
begin-Inv b plan ws v roomy none_yet zero_yet not_yet l = record {
  valid = v;
  roomy = roomy;
  queue = ap (λ c. [] ++ c ++ puts plan) none_yet;
  counted = omega arith;
  ended = λ d. absurd (ground arith);
  over = λ i h. absurd (not-finished ws i l h);
}

pub Reach-Inv : {plan : List Action} {s t : System} → Inv plan s → Reach s t → Inv plan t
Reach-Inv v here = v
Reach-Inv v (next r st) = Step-Inv st (Reach-Inv v r)
