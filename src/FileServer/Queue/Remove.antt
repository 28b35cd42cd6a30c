-- ===== src/FileServer/Queue/Remove.antt =====
-- The loop of `remove_client`.
use system_programming_cse.Common.{
  ℕ, zero, suc, ◌+◌, ◌-◌, ◌<◌, ◌≡◌, ◌≢◌, ◌==◌, ==_false, refl, ◌∙◌, ap, true, false, Bool-cases,
  inl, inr, Option, none, some, [], ◌∷◌, arith, length, if◌then◌else◌,
}
use system_programming_cse.Heap.{Ptr, null, node, write, set_next}
use system_programming_cse.Heap.Chain.{
  Cells, first, last, has, Chain, Distinct, Chain-write, ne-last,
}
use system_programming_cse.FileServer.Queue.{
  Queue, relink, unlink, remove_loop, remove_client, IsQueue,
}

-- The cells without the first one that holds the client.
abbrev pub without : ℕ → Cells ℕ → Cells ℕ
without v [] = []
without v ((a, u) ∷ xs) = if u == v then xs else (a, u) ∷ without v xs

-- The address of that cell.
abbrev pub place : ℕ → Cells ℕ → Option Ptr
place v [] = none
place v ((a, u) ∷ xs) = if u == v then some a else place v xs

-- The part of `IsQueue` behind the node at `a`, which the loop has passed: in `q` the cells `xs`
-- stand there, in `r` the cells `ys`.
record Tail (q r : Queue) (a : Ptr) (u : ℕ) (ys xs : Cells ℕ) : Type 0 where
  chain : Chain r.heap ((a, u) ∷ ys)
  front : r.front ≡ q.front
  rear : r.rear ≡ last ys a
  size : r.size + length xs ≡ q.size + length ys
  same : (p : Ptr) → has p ((a, u) ∷ xs) ≡ false → r.heap p ≡ q.heap p

-- The client found behind the node `a`.
abbrev cut : Queue → Ptr → ℕ → Ptr → Ptr → Queue
cut q a u b next = record q {
  heap = write q.heap a (some (node u next));
  rear = if b == q.rear then a else q.rear;
  size = q.size - 1;
}

unlink-cut :
    (q : Queue) (a u b next : ℕ)
    → a ≢ null
    → q.heap a ≡ some (node u b)
    → unlink q a b next ≡ some (some b, cut q a u b next)
unfolding unlink relink set_next
unlink-cut q a u b next n e = ground arith

cut-rear :
    (q : Queue) (a u b w : ℕ) (xs : Cells ℕ)
    → has b xs ≡ false
    → q.rear ≡ last xs b
    → (if b == q.rear then a else q.rear) ≡ last xs a
cut-rear q a u b w [] d e = ground arith
cut-rear q a u b w ((c, y) ∷ xs) d e = ground (arith, ne-last xs c y b)

cut-Tail :
    (q : Queue) (a u b w : ℕ) (xs : Cells ℕ)
    → Chain q.heap ((a, u) ∷ (b, w) ∷ xs)
    → Distinct ((a, u) ∷ (b, w) ∷ xs)
    → q.rear ≡ last xs b
    → 0 < q.size
    → Tail q (cut q a u b (first xs null)) a u xs ((b, w) ∷ xs)
cut-Tail q a u b w xs s d e m = record {
  chain = (
    s.0,
    ground arith,
    Chain-write q.heap a (some (node u (first xs null))) xs s.2.2 (ground arith),
  );
  front = refl;
  rear = cut-rear q a u b w xs d.1.0 e;
  size = omega arith;
  same = λ p o. ground arith;
}

skip-Tail :
    (q r : Queue) (a u b w : ℕ) (ys xs : Cells ℕ)
    → Chain q.heap ((a, u) ∷ (b, w) ∷ xs)
    → Distinct ((a, u) ∷ (b, w) ∷ xs)
    → Tail q r b w ys xs
    → Tail q r a u ((b, w) ∷ ys) ((b, w) ∷ xs)
skip-Tail q r a u b w ys xs s d t = record {
  chain = (s.0, t.same a d.0 ∙ s.1, t.chain);
  front = t.front;
  rear = t.rear;
  size = omega (arith, t.size);
  same = λ p o. t.same p (ground arith);
}

remove_loop-Tail :
    (k : ℕ) (q : Queue) (v : ℕ) (xs : Cells ℕ) (a : Ptr) (u : ℕ)
    → Chain q.heap ((a, u) ∷ xs)
    → Distinct ((a, u) ∷ xs)
    → q.rear ≡ last xs a
    → length xs < k
    → length xs < q.size
    → (r : Queue) × (remove_loop k q v a (first xs null) ≡ some (place v xs, r))
      × Tail q r a u (without v xs) xs
unfolding remove_loop
remove_loop-Tail zero q v xs a u s d e n m = elim n [ ]
remove_loop-Tail (suc k) q v [] a u s d e n m =
    (q, refl, record { chain = s; front = refl; rear = e; size = refl; same = λ p o. refl })
remove_loop-Tail (suc k) q v ((b, w) ∷ xs) a u s d e n m = elim (Bool-cases (w == v)) [
  | inr other ↦
      let (r, f, t) = remove_loop-Tail k q v xs b w s.2 d.1 e (omega arith) (omega arith) in
      (r, ground arith, rw other (skip-Tail q r a u b w (without v xs) xs s d t))
  | inl hit ↦ (
    cut q a u b (first xs null),
    ground (arith, unlink-cut q a u b (first xs null)),
    rw hit (cut-Tail q a u b w xs s d e (omega arith)),
  )
]

-- The cells that stay are still distinct.
has-without : (v : ℕ) (xs : Cells ℕ) (p : Ptr) → has p xs ≡ false → has p (without v xs) ≡ false
has-without v [] p o = refl
has-without v ((a, u) ∷ xs) p o = ground (arith, has-without v xs p)

Distinct-without : (v : ℕ) (xs : Cells ℕ) → Distinct xs → Distinct (without v xs)
Distinct-without v [] d = tt
Distinct-without v ((a, u) ∷ xs) d = elim (Bool-cases (u == v)) [
  | inl hit ↦ rw hit d.1
  | inr miss ↦ rw miss (has-without v xs a d.0, Distinct-without v xs d.1)
]

remove_client-loop :
    (q : Queue) (v : ℕ) → 0 < q.size → remove_client q v ≡ remove_loop (suc q.size) q v null q.front
unfolding remove_client
remove_client-loop q v n =
    let e : q.size + 1 ≡ suc q.size = omega arith in
    rw (==_false q.size 0 (omega arith)) (ap (λ k. remove_loop k q v null q.front) e)

remove_client-empty : (q : Queue) (v : ℕ) → q.size ≡ 0 → remove_client q v ≡ some (none, q)
unfolding remove_client
remove_client-empty q v e = ground arith

remove_loop-hit :
    (k : ℕ) (q : Queue) (v prev a u next : ℕ)
    → a ≢ null
    → q.heap a ≡ some (node u next)
    → (u == v) ≡ true
    → remove_loop (suc k) q v prev a ≡ unlink q prev a next
unfolding remove_loop
remove_loop-hit k q v prev a u next n e hit = ground arith

remove_loop-miss :
    (k : ℕ) (q : Queue) (v prev a u next : ℕ)
    → a ≢ null
    → q.heap a ≡ some (node u next)
    → (u == v) ≡ false
    → remove_loop (suc k) q v prev a ≡ remove_loop k q v a next
unfolding remove_loop
remove_loop-miss k q v prev a u next n e miss = ground arith

-- The client found at the front.
abbrev shifted : Queue → Ptr → Ptr → Queue
shifted q a next = record q {
  front = next;
  rear = if a == q.rear then null else q.rear;
  size = q.size - 1;
}

unlink-shifted : (q : Queue) (a next : ℕ) → unlink q null a next ≡ some (some a, shifted q a next)
unfolding unlink relink
unlink-shifted q a next = refl

-- `remove_client` ends without a fault: it takes the first node with the client out of the queue
-- and returns it, or NULL if there is none, and keeps all others in their order.
pub remove_client-without :
    (q : Queue) (v : ℕ) (xs : Cells ℕ)
    → IsQueue q xs
    → (r : Queue) × (remove_client q v ≡ some (place v xs, r)) × IsQueue r (without v xs)
remove_client-without q v [] i = (q, remove_client-empty q v i.size, i)
remove_client-without q v ((a, u) ∷ xs) i = elim (Bool-cases (u == v)) [
  | inl hit ↦ (
    shifted q a (first xs null),
    started i
        ∙ remove_loop-hit q.size q v null a u (first xs null) i.chain.0 i.chain.1 hit
        ∙ unlink-shifted q a (first xs null)
        ∙ rw hit refl,
    rw hit (record {
      chain = i.chain.2;
      distinct = i.distinct.1;
      front = refl;
      rear = cut-rear q null u a u xs i.distinct.0 i.rear;
      size = omega arith;
    }),
  )
  | inr miss ↦
      let (r, e, t) =
        remove_loop-Tail q.size q v xs a u i.chain i.distinct i.rear (omega arith) (omega arith) in
      (
        r,
        started i
            ∙ remove_loop-miss q.size q v null a u (first xs null) i.chain.0 i.chain.1 miss
            ∙ e
            ∙ rw miss refl,
        rw miss (record {
          chain = t.chain;
          distinct = (has-without v xs a i.distinct.0, Distinct-without v xs i.distinct.1);
          front = t.front ∙ i.front;
          rear = t.rear;
          size = omega (arith, t.size);
        }),
      )
]
  where
    started : IsQueue q ((a, u) ∷ xs) → remove_client q v ≡ remove_loop (suc q.size) q v null a
    started i =
        remove_client-loop q v (omega arith) ∙ ap (remove_loop (suc q.size) q v null) i.front
