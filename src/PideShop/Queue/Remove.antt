-- ===== src/PideShop/Queue/Remove.antt =====
-- The cancel of an order in the linked queue is the cancel in the list of its orders.
use system_programming_cse.Common.{
  ℕ, zero, suc, ◌+◌, ◌≡◌, ◌≢◌, ◌<◌, ◌≤◌, ◌==◌, refl, sym, ◌∙◌, ap, true, false, Bool-cases, inl,
  inr, none, some, List, [], ◌∷◌, ◌++◌, append_assoc, append-nil, arith, length,
}
use system_programming_cse.Heap.{Ptr, null, Heap, write}
use system_programming_cse.Heap.Chain.{Cells, values, values-append}
use system_programming_cse.PideShop.Orders.{Order, remove_order}
use system_programming_cse.PideShop.Queue.{
  Queue, init_queue, is_empty, dequeue, split_loop, return_loop, remove_order_from_queue, IsQueue,
}
use system_programming_cse.PideShop.Queue.Fifo.{enqueue-IsQueue, dequeue-IsQueue}

abbrev pub AllOther : Ptr → List Ptr → Type 0
AllOther p [] = Unit {0}
AllOther p (q ∷ qs) = (q ≢ p) × AllOther p qs

-- Addresses that `malloc` can return one after another: they are free in the heap, and none comes twice.
abbrev pub Supply : Heap Order → List Ptr → Type 0
Supply h [] = Unit {0}
Supply h (p ∷ ps) = (p ≢ null) × (h p ≡ none) × AllOther p ps × Supply h ps

-- The heap when the nodes of some cells have been freed.
abbrev pub freed : Heap Order → Cells Order → Heap Order
freed h [] = h
freed h ((a, o) ∷ xs) = freed (write h a none) xs

Supply-keeps :
    (h g : Heap Order) (p : Ptr) (ps : List Ptr)
    → ((s : Ptr) → s ≢ p → h s ≡ none → g s ≡ none)
    → AllOther p ps
    → Supply h ps
    → Supply g ps
Supply-keeps h g p [] keep others s = tt
Supply-keeps h g p (q ∷ qs) keep (n, others) (solid, free, apart, s) =
    (solid, keep q n free, apart, Supply-keeps h g p qs keep others s)

stays_supplied :
    (h g : Heap Order) (ps : List Ptr)
    → ((s : Ptr) → h s ≡ none → g s ≡ none)
    → Supply h ps
    → Supply g ps
stays_supplied h g [] keep s = tt
stays_supplied h g (q ∷ qs) keep (solid, free, apart, s) =
    (solid, keep q free, apart, stays_supplied h g qs keep s)

dequeue_nothing : (q : Queue) → IsQueue q [] → dequeue q ≡ some (none, q)
unfolding dequeue is_empty
dequeue_nothing q i = ground (arith, i.head)

return_loop-IsQueue :
    (ts xs : Cells Order) (temp q : Queue) (k : ℕ) (rs : List Ptr)
    → IsQueue temp ts
    → IsQueue q xs
    → Supply q.heap rs
    → length ts ≤ length rs
    → length ts < k
    → (r : Queue) × (ys : Cells Order) × (return_loop k rs temp q ≡ some r)
      × IsQueue r ys
      × (values ys ≡ values xs ++ values ts)
unfolding return_loop
return_loop-IsQueue ts xs temp q zero rs it iq supply enough fuel = absurd omega arith
return_loop-IsQueue [] xs temp q (suc k) rs it iq supply enough fuel =
    (q, xs, rw (dequeue_nothing temp it, return_loop) refl, iq, sym (append-nil (values xs)))
return_loop-IsQueue (c ∷ ts) xs temp q (suc k) [] it iq supply enough fuel = absurd omega arith
return_loop-IsQueue ((a, o) ∷ ts) xs temp q (suc k) (p ∷ rs) it iq (solid, free, others, supply)
      enough fuel =
    let (rest, taken, ir, e) = dequeue-IsQueue temp a o ts it in
    let (more, put, im, keep) = enqueue-IsQueue p o q xs iq solid free in
    let (r, ys, done, iy, v) =
      return_loop-IsQueue ts (xs ++ (p, o) ∷ []) rest more k rs ir im
        (Supply-keeps q.heap more.heap p rs keep others supply) (omega (arith, enough))
        (omega (arith, fuel)) in
    let first : return_loop (suc k) (p ∷ rs) temp q ≡ return_loop k rs rest more =
      rw (taken, put, return_loop) refl in
    (
      r,
      ys,
      first ∙ done,
      iy,
      v
          ∙ ap (λ l. l ++ values ts) (values-append xs p o)
          ∙ append_assoc (values xs) (o ∷ []) (values ts),
    )

remove_order_same :
    (id : ℕ) (o : Order) (os : List Order)
    → (o.order_id == id) ≡ true
    → remove_order id (o ∷ os) ≡ remove_order id os
unfolding remove_order
remove_order_same id o os e = rw e refl

remove_order_other :
    (id : ℕ) (o : Order) (os : List Order)
    → (o.order_id == id) ≡ false
    → remove_order id (o ∷ os) ≡ o ∷ remove_order id os
unfolding remove_order
remove_order_other id o os e = rw e refl

remove_order-length : (id : ℕ) (os : List Order) → length (remove_order id os) ≤ length os
unfolding remove_order
remove_order-length id [] = omega arith
remove_order-length id (o ∷ os) = ground (arith, remove_order-length id os)

length-values : (xs : Cells Order) → length (values xs) ≡ length xs
length-values [] = refl
length-values ((a, o) ∷ xs) = omega (arith, length-values xs)

-- What the first loop is to leave.
abbrev Splits : (k : ℕ) (ps : List Ptr) (id : ℕ) (xs ts : Cells Order) (q temp : Queue) → Type 0
Splits k ps id xs ts q temp =
    (r t : Queue) × (ys : Cells Order) × (split_loop k ps id q temp ≡ some (r, t))
    × IsQueue r []
    × IsQueue t ys
    × (values ys ≡ values ts ++ remove_order id (values xs))
    × ((s : Ptr) → freed q.heap xs s ≡ none → r.heap s ≡ none)

split_loop-Splits :
    (xs ts : Cells Order) (q temp : Queue) (k id : ℕ) (ps : List Ptr)
    → IsQueue q xs
    → IsQueue temp ts
    → Supply temp.heap ps
    → length xs ≤ length ps
    → length xs < k
    → Splits k ps id xs ts q temp
unfolding split_loop remove_order
split_loop-Splits xs ts q temp zero id ps iq it supply enough fuel = absurd omega arith
split_loop-Splits [] ts q temp (suc k) id ps iq it supply enough fuel = (
  q,
  temp,
  ts,
  rw (dequeue_nothing q iq, split_loop) refl,
  iq,
  it,
  sym (append-nil (values ts)),
  λ s h. h,
)
split_loop-Splits (c ∷ xs) ts q temp (suc k) id [] iq it supply enough fuel = absurd omega arith
split_loop-Splits ((a, o) ∷ xs) ts q temp (suc k) id (p ∷ ps) iq it (solid, free, others, supply)
      enough fuel =
    let (rest, taken, ir, e) = dequeue-IsQueue q a o xs iq in
    let left_free : (s : Ptr)
        → freed (write q.heap a none) xs s ≡ none
        → freed rest.heap xs s ≡ none =
      λ s h. ap (λ g. freed g xs s) e ∙ h in
    elim (Bool-cases (o.order_id == id)) [
      | inl same ↦
          let (r, t, ys, done, ie, iy, v, keep) =
            split_loop-Splits xs ts rest temp k id (p ∷ ps) ir it (solid, free, others, supply)
              (omega (arith, enough)) (omega (arith, fuel)) in
          let first : split_loop (suc k) (p ∷ ps) id q temp ≡ split_loop k (p ∷ ps) id rest temp =
            rw (taken, same, split_loop) refl in
          (
            r,
            t,
            ys,
            first ∙ done,
            ie,
            iy,
            v ∙ ap (λ l. values ts ++ l) (sym (remove_order_same id o (values xs) same)),
            λ s h. keep s (left_free s h),
          )
      | inr other ↦
          let (more, put, im, still) = enqueue-IsQueue p o temp ts it solid free in
          let (r, t, ys, done, ie, iy, v, keep) =
            split_loop-Splits xs (ts ++ (p, o) ∷ []) rest more k id ps ir im
              (Supply-keeps temp.heap more.heap p ps still others supply) (omega (arith, enough))
              (omega (arith, fuel)) in
          let first : split_loop (suc k) (p ∷ ps) id q temp ≡ split_loop k ps id rest more =
            rw (taken, other, put, split_loop) refl in
          let left = remove_order id (values xs) in
          let kept =
            v
            ∙ ap (λ l. l ++ left) (values-append ts p o)
            ∙ append_assoc (values ts) (o ∷ []) left
            ∙ ap (λ l. values ts ++ l) (sym (remove_order_other id o (values xs) other)) in
          (r, t, ys, first ∙ done, ie, iy, kept, λ s h. keep s (left_free s h))
    ]

-- If `malloc` returns nodes that are not in use, where those of the queue, which are freed first, may come
-- again for the orders that are put back, the cancel of an order ends, without a fault, and leaves in the
-- queue the orders with another id, in their order.
pub remove_order_from_queue-remove_order :
    (ps rs : List Ptr) (q : Queue) (xs : Cells Order) (id : ℕ)
    → IsQueue q xs
    → Supply (λ p. none) ps
    → Supply (freed q.heap xs) rs
    → length xs ≤ length ps
    → length xs ≤ length rs
    → (r : Queue) × (ys : Cells Order) × (remove_order_from_queue ps rs q id ≡ some r)
      × IsQueue r ys
      × (values ys ≡ remove_order id (values xs))
unfolding remove_order_from_queue init_queue
remove_order_from_queue-remove_order ps rs q xs id iq supply fresh enough room =
    let empty : IsQueue (init_queue (λ p. none)) [] = record {
      chain = tt;
      distinct = tt;
      head = refl;
      tail = refl;
      size = refl;
    } in
    let (rest, temp, ts, split, ie, it, v, keep) =
      split_loop-Splits xs [] q (init_queue (λ p. none)) (q.size + 1) id ps iq empty supply enough
        (omega (arith, iq.size)) in
    let few : length ts ≤ length rs = omega (
      arith,
      room,
      length-values ts,
      ap length v,
      remove_order-length id (values xs),
      length-values xs,
    ) in
    let (r, ys, back, iy, w) =
      return_loop-IsQueue ts [] temp rest (temp.size + 1) rs it ie
        (stays_supplied (freed q.heap xs) rest.heap rs keep fresh) few (omega (arith, it.size)) in
    (r, ys, rw (split, remove_order_from_queue) back, iy, w ∙ v)
