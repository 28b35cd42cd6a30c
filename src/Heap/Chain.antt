-- ===== src/Heap/Chain.antt =====
-- Chains of nodes that `next` pointers link, as lists of addresses and values.
use system_programming_cse.Common.{
  ◌≡◌, ◌≢◌, ◌==◌, refl, sym, ◌∙◌, ap, subst, ◌||◌, Bool, true, false, Option, none, some, List, [],
  ◌∷◌, ◌++◌, arith,
}
use system_programming_cse.Heap.{Ptr, null, Node, node, Heap, write, set_next}

-- Address and value of each node, in order.
abbrev pub Cells : Type 0 → Type 0
Cells A = List (Ptr × A)

module _ {A : Type 0} where
  abbrev pub values : Cells A → List A
  values [] = []
  values ((a, v) ∷ xs) = v ∷ values xs

  -- The address of the first cell, or `stop` if there is none.
  abbrev pub first : Cells A → Ptr → Ptr
  first [] stop = stop
  first ((a, v) ∷ xs) stop = a

  -- The address of the last cell, or `none_there`.
  abbrev pub last : Cells A → Ptr → Ptr
  last [] none_there = none_there
  last ((a, v) ∷ xs) none_there = last xs a

  abbrev pub has : Ptr → Cells A → Bool
  has p [] = false
  has p ((a, v) ∷ xs) = (p == a) || has p xs

  -- The cells stand in the heap, each linked to the one behind it and the last to NULL.
  abbrev pub Chain : Heap A → Cells A → Type 0
  Chain h [] = Unit {0}
  Chain h ((a, v) ∷ xs) = (a ≢ null) × (h a ≡ some (node v (first xs null))) × Chain h xs

  abbrev pub Distinct : Cells A → Type 0
  Distinct [] = Unit {0}
  Distinct ((a, v) ∷ xs) = (has a xs ≡ false) × Distinct xs

  pub Chain-write :
      (h : Heap A) (p : Ptr) (c : Option (Node A)) (xs : Cells A)
      → Chain h xs
      → has p xs ≡ false
      → Chain (write h p c) xs
  Chain-write h p c [] s out = tt
  Chain-write h p c ((a, v) ∷ xs) s out =
      (s.0, ground arith, Chain-write h p c xs s.2 (ground arith))

  pub not-has_of_none :
      (h : Heap A) (p : Ptr) (xs : Cells A) → Chain h xs → h p ≡ none → has p xs ≡ false
  not-has_of_none h p [] s e = refl
  not-has_of_none h p ((a, v) ∷ xs) s e = ground (arith, not-has_of_none h p xs s.2 e)

  pub has-last : (xs : Cells A) (a : Ptr) (v : A) → has (last xs a) ((a, v) ∷ xs) ≡ true
  has-last [] a v = ground arith
  has-last ((b, w) ∷ xs) a v = ground (arith, has-last xs b w)

  pub last-ne-null :
      (h : Heap A) (xs : Cells A) (a : Ptr) → Chain h xs → a ≢ null → last xs a ≢ null
  last-ne-null h [] a s n = n
  last-ne-null h ((b, w) ∷ xs) a s n = last-ne-null h xs b s.2 s.0

  pub last-append : (xs : Cells A) (a p : Ptr) (v : A) → last (xs ++ (p, v) ∷ []) a ≡ p
  last-append [] a p v = refl
  last-append ((b, w) ∷ xs) a p v = last-append xs b p v

  pub has-append :
      (p : Ptr) (xs : Cells A) (q : Ptr) (v : A)
      → has p (xs ++ (q, v) ∷ []) ≡ (has p xs || (p == q))
  has-append p [] q v = ground arith
  has-append p ((a, w) ∷ xs) q v = ground (arith, has-append p xs q v)

  pub Distinct-append :
      (xs : Cells A) (q : Ptr) (v : A)
      → Distinct xs
      → has q xs ≡ false
      → Distinct (xs ++ (q, v) ∷ [])
  Distinct-append [] q v d out = (refl, tt)
  Distinct-append ((a, w) ∷ xs) q v d out =
      (ground (arith, has-append a xs q v), Distinct-append xs q v d.1 (ground arith))

  pub values-append :
      (xs : Cells A) (q : Ptr) (v : A) → values (xs ++ (q, v) ∷ []) ≡ values xs ++ v ∷ []
  values-append [] q v = refl
  values-append ((a, w) ∷ xs) q v = ap (λ r. w ∷ r) (values-append xs q v)

  abbrev pub last_value : Cells A → A → A
  last_value [] v = v
  last_value ((b, w) ∷ xs) v = last_value xs w

  pub last-node :
      (h : Heap A) (xs : Cells A) (a : Ptr) (v : A)
      → Chain h ((a, v) ∷ xs)
      → h (last xs a) ≡ some (node (last_value xs v) null)
  last-node h [] a v s = s.1
  last-node h ((b, w) ∷ xs) a v s = last-node h xs b w s.2

  -- The heap after `p` has been filled with a last node and the last node, at `r`, linked to it.
  abbrev linked : Heap A → Ptr → A → Ptr → A → Heap A
  linked h p v r w = write (write h p (some (node v null))) r (some (node w p))

  linked_ne :
      (h : Heap A) (p : Ptr) (v : A) (r : Ptr) (w : A) (a : Ptr)
      → a ≢ p
      → a ≢ r
      → linked h p v r w a ≡ h a
  linked_ne h p v r w a m n = ground arith

  pub ne-last :
      (xs : Cells A) (b : Ptr) (w : A) (a : Ptr) → has a ((b, w) ∷ xs) ≡ false → a ≢ last xs b
  ne-last xs b w a out e =
      let inside : has a ((b, w) ∷ xs) ≡ true =
        subst (λ p. has p ((b, w) ∷ xs) ≡ true) (sym e) (has-last xs b w) in
      cc

  ne-head : (xs : Cells A) (a p : Ptr) (u : A) → has p ((a, u) ∷ xs) ≡ false → a ≢ p
  ne-head xs a p u out e = ground arith

  Chain-linked :
      (h : Heap A) (p : Ptr) (v : A) (xs : Cells A) (a : Ptr) (u : A)
      → p ≢ null
      → Chain h ((a, u) ∷ xs)
      → Distinct ((a, u) ∷ xs)
      → has p ((a, u) ∷ xs) ≡ false
      → Chain (linked h p v (last xs a) (last_value xs u)) ((a, u) ∷ xs ++ (p, v) ∷ [])
  Chain-linked h p v [] a u n s d out = (s.0, ground arith, (n, ground arith, tt))
  Chain-linked h p v ((b, w) ∷ xs) a u n s d out = (
    s.0,
    linked_ne h p v (last xs b) (last_value xs w) a (ne-head ((b, w) ∷ xs) a p u out)
          (ne-last xs b w a d.0)
        ∙ s.1,
    Chain-linked h p v xs b w n s.2 d.1 (ground arith),
  )

  -- Linking a new node behind the last one of a chain extends the chain.
  pub link_last :
      (h : Heap A) (p : Ptr) (v : A) (xs : Cells A) (a : Ptr) (u : A)
      → p ≢ null
      → h p ≡ none
      → Chain h ((a, u) ∷ xs)
      → Distinct ((a, u) ∷ xs)
      → (g : Heap A) × (set_next (write h p (some (node v null))) (last xs a) p ≡ some g)
        × Chain g ((a, u) ∷ xs ++ (p, v) ∷ [])
  unfolding set_next
  link_last h p v xs a u n e s d =
      let out = not-has_of_none h p ((a, u) ∷ xs) s e in
      (
        linked h p v (last xs a) (last_value xs u),
        ground (arith, last-node h xs a u s),
        Chain-linked h p v xs a u n s d out,
      )
