-- ===== src/PideShop/Client/Opening/Race.antt =====
-- The numbers of the orders of Final/client.c.
use system_programming_cse.Common.{
  ℕ, zero, suc, ◌+◌, ◌≡◌, ◌≢◌, refl, sym, ap, ◌∙◌, some, List, [], ◌∷◌, Text, get_elem?, set,
}
use system_programming_cse.PideShop.Orders.{Order}
use system_programming_cse.PideShop.Client.{new_order}
use system_programming_cse.PideShop.Client.Opening.{
  starting, read, placed, Placers, placer_step, take_turn, take_turns,
}

get-set :
    {A : Type 0} (xs : List A) (i : ℕ) (x y : A)
    → get_elem? xs i ≡ some x
    → get_elem? (set xs i y) i ≡ some y
get-set [] i x y e = cc
get-set (z ∷ xs) zero x y e = refl
get-set (z ∷ xs) (suc i) x y e = get-set xs i x y e

get-set_other :
    {A : Type 0} (xs : List A) (i j : ℕ) (y : A) → i ≢ j → get_elem? (set xs i y) j ≡ get_elem? xs j
get-set_other [] i j y d = refl
get-set_other (z ∷ xs) zero zero y d = absurd (d refl)
get-set_other (z ∷ xs) zero (suc j) y d = refl
get-set_other (z ∷ xs) (suc i) zero y d = refl
get-set_other (z ∷ xs) (suc i) (suc j) y d = get-set_other xs i j y (λ e. d (ap suc e))

take_turn-starting :
    (memory : Order) (location : Text) (i : ℕ) (s : Placers)
    → get_elem? s.threads i ≡ some starting
    → take_turn memory location i s ≡ record s { threads = set s.threads i (read s.order_id) }
unfolding take_turn placer_step
take_turn-starting memory location i s e = rw (e, take_turn) refl

take_turn-read :
    (memory : Order) (location : Text) (i n : ℕ) (s : Placers)
    → get_elem? s.threads i ≡ some (read n)
    → take_turn memory location i s ≡ record {
      order_id = (new_order memory location n).1;
      threads = set s.threads i (placed (new_order memory location n).0);
    }
unfolding take_turn placer_step
take_turn-read memory location i n s e = rw (e, take_turn) refl

-- Two threads that both read `order_id` before one of them writes send orders with the same number, and
-- `order_id` counts only one of them.
pub take_turns-same_number :
    (memory : Order) (location : Text) (i j : ℕ) (s : Placers)
    → i ≢ j
    → get_elem? s.threads i ≡ some starting
    → get_elem? s.threads j ≡ some starting
    → let t = take_turns memory location (i ∷ j ∷ i ∷ j ∷ []) s in
      let order = (new_order memory location s.order_id).0 in
      (get_elem? t.threads i ≡ some (placed order))
      × (get_elem? t.threads j ≡ some (placed order))
      × (order.order_id ≡ s.order_id)
      × (t.order_id ≡ s.order_id + 1)
unfolding take_turns new_order
take_turns-same_number memory location i j s d e f =
    let order = (new_order memory location s.order_id).0 in
    let reads : ℕ → Placers → Placers =
      λ k u. record u { threads = set u.threads k (read s.order_id) } in
    let places : ℕ → Placers → Placers =
      λ k u. record { order_id = s.order_id + 1; threads = set u.threads k (placed order) } in
    let s1 = reads i s in
    let s2 = reads j s1 in
    let s3 = places i s2 in
    let s4 = places j s3 in
    let j1 = get-set_other s.threads i j (read s.order_id) d ∙ f in
    let i2 =
      get-set_other s1.threads j i (read s.order_id) (λ q. d (sym q))
      ∙ get-set s.threads i starting (read s.order_id) e in
    let j2 = get-set s1.threads j starting (read s.order_id) j1 in
    let j3 = get-set_other s2.threads i j (placed order) d ∙ j2 in
    let i3 = get-set s2.threads i (read s.order_id) (placed order) i2 in
    let run : take_turns memory location (i ∷ j ∷ i ∷ j ∷ []) s ≡ s4 =
      ap (take_turns memory location (j ∷ i ∷ j ∷ [])) (take_turn-starting memory location i s e)
      ∙ ap (take_turns memory location (i ∷ j ∷ [])) (take_turn-starting memory location j s1 j1)
      ∙ ap (take_turns memory location (j ∷ [])) (take_turn-read memory location i s.order_id s2 i2)
      ∙ take_turn-read memory location j s.order_id s3 j3 in
    (
      ap (λ t. get_elem? t.threads i) run
          ∙ get-set_other s3.threads j i (placed order) (λ q. d (sym q))
          ∙ i3,
      ap (λ t. get_elem? t.threads j) run
          ∙ get-set s3.threads j (read s.order_id) (placed order) j3,
      refl,
      ap (λ t. t.order_id) run,
    )
