-- ===== src/PideShop/Client/Told/Lines.antt =====
-- What a client of Final/client.c prints about its order while Final/server.c works on it.
use system_programming_cse.Common.{
  ℕ, zero, suc, ◌≡◌, ◌≤◌, refl, sym, ◌∙◌, ap, ap₂, true, some, List, [], ◌∷◌, map, arith, Text,
  text_eq, text_eq_refl, take,
}
use system_programming_cse.Common.Sums.{sum, sum_mono}
use system_programming_cse.PideShop.Orders.{Order, Shop, Cook, Event, run, open_shop}
use system_programming_cse.PideShop.Orders.Conservation.{placed, total, run-less, at_cook}
use system_programming_cse.PideShop.Orders.Bounds.{at_sock, open_shop-total}
use system_programming_cse.PideShop.Orders.Messages.{
  Status, cooking, in_oven, cooked, delivering, is_delivered, status_text, messages, past,
  past_cook, run-Told,
}
use system_programming_cse.PideShop.Orders.Statuses.{open_shop-Told, past-decreasing}
use system_programming_cse.PideShop.Orders.Heard.{story}
use system_programming_cse.PideShop.Orders.Story.{level, run-story}
use system_programming_cse.PideShop.Client.{about, line_for, place_order}
use system_programming_cse.PideShop.Client.Told.{
  inbox, nonempty, story_lines, other_at, told, oldest_first, status_of, heard-told,
  without_answers-inbox, place_order-without_answers, strange, sum-strange,
}

-- Messages with given statuses about one order, each of which has its other fields from `f`.
abbrev about_one : ℕ → List Text → (ℕ → Order) → List Order
about_one id [] f = []
about_one id (status ∷ ss) f =
    record (f 0) { status = status; order_id = id } ∷ about_one id ss (λ i. f (suc i))

abbrev no_order : Order
no_order = record {
  request_type = 0;
  order_id = 0;
  sock = 0;
  client_address = [];
  status = [];
  cook_id = 0;
  delivery_id = 0;
}

abbrev nth : List Order → ℕ → Order
nth [] i = no_order
nth (o ∷ os) zero = o
nth (o ∷ os) (suc i) = nth os i

abbrev AllStatus : List Text → Type 0
AllStatus [] = Unit {0}
AllStatus (s ∷ ss) = ((m : Status) × (s ≡ status_text m)) × AllStatus ss

story-AllStatus : (n : ℕ) → AllStatus (story n)
story-AllStatus zero = tt
story-AllStatus (suc zero) = ((cooking, refl), tt)
story-AllStatus (suc (suc zero)) = ((in_oven, refl), ((cooking, refl), tt))
story-AllStatus (suc (suc (suc zero))) = ((cooked, refl), ((in_oven, refl), ((cooking, refl), tt)))
story-AllStatus (suc (suc (suc (suc zero)))) =
    ((delivering, refl), ((cooked, refl), ((in_oven, refl), ((cooking, refl), tt))))
story-AllStatus (suc (suc (suc (suc (suc n))))) = (
  (is_delivered, refl),
  ((delivering, refl), ((cooked, refl), ((in_oven, refl), ((cooking, refl), tt)))),
)

its_id :
    (id : ℕ) (m : Status) (o : Order)
    → o.status ≡ status_text m
    → strange id m o ≡ 0
    → o.order_id ≡ id
its_id id m o e z =
    let known : text_eq o.status (status_text m) ≡ true =
      ap (λ s. text_eq s (status_text m)) e ∙ text_eq_refl (status_text m) in
    ground (arith, known, z)

about_one-nth :
    (id : ℕ) (ss : List Text) (os : List Order)
    → map status_of os ≡ ss
    → AllStatus ss
    → ((m : Status) → sum (strange id m) os ≡ 0)
    → about_one id ss (nth os) ≡ os
about_one-nth id [] [] e all z = refl
about_one-nth id [] (o ∷ os) e all z = cc
about_one-nth id (s ∷ ss) [] e all z = cc
about_one-nth id (s ∷ ss) (o ∷ os) e ((m, q), all) z =
    let same : o.status ≡ s = cc in
    let rest : map status_of os ≡ ss = cc in
    let here : o.order_id ≡ id = its_id id m o (same ∙ q) (omega (arith, z m)) in
    ap₂ (λ j x. record o { order_id = j; status = x } ∷ about_one id ss (nth os)) (sym here)
      (sym same)
    ∙ ap (λ xs. o ∷ xs) (about_one-nth id ss os rest all (λ k. omega (arith, z k)))

about_one-lines :
    (id n : ℕ) (f : ℕ → Order)
    → n ≤ 5
    → (b c d : ℕ) × (nonempty (place_order (oldest_first (about_one id (story n) f))).0
        ≡ take n (story_lines id b c d))
unfolding place_order line_for about
about_one-lines id zero f h = (0, 0, 0, refl)
about_one-lines id (suc zero) f h = ((f 0).cook_id, 0, 0, refl)
about_one-lines id (suc (suc zero)) f h = ((f 1).cook_id, 0, 0, refl)
about_one-lines id (suc (suc (suc zero))) f h = ((f 2).cook_id, (f 0).cook_id, 0, refl)
about_one-lines id (suc (suc (suc (suc zero)))) f h =
    ((f 3).cook_id, (f 1).cook_id, (f 0).delivery_id, refl)
about_one-lines id (suc (suc (suc (suc (suc zero))))) f h =
    ((f 4).cook_id, (f 2).cook_id, (f 1).delivery_id, refl)
about_one-lines id (suc (suc (suc (suc (suc (suc n)))))) f h = absurd (omega (arith, h))

-- The weight of the orders that have come to a cook is at most that of the orders in the shop.
past-total : (w : ℕ → ℕ → ℕ) (s : Shop) → past w cooking s ≤ total w s
unfolding past total
past-total w s = omega (arith, sum_mono (past_cook w cooking) (at_cook w) (λ c. at_most c) s.cooks)
  where
    at_most : (c : Cook) → past_cook w cooking c ≤ at_cook w c
    at_most c = ground arith

-- The weight of the messages with a status is at most that of the orders that clients have placed.
messages-placed :
    (w : ℕ → ℕ → ℕ) (es : List Event) (cooks couriers : ℕ) (t : Shop) (m : Status)
    → run es (open_shop cooks couriers) ≡ some t
    → messages w m t ≤ placed w es
messages-placed w es cooks couriers t m r =
    let start = open_shop cooks couriers in
    let told_m : messages w m t ≡ past w m t =
      run-Told w m es start t (open_shop-Told w m cooks couriers) r in
    omega (
      arith,
      told_m,
      past-cooking w m t,
      past-total w t,
      open_shop-total w cooks couriers,
      run-less w es start t r,
    )
  where
    past-cooking : (w : ℕ → ℕ → ℕ) (m : Status) (s : Shop) → past w m s ≤ past w cooking s
    past-cooking w cooking s = omega arith
    past-cooking w in_oven s = omega (arith, past-decreasing w s)
    past-cooking w cooked s = omega (arith, past-decreasing w s)
    past-cooking w delivering s = omega (arith, past-decreasing w s)
    past-cooking w is_delivered s = omega (arith, past-decreasing w s)

-- In every run of the shop, a client that has placed one order on its socket, and of which each `read` gives
-- one whole message of those that have been sent to the socket, in their order, prints a beginning of the lines "Cooking", "In Oven", "Cooked", "Delivering" and
-- "Delivered", each with the number of its own order: one line for each of these statuses that the shop
-- has sent to the socket, whatever else is placed, cancelled and answered.
pub run-story_lines :
    (es : List Event) (cooks couriers sock id : ℕ) (reads : List Order) {t : Shop}
    → run es (open_shop cooks couriers) ≡ some t
    → reads ≡ inbox sock t.sent
    → placed (at_sock sock) es ≤ 1
    → placed (other_at sock id) es ≡ 0
    → (b c d : ℕ) × (nonempty (place_order reads).0 ≡ take (level sock t) (story_lines id b c d))
unfolding messages
run-story_lines es cooks couriers sock id reads {t} r whole one_placed no_other =
    let (story_t, few) =
      run-story es cooks couriers sock r
        (omega (arith, one_placed, messages-placed (at_sock sock) es cooks couriers t cooking r)) in
    let strangers : (m : Status) → sum (strange id m) (told sock t.sent) ≡ 0 = λ m. omega (
      arith,
      no_other,
      sum-strange sock id m t.sent,
      messages-placed (other_at sock id) es cooks couriers t m r,
    ) in
    let same =
      about_one-nth id (story (level sock t)) (told sock t.sent)
        (sym (heard-told sock t.sent) ∙ story_t) (story-AllStatus (level sock t)) strangers in
    let (b, c, d, lines) = about_one-lines id (level sock t) (nth (told sock t.sent)) few in
    (
      b,
      c,
      d,
      ap (λ os. nonempty (place_order os).0) whole
          ∙ place_order-without_answers (inbox sock t.sent)
          ∙ ap (λ os. nonempty (place_order os).0)
              (without_answers-inbox sock t.sent ∙ ap oldest_first (sym same))
          ∙ lines,
    )
