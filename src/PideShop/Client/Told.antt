-- ===== src/PideShop/Client/Told.antt =====
-- The messages of Final/server.c as a client of Final/client.c reads them.
pub mod Lines
use system_programming_cse.Common.{
  ℕ, zero, suc, ◌+◌, ◌≡◌, ◌≤◌, refl, sym, ◌∙◌, ap, ap₂, subst, Bool, true, false, not, ◌&&◌, ◌==◌,
  some, List, [], ◌∷◌, ◌++◌, map, if◌then◌else◌, arith, Text, codes, text_eq, text_eq-eq,
  text_eq_refl, take, Bool-cases, inl, inr,
}
use system_programming_cse.Common.Strings.{decimal}
use system_programming_cse.Common.Sums.{sum, sum_mono}
use system_programming_cse.PideShop.Orders.{Order, Shop, Cook, Event, run, open_shop}
use system_programming_cse.PideShop.Orders.Conservation.{placed, total, run-less, at_cook, count}
use system_programming_cse.PideShop.Orders.Bounds.{at_sock, open_shop-total}
use system_programming_cse.PideShop.Orders.Messages.{
  Status, cooking, in_oven, cooked, delivering, is_delivered, status_text, says, messages, past,
  past_cook, past_pool, past_courier, run-Told,
}
use system_programming_cse.PideShop.Orders.Statuses.{open_shop-Told, past-decreasing}
use system_programming_cse.PideShop.Orders.Heard.{heard, story}
use system_programming_cse.PideShop.Orders.Story.{level, run-story}
use system_programming_cse.PideShop.Client.{about, line_for, place_order}

-- The messages that have come to a socket, the first one first.
abbrev pub inbox : ℕ → List (ℕ × Order) → List Order
inbox k [] = []
inbox k ((sock, o) ∷ ms) = let rest = inbox k ms in if sock == k then rest ++ o ∷ [] else rest

-- The lines with something in them.
abbrev pub nonempty : List Text → List Text
nonempty [] = []
nonempty ([] ∷ ls) = nonempty ls
nonempty (l ∷ ls) = l ∷ nonempty ls

abbrev pub numbered_order : ℕ → Text
numbered_order id = codes "Order " ++ decimal id ++ codes ": "

-- What a client reads about an order, which the cook `b` takes, the cook `c` has baked and the courier `d`
-- brings.
abbrev pub story_lines : (id b c d : ℕ) → List Text
story_lines id b c d =
    (numbered_order id ++ codes "Cooking (Cook " ++ decimal b ++ codes ")\n")
    ∷ (numbered_order id ++ codes "In Oven\n")
    ∷ (numbered_order id ++ codes "Cooked (Cook " ++ decimal c ++ codes ")\n")
    ∷ (numbered_order id ++ codes "Delivering (Moto " ++ decimal d ++ codes ")\n")
    ∷ (numbered_order id ++ codes "Delivered\n")
    ∷ []

-- The weight of the orders of a socket that have another id.
abbrev pub other_at : ℕ → ℕ → ℕ → ℕ → ℕ
other_at k id sock j = if sock == k && not (j == id) then 1 else 0

-- The messages to a socket but for answers to cancels, the last one first and the last one last.
abbrev pub told : ℕ → List (ℕ × Order) → List Order
told k [] = []
told k ((sock, o) ∷ ms) =
    let rest = told k ms in
    if sock == k && not (text_eq o.status (codes "Cancelled")) then o ∷ rest else rest

abbrev pub without_answers : List Order → List Order
without_answers [] = []
without_answers (o ∷ os) =
    let rest = without_answers os in if text_eq o.status (codes "Cancelled") then rest else o ∷ rest

abbrev pub oldest_first : List Order → List Order
oldest_first [] = []
oldest_first (o ∷ os) = oldest_first os ++ o ∷ []

abbrev pub status_of : Order → Text
status_of o = o.status

pub heard-told : (k : ℕ) (ms : List (ℕ × Order)) → heard k ms ≡ map status_of (told k ms)
heard-told k [] = refl
heard-told k ((sock, o) ∷ ms) = ground (arith, heard-told k ms)

without_answers-append :
    (os : List Order) (o : Order)
    → without_answers (os ++ o ∷ []) ≡ (
        if text_eq o.status (codes "Cancelled")
        then without_answers os
        else without_answers os ++ o ∷ [])
without_answers-append [] o = ground arith
without_answers-append (x ∷ os) o = ground (arith, without_answers-append os o)

pub without_answers-inbox :
    (k : ℕ) (ms : List (ℕ × Order)) → without_answers (inbox k ms) ≡ oldest_first (told k ms)
without_answers-inbox k [] = refl
without_answers-inbox k ((sock, o) ∷ ms) =
    ground (arith, without_answers-inbox k ms, without_answers-append (inbox k ms) o)

-- The line for a message with a status, and what `place_order` does with it.
line_with : Order → Text → Text
unfolding line_for
line_with o status = line_for (record o { status = status })

line_for-Cancelled : (o : Order) → o.status ≡ codes "Cancelled" → line_for o ≡ []
unfolding line_for line_with
line_for-Cancelled o e = ap (line_with o) e

no_Status :
    (m : Status) (status : Text)
    → status ≡ codes "Cancelled"
    → text_eq status (status_text m) ≡ false
no_Status cooking status e = ap (λ s. text_eq s (codes "Cooking")) e
no_Status in_oven status e = ap (λ s. text_eq s (codes "In Oven")) e
no_Status cooked status e = ap (λ s. text_eq s (codes "Cooked")) e
no_Status delivering status e = ap (λ s. text_eq s (codes "Delivering")) e
no_Status is_delivered status e = ap (λ s. text_eq s (codes "Delivered")) e

place_order_next :
    (o : Order) (os : List Order)
    → text_eq o.status (codes "Delivered") ≡ false
    → (place_order (o ∷ os)).0 ≡ line_for o ∷ (place_order os).0
unfolding place_order
place_order_next o os e = rw e refl

place_order_last :
    (o : Order) (os : List Order)
    → text_eq o.status (codes "Delivered") ≡ true
    → (place_order (o ∷ os)).0 ≡ line_for o ∷ []
unfolding place_order
place_order_last o os e = rw e refl

nonempty_same :
    (l : Text) (ls ks : List Text)
    → nonempty ls ≡ nonempty ks
    → nonempty (l ∷ ls) ≡ nonempty (l ∷ ks)
nonempty_same [] ls ks e = e
nonempty_same (c ∷ l) ls ks e = ap (λ ks. (c ∷ l) ∷ ks) e

pub place_order-without_answers :
    (os : List Order) → nonempty (place_order os).0 ≡ nonempty (place_order (without_answers os)).0
place_order-without_answers [] = refl
place_order-without_answers (o ∷ os) = elim (Bool-cases (text_eq o.status (codes "Cancelled"))) [
  | inl e ↦
      let same = text_eq-eq o.status (codes "Cancelled") e in
      rw e (
        ap nonempty (place_order_next o os (no_Status is_delivered o.status same))
        ∙ ap (λ l. nonempty (l ∷ (place_order os).0)) (line_for-Cancelled o same)
        ∙ place_order-without_answers os)
  | inr e ↦ rw e (elim (Bool-cases (text_eq o.status (codes "Delivered"))) [
    | inl d ↦
        ap nonempty (place_order_last o os d)
        ∙ sym (ap nonempty (place_order_last o (without_answers os) d))
    | inr d ↦
        ap nonempty (place_order_next o os d)
        ∙ nonempty_same (line_for o) _ _ (place_order-without_answers os)
        ∙ sym (ap nonempty (place_order_next o (without_answers os) d))
  ])
]

-- The weight of a message with the status about another order than `id`.
abbrev pub strange : ℕ → Status → Order → ℕ
strange id m o = if text_eq o.status (status_text m) then (if o.order_id == id then 0 else 1) else 0

pub sum-strange :
    (k id : ℕ) (m : Status) (ms : List (ℕ × Order))
    → sum (says (other_at k id) m) ms ≡ sum (strange id m) (told k ms)
sum-strange k id m [] = refl
sum-strange k id m ((sock, o) ∷ ms) = elim (Bool-cases (text_eq o.status (codes "Cancelled"))) [
  | inl e ↦
      let other = no_Status m o.status (text_eq-eq o.status (codes "Cancelled") e) in
      ground (arith, e, other, sum-strange k id m ms)
  | inr e ↦ ground (arith, e, sum-strange k id m ms)
]
