-- ===== src/PideShop/Orders/Story.antt =====
-- A client of Final/server.c is told the statuses of its order one behind the other.
use system_programming_cse.Common.{
  ℕ, ◌+◌, ◌≡◌, ◌≤◌, ◌≢◌, refl, sym, ap, subst, ◌∙◌, ◌⊎◌, inl, inr, some, List, [], ◌∷◌, ◌++◌, arith,
  ℕ_discrete,
}
use system_programming_cse.Common.Sums.{sum, sum-append}
use system_programming_cse.PideShop.Orders.{
  Order, Shop, Outcome, waits, undefined, goes, Event, step, run, open_shop,
}
use system_programming_cse.PideShop.Orders.Bounds.{at_sock}
use system_programming_cse.PideShop.Orders.Messages.{
  Status, cooking, in_oven, cooked, delivering, is_delivered, status_text, says, messages,
}
use system_programming_cse.PideShop.Orders.Heard.{
  heard-Cancelled, sum-Cancelled, sum-other, heard-none, heard-one,
}
use system_programming_cse.PideShop.Orders.Heard.{heard, story, Sent, SentBy, step-SentBy}
use system_programming_cse.PideShop.Orders.Messages.{Told, run-Told, ToldAfter, step-ToldAfter}
use system_programming_cse.PideShop.Orders.Statuses.{past-decreasing, open_shop-Told}

Status-cases : (j m : Status) → (j ≡ m) ⊎ (j ≢ m)
Status-cases j m = ground arith

-- How many of a kind of message have been sent to the socket.
module _ (k : ℕ) where
  abbrev sent_of : Status → Shop → ℕ
  sent_of m s = messages (at_sock k) m s

  -- How many statuses its client has been told.
  abbrev pub level : Shop → ℕ
  level s =
      sent_of cooking s
      + sent_of in_oven s
      + sent_of cooked s
      + sent_of delivering s
      + sent_of is_delivered s

  abbrev Decreasing : Shop → Type 0
  Decreasing s =
      (sent_of is_delivered s ≤ sent_of delivering s)
      × (sent_of delivering s ≤ sent_of cooked s)
      × (sent_of cooked s ≤ sent_of in_oven s)
      × (sent_of in_oven s ≤ sent_of cooking s)

  abbrev IsStory : Shop → Type 0
  IsStory s = heard k s.sent ≡ story (level s)

  sent_of-append :
      (m : Status) (s t : Shop) (new : List (ℕ × Order))
      → t.sent ≡ new ++ s.sent
      → sent_of m t ≡ sum (says (at_sock k) m) new + sent_of m s
  unfolding messages
  sent_of-append m s t new e =
      ap (sum (says (at_sock k) m)) e ∙ sum-append (says (at_sock k) m) new s.sent

  Decreasing-Told : (s : Shop) → ((m : Status) → Told (at_sock k) m s) → Decreasing s
  Decreasing-Told s h = omega (
    arith,
    past-decreasing (at_sock k) s,
    h is_delivered,
    h delivering,
    h cooked,
    h in_oven,
    h cooking,
  )

  -- A status that is new is the next one.
  next-status :
      (j : Status) (s t : Shop)
      → Decreasing s
      → Decreasing t
      → sent_of cooking t ≤ 1
      → sent_of j t ≡ 1 + sent_of j s
      → ((m : Status) → j ≢ m → sent_of m t ≡ sent_of m s)
      → status_text j ∷ story (level s) ≡ story (level t)
  next-status cooking s t d d' one e same =
      let levels : (level s ≡ 0) × (level t ≡ 1) = omega (
        arith,
        d,
        d',
        one,
        e,
        same in_oven (λ q. ground (arith, q)),
        same cooked (λ q. ground (arith, q)),
        same delivering (λ q. ground (arith, q)),
        same is_delivered (λ q. ground (arith, q)),
      ) in
      ap (λ n. status_text cooking ∷ story n) levels.0 ∙ ap story (sym levels.1)
  next-status in_oven s t d d' one e same =
      let levels : (level s ≡ 1) × (level t ≡ 2) = omega (
        arith,
        d,
        d',
        one,
        e,
        same cooking (λ q. ground (arith, q)),
        same cooked (λ q. ground (arith, q)),
        same delivering (λ q. ground (arith, q)),
        same is_delivered (λ q. ground (arith, q)),
      ) in
      ap (λ n. status_text in_oven ∷ story n) levels.0 ∙ ap story (sym levels.1)
  next-status cooked s t d d' one e same =
      let levels : (level s ≡ 2) × (level t ≡ 3) = omega (
        arith,
        d,
        d',
        one,
        e,
        same cooking (λ q. ground (arith, q)),
        same in_oven (λ q. ground (arith, q)),
        same delivering (λ q. ground (arith, q)),
        same is_delivered (λ q. ground (arith, q)),
      ) in
      ap (λ n. status_text cooked ∷ story n) levels.0 ∙ ap story (sym levels.1)
  next-status delivering s t d d' one e same =
      let levels : (level s ≡ 3) × (level t ≡ 4) = omega (
        arith,
        d,
        d',
        one,
        e,
        same cooking (λ q. ground (arith, q)),
        same in_oven (λ q. ground (arith, q)),
        same cooked (λ q. ground (arith, q)),
        same is_delivered (λ q. ground (arith, q)),
      ) in
      ap (λ n. status_text delivering ∷ story n) levels.0 ∙ ap story (sym levels.1)
  next-status is_delivered s t d d' one e same =
      let levels : (level s ≡ 4) × (level t ≡ 5) = omega (
        arith,
        d,
        d',
        one,
        e,
        same cooking (λ q. ground (arith, q)),
        same in_oven (λ q. ground (arith, q)),
        same cooked (λ q. ground (arith, q)),
        same delivering (λ q. ground (arith, q)),
      ) in
      ap (λ n. status_text is_delivered ∷ story n) levels.0 ∙ ap story (sym levels.1)

  most-cooking : (j : Status) (t : Shop) → Decreasing t → sent_of j t ≤ sent_of cooking t
  most-cooking cooking t d = omega arith
  most-cooking in_oven t d = omega (arith, d)
  most-cooking cooked t d = omega (arith, d)
  most-cooking delivering t d = omega (arith, d)
  most-cooking is_delivered t d = omega (arith, d)

  sent-IsStory :
      (s t : Shop)
      → Decreasing s
      → Decreasing t
      → sent_of cooking t ≤ 1
      → Sent s.sent t.sent
      → IsStory s
      → IsStory t
  sent-IsStory s t d d' one (new, e, inl h) story_s =
      let same : (m : Status) → sent_of m t ≡ sent_of m s =
        λ m. omega (arith, sent_of-append m s t new e, sum-Cancelled k m new h) in
      ap (heard k) e
      ∙ heard-Cancelled k new s.sent h
      ∙ story_s
      ∙ ap story (
          omega
            (arith, same cooking, same in_oven, same cooked, same delivering, same is_delivered))
  sent-IsStory s t d d' one (new, e, inr (j, h)) story_s =
      let added : (m : Status) → sent_of m t ≡ sum (says (at_sock k) m) new + sent_of m s =
        λ m. sent_of-append m s t new e in
      let other : (m : Status) → j ≢ m → sent_of m t ≡ sent_of m s =
        λ m q. omega (arith, added m, sum-other k j m new h q) in
      elim (ℕ_discrete (sum (says (at_sock k) j) new) 0) [
        | yes z ↦
            let same : (m : Status) → sent_of m t ≡ sent_of m s = λ m. elim (Status-cases j m) [
              | inl q ↦ subst (λ x. sent_of x t ≡ sent_of x s) q (omega (arith, z, added j))
              | inr q ↦ other m q
            ] in
            ap (heard k) e
            ∙ heard-none k j new s.sent h z
            ∙ story_s
            ∙ ap story (
                omega (
                  arith,
                  same cooking,
                  same in_oven,
                  same cooked,
                  same delivering,
                  same is_delivered,
                ))
        | no z ↦
            let single : sum (says (at_sock k) j) new ≡ 1 =
              omega (arith, z, one, added j, most-cooking j t d') in
            ap (heard k) e
            ∙ heard-one k j new s.sent h single
            ∙ ap (λ x. status_text j ∷ x) story_s
            ∙ next-status j s t d d' one (omega (arith, single, added j)) other
      ]

  Sent-more : (m : Status) (s t : Shop) → Sent s.sent t.sent → sent_of m s ≤ sent_of m t
  Sent-more m s t (new, e, h) = omega (arith, sent_of-append m s t new e)

  run-more :
      (m : Status) (es : List Event) (s t : Shop) → run es s ≡ some t → sent_of m s ≤ sent_of m t
  unfolding run
  run-more m [] s t r = ground (arith, r)
  run-more m (e ∷ es) s t r = go (λ u. run-more m es u t) (step e s) refl (step-SentBy e s)
    where
      go :
          ((u : Shop) → run es u ≡ some t → sent_of m u ≤ sent_of m t)
          → (x : Outcome) → step e s ≡ x
          → SentBy s x
          → sent_of m s ≤ sent_of m t
      go rest waits q h = rest s (ground (arith, q, r))
      go rest undefined q h = ground (arith, q, r)
      go rest (goes u) q h = omega (arith, Sent-more m s u h, rest u (ground (arith, q, r)))

  run-IsStory :
      (es : List Event) (s t : Shop)
      → ((m : Status) → Told (at_sock k) m s)
      → IsStory s
      → run es s ≡ some t
      → sent_of cooking t ≤ 1
      → IsStory t
  unfolding run ToldAfter
  run-IsStory [] s t told story_s r one = ground (arith, r, story_s)
  run-IsStory (e ∷ es) s t told story_s r one =
      go (λ u h i q. run-IsStory es u t h i q one) (step e s) refl (step-SentBy e s)
        (λ m. step-ToldAfter (at_sock k) m e s (told m))
    where
      go :
          ((u : Shop)
            → ((m : Status) → Told (at_sock k) m u)
            → IsStory u
            → run es u ≡ some t
            → IsStory t)
          → (x : Outcome) → step e s ≡ x
          → SentBy s x
          → ((m : Status) → ToldAfter (at_sock k) m x)
          → IsStory t
      go rest waits q h after = rest s told story_s (ground (arith, q, r))
      go rest undefined q h after = ground (arith, q, r)
      go rest (goes u) q h after =
          let left : run es u ≡ some t = ground (arith, q, r) in
          rest u after
            (sent-IsStory s u (Decreasing-Told s told) (Decreasing-Told u after)
              (omega (arith, one, run-more cooking es u t left)) h story_s)
            left

-- In every run of the shop, a socket to which "Cooking" has been sent at most once has been sent, apart
-- from answers to cancels, the first ones of "Cooking", "In Oven", "Cooked", "Delivering" and
-- "Delivered", each once and in this order.
pub run-story :
    (es : List Event) (cooks couriers sock : ℕ) {t : Shop}
    → run es (open_shop cooks couriers) ≡ some t
    → messages (at_sock sock) cooking t ≤ 1
    → (heard sock t.sent ≡ story (level sock t)) × (level sock t ≤ 5)
unfolding open_shop messages
run-story es cooks couriers sock {t} r one =
    let told : (m : Status) → Told (at_sock sock) m (open_shop cooks couriers) =
      λ m. open_shop-Told (at_sock sock) m cooks couriers in
    let told_t : (m : Status) → Told (at_sock sock) m t =
      λ m. run-Told (at_sock sock) m es (open_shop cooks couriers) t (told m) r in
    (
      run-IsStory sock es (open_shop cooks couriers) t told refl r one,
      omega (arith, one, Decreasing-Told sock t told_t),
    )
