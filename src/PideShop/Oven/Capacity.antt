-- ===== src/PideShop/Oven/Capacity.antt =====
-- The oven never holds too much, and the cooks never block each other for good.
use system_programming_cse.Common.{
  ℕ, zero, suc, ◌+◌, ◌≤◌, ◌≡◌, refl, sym, ap, Option-cases, inl, inr, none, some, List, [], ◌∷◌,
  arith, get_elem?, set,
}
use system_programming_cse.PideShop.Oven.{
  max_oven_tools, max_oven_capacity, Oven, Cook, preparing, claiming, placing, placed, baking,
  removing, removed, leaving, cook_step, Kitchen, moved, turn_of, turn, turns, all_preparing,
  kitchen,
}

abbrev pub holds_place : Cook → ℕ
holds_place preparing = 0
holds_place leaving = 0
holds_place _ = 1

abbrev pub holds_tool : Cook → ℕ
holds_tool preparing = 0
holds_tool claiming = 0
holds_tool baking = 0
holds_tool _ = 1

abbrev has_order : Cook → ℕ
has_order placed = 1
has_order baking = 1
has_order removing = 1
has_order _ = 0

abbrev pub sum : (Cook → ℕ) → List Cook → ℕ
sum f [] = 0
sum f (c ∷ cs) = f c + sum f cs

sum-set :
    (f : Cook → ℕ) (cs : List Cook) (i : ℕ) (c d : Cook)
    → get_elem? cs i ≡ some c
    → sum f (set cs i d) + f c ≡ sum f cs + f d
sum-set f [] i c d e = absurd (nothing e)
  where
    nothing : none ≡ some c → ⊥
    nothing h = ground (arith, h)
sum-set f (x ∷ xs) zero c d e = let same : x ≡ c = cc in omega (arith, ap f same)
sum-set f (x ∷ xs) (suc i) c d e = omega (arith, sum-set f xs i c d e)

sum-get :
    (f : Cook → ℕ) (cs : List Cook) (i : ℕ) (c : Cook) → get_elem? cs i ≡ some c → f c ≤ sum f cs
sum-get f [] i c e = ground arith
sum-get f (x ∷ xs) zero c e = let same : x ≡ c = cc in omega (arith, ap f same)
sum-get f (x ∷ xs) (suc i) c e = omega (arith, sum-get f xs i c e)

sum_le : (f g : Cook → ℕ) (cs : List Cook) → ((c : Cook) → f c ≤ g c) → sum f cs ≤ sum g cs
sum_le f g [] h = omega arith
sum_le f g (c ∷ cs) h = omega (arith, h c, sum_le f g cs h)

has_order_le : (c : Cook) → has_order c ≤ holds_place c
has_order_le preparing = omega arith
has_order_le claiming = omega arith
has_order_le placing = omega arith
has_order_le placed = omega arith
has_order_le baking = omega arith
has_order_le removing = omega arith
has_order_le removed = omega arith
has_order_le leaving = omega arith

-- A step gives to the oven what the cook loses, and the other way round.
record Balanced (o : Oven) (c : Cook) (p : Oven) (d : Cook) : Type 0 where
  places : p.capacity + holds_place d ≡ o.capacity + holds_place c
  tools : p.tools + holds_tool d ≡ o.tools + holds_tool c
  orders : has_order c ≤ o.queue_size → p.queue_size + has_order c ≡ o.queue_size + has_order d

cook_step-Balanced :
    (o : Oven) (c : Cook) (p : Oven) (d : Cook) → cook_step o c ≡ some (p, d) → Balanced o c p d
unfolding cook_step
cook_step-Balanced o preparing p d e = ground arith
cook_step-Balanced o claiming p d e = ground arith
cook_step-Balanced o placing p d e = ground arith
cook_step-Balanced o placed p d e = ground arith
cook_step-Balanced o baking p d e = ground arith
cook_step-Balanced o removing p d e = ground arith
cook_step-Balanced o removed p d e = ground arith
cook_step-Balanced o leaving p d e = ground arith

-- What the semaphores have given is what the cooks hold.
pub record Inv (k : Kitchen) : Type 0 where
  pub places : k.oven.capacity + sum holds_place k.cooks ≡ max_oven_capacity
  pub tools : k.oven.tools + sum holds_tool k.cooks ≡ max_oven_tools
  pub orders : k.oven.queue_size ≡ sum has_order k.cooks

moved-Inv :
    (k : Kitchen) (i : ℕ) (c : Cook) (o : Oven) (d : Cook)
    → Inv k
    → get_elem? k.cooks i ≡ some c
    → cook_step k.oven c ≡ some (o, d)
    → Inv (record { oven = o; cooks = set k.cooks i d })
moved-Inv k i c o d inv here e =
    let b = cook_step-Balanced k.oven c o d e in
    record {
      places = omega (arith, b.places, inv.places, sum-set holds_place k.cooks i c d here);
      tools = omega (arith, b.tools, inv.tools, sum-set holds_tool k.cooks i c d here);
      orders = omega (
        arith,
        b.orders (omega (arith, inv.orders, sum-get has_order k.cooks i c here)),
        inv.orders,
        sum-set has_order k.cooks i c d here,
      );
    }

pub turn-Inv : (i : ℕ) (k : Kitchen) → Inv k → Inv (turn i k)
unfolding turn turn_of moved
turn-Inv i k inv = elim (Option-cases (get_elem? k.cooks i)) [
  | inl e ↦ rw (e, turn) inv
  | inr (c, e) ↦ elim (Option-cases (cook_step k.oven c)) [
    | inl f ↦ rw (e, f, turn, turn_of) inv
    | inr ((o, d), f) ↦ rw (e, f, turn, turn_of) (moved-Inv k i c o d inv e f)
  ]
]

pub turns-Inv : (is : List ℕ) (k : Kitchen) → Inv k → Inv (turns is k)
unfolding turns
turns-Inv [] k inv = inv
turns-Inv (i ∷ is) k inv = turns-Inv is (turn i k) (turn-Inv i k inv)

sum-all_preparing : (f : Cook → ℕ) (n : ℕ) → f preparing ≡ 0 → sum f (all_preparing n) ≡ 0
unfolding all_preparing
sum-all_preparing f zero h = refl
sum-all_preparing f (suc n) h = omega (arith, h, sum-all_preparing f n h)

pub kitchen-Inv : (n : ℕ) → Inv (kitchen n)
unfolding kitchen
kitchen-Inv n = record {
  places = omega (arith, sum-all_preparing holds_place n refl);
  tools = omega (arith, sum-all_preparing holds_tool n refl);
  orders = sym (sum-all_preparing has_order n refl);
}

-- Where no order is cancelled and no two calls on the queue of the oven overlap: however many cooks there
-- are and in whatever order they work, the queue holds no more orders than the oven has places, and the
-- tools that the cooks hold and the free ones are together three.
pub turns-capacity :
    (n : ℕ) (is : List ℕ)
    → ((turns is (kitchen n)).oven.queue_size ≤ max_oven_capacity)
      × ((turns is (kitchen n)).oven.tools + sum holds_tool (turns is (kitchen n)).cooks
          ≡ max_oven_tools)
turns-capacity n is =
    let inv = turns-Inv is (kitchen n) (kitchen-Inv n) in
    let le = sum_le has_order holds_place (turns is (kitchen n)).cooks has_order_le in
    (omega (arith, inv.orders, inv.places, le), inv.tools)
