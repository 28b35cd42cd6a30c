-- ===== src/CopyTool/Barrier/Order.antt =====
-- No thread passes the barrier before all have come, if no wait ends without a broadcast.
use system_programming_cse.Common.{
  ℕ, zero, suc, ◌+◌, ◌<◌, ◌≤◌, ◌≡◌, refl, ap, sym, ◌∙◌, subst, ◌⊎◌, inl, inr, some, List, [], ◌∷◌,
  arith, length, length-set, get_elem?, set, ◌==◌, Bool-cases, true,
}
use system_programming_cse.CopyTool.Barrier.{
  Phase, outside, asleep, passed, Barrier, wake_all, barrier_wait, Step, arrive, Reach, here, next,
  regular, spurious, SpuriousReach, all_outside, opening,
}

abbrev pub is_outside : Phase → ℕ
is_outside outside = 1
is_outside _ = 0

abbrev pub is_asleep : Phase → ℕ
is_asleep asleep = 1
is_asleep _ = 0

abbrev pub is_passed : Phase → ℕ
is_passed passed = 1
is_passed _ = 0

-- How many threads stand in a phase.
abbrev pub tally : (Phase → ℕ) → List Phase → ℕ
tally w [] = 0
tally w (p ∷ ps) = w p + tally w ps

tally-set :
    (w : Phase → ℕ) (ps : List Phase) (i : ℕ) (q : Phase) {p : Phase}
    → get_elem? ps i ≡ some p
    → tally w (set ps i q) + w p ≡ tally w ps + w q
tally-set w [] i q e = ground arith
tally-set w (r ∷ ps) zero q {p} e = let e' : r ≡ p = ground arith in omega (arith, ap w e')
tally-set w (r ∷ ps) (suc i) q e = omega (arith, tally-set w ps i q e)

tally-length :
    (ps : List Phase) → tally is_outside ps + tally is_asleep ps + tally is_passed ps ≡ length ps
tally-length [] = omega arith
tally-length (outside ∷ ps) = omega (arith, tally-length ps)
tally-length (asleep ∷ ps) = omega (arith, tally-length ps)
tally-length (passed ∷ ps) = omega (arith, tally-length ps)

tally-wake_all :
    (ps : List Phase)
    → (tally is_outside (wake_all ps) ≡ tally is_outside ps) × (tally is_asleep (wake_all ps) ≡ 0)
tally-wake_all [] = (refl, refl)
tally-wake_all (outside ∷ ps) = omega (arith, tally-wake_all ps)
tally-wake_all (asleep ∷ ps) = omega (arith, tally-wake_all ps)
tally-wake_all (passed ∷ ps) = omega (arith, tally-wake_all ps)

length-wake_all : (ps : List Phase) → length (wake_all ps) ≡ length ps
length-wake_all [] = refl
length-wake_all (p ∷ ps) = ap suc (length-wake_all ps)

-- Before the last arrival nobody has passed and the counter counts the sleepers; after it nobody is
-- outside or asleep.
pub record Before (b : Barrier) : Type 0 where
  pub none_passed : tally is_passed b.threads ≡ 0
  pub counted : b.count ≡ tally is_asleep b.threads
  pub below : b.count < b.total

pub record Inv (b : Barrier) : Type 0 where
  pub total : b.total ≡ length b.threads
  pub order : Before b ⊎ ((tally is_outside b.threads ≡ 0) × (tally is_asleep b.threads ≡ 0))

arrive-Before :
    (b : Barrier) (i : ℕ)
    → get_elem? b.threads i ≡ some outside
    → b.total ≡ length b.threads
    → Before b
    → Inv (barrier_wait i b)
unfolding barrier_wait
arrive-Before b i e t h = elim (Bool-cases (b.count + 1 == b.total)) [
  | inl last ↦ rw last (record {
    total = omega (arith, length-wake_all (set b.threads i passed), length-set b.threads i passed);
    order = inr (
      omega (
        arith,
        last_one last,
        (tally-wake_all (set b.threads i passed)).0,
        tally-set is_outside b.threads i passed e,
        tally-length b.threads,
      ),
      (tally-wake_all (set b.threads i passed)).1,
    );
  })
  | inr more ↦ rw more (record {
    total = omega (arith, length-set b.threads i asleep);
    order = inl (record {
      none_passed = omega (arith, tally-set is_passed b.threads i asleep e);
      counted = omega (arith, tally-set is_asleep b.threads i asleep e);
      below = ground (arith, h.below);
    });
  })
]
  where
    last_one : (b.count + 1 == b.total) ≡ true → b.count + 1 ≡ b.total
    last_one f = ground arith

outside-counted :
    (ps : List Phase) (i : ℕ) → get_elem? ps i ≡ some outside → 0 < tally is_outside ps
outside-counted [] i e = ground arith
outside-counted (p ∷ ps) zero e = ground arith
outside-counted (p ∷ ps) (suc i) e = omega (arith, outside-counted ps i e)

passed-counted : (ps : List Phase) (i : ℕ) → get_elem? ps i ≡ some passed → 0 < tally is_passed ps
passed-counted [] i e = ground arith
passed-counted (p ∷ ps) zero e = ground arith
passed-counted (p ∷ ps) (suc i) e = omega (arith, passed-counted ps i e)

pub Step-Inv : {b c : Barrier} → Step b c → Inv b → Inv c
Step-Inv {b} (arrive i e) v = elim v.order [
  | inl h ↦ arrive-Before b i e v.total h
  | inr (z, _) ↦ absurd (omega (arith, outside-counted b.threads i e))
]

pub opening-Inv : (n : ℕ) → 0 < n → Inv (opening n)
opening-Inv n pos = record {
  total = sym (all_length n);
  order = inl (record { none_passed = (counts n).0; counted = sym (counts n).1; below = pos });
}
  where
    all_length : (n : ℕ) → length (all_outside n) ≡ n
    all_length zero = refl
    all_length (suc n) = ap suc (all_length n)

    counts : (n : ℕ) → (tally is_passed (all_outside n) ≡ 0) × (tally is_asleep (all_outside n) ≡ 0)
    counts zero = (refl, refl)
    counts (suc n) = omega (arith, counts n)

Reach-Inv : {b c : Barrier} → Reach b c → Inv b → Inv c
Reach-Inv here v = v
Reach-Inv (next r s) v = Step-Inv s (Reach-Inv r v)

-- When one thread has passed the barrier, every thread has called it, as long as no wait ends
-- without a broadcast.
pub passed_after_all :
    {n : ℕ} {b : Barrier} (i j : ℕ)
    → 0 < n
    → Reach (opening n) b
    → get_elem? b.threads i ≡ some passed
    → ¬ (get_elem? b.threads j ≡ some outside)
passed_after_all {n} {b} i j pos r e f =
    let v = Reach-Inv r (opening-Inv n pos) in
    elim v.order [
      | inl h ↦ omega (arith, h.none_passed, passed-counted b.threads i e)
      | inr (z, _) ↦ omega (arith, outside-counted b.threads j f)
    ]

abbrev pub AllPassed : List Phase → Type 0
AllPassed [] = Unit {0}
AllPassed (p ∷ ps) = (p ≡ passed) × AllPassed ps

tally-AllPassed :
    (ps : List Phase) → tally is_outside ps ≡ 0 → tally is_asleep ps ≡ 0 → AllPassed ps
tally-AllPassed [] h k = tt
tally-AllPassed (outside ∷ ps) h k = absurd (omega (arith, h))
tally-AllPassed (asleep ∷ ps) h k = absurd (omega (arith, k))
tally-AllPassed (passed ∷ ps) h k = (refl, tally-AllPassed ps (omega (arith, h)) (omega (arith, k)))

outside-cases :
    (ps : List Phase) → ((i : ℕ) × (get_elem? ps i ≡ some outside)) ⊎ (tally is_outside ps ≡ 0)
outside-cases [] = inr refl
outside-cases (outside ∷ ps) = inl (0, refl)
outside-cases (asleep ∷ ps) = elim (outside-cases ps) [
  | inl (i, e) ↦ inl (suc i, e)
  | inr z ↦ inr (omega (arith, z))
]
outside-cases (passed ∷ ps) = elim (outside-cases ps) [
  | inl (i, e) ↦ inl (suc i, e)
  | inr z ↦ inr (omega (arith, z))
]

-- A thread is still to come, or all have passed: none sleeps for ever.
pub arrive-or_passed :
    (b : Barrier) → Inv b → ((i : ℕ) × (get_elem? b.threads i ≡ some outside)) ⊎ AllPassed b.threads
arrive-or_passed b v = elim (outside-cases b.threads) [
  | inl h ↦ inl h
  | inr z ↦ elim v.order [
    | inl h ↦
        absurd (omega (arith, h.none_passed, h.counted, h.below, v.total, tally-length b.threads))
    | inr (_, k) ↦ inr (tally-AllPassed b.threads z k)
  ]
]

pub barrier_wait-length :
    (b : Barrier) (i : ℕ) → length (barrier_wait i b).threads ≡ length b.threads
unfolding barrier_wait
barrier_wait-length b i = elim (Bool-cases (b.count + 1 == b.total)) [
  | inl e ↦ rw e (length-wake_all (set b.threads i passed) ∙ length-set b.threads i passed)
  | inr e ↦ rw e (length-set b.threads i asleep)
]

pub length-opening : (n : ℕ) → length (opening n).threads ≡ n
length-opening zero = refl
length-opening (suc n) = ap suc (length-opening n)

abbrev one_asleep : ℕ → Barrier
one_asleep k = record { count = 1; total = suc (suc k); threads = asleep ∷ outside ∷ all_outside k }

first_sleeps : (k : ℕ) → barrier_wait 0 (opening (suc (suc k))) ≡ one_asleep k
unfolding barrier_wait
first_sleeps k = ground arith

abbrev one_passed : ℕ → Barrier
one_passed k = record { count = 1; total = suc (suc k); threads = passed ∷ outside ∷ all_outside k }

-- With two threads or more, a wait that ends without a broadcast lets a thread pass while another
-- has not called the barrier.
spurious_passes :
    (n : ℕ)
    → 2 ≤ n
    → (b : Barrier) × SpuriousReach (opening n) b
      × (get_elem? b.threads 0 ≡ some passed)
      × (get_elem? b.threads 1 ≡ some outside)
spurious_passes zero h = elim h [ ]
spurious_passes (suc zero) h = absurd (omega arith)
spurious_passes (suc (suc k)) h = (
  one_passed k,
  SpuriousReach.next
      (subst (SpuriousReach (opening (suc (suc k)))) (first_sleeps k)
        (SpuriousReach.next SpuriousReach.here (regular (arrive 0 refl))))
      (spurious 0 refl),
  refl,
  refl,
)
