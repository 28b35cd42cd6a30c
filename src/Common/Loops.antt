-- ===== src/Common/Loops.antt =====
-- Counted loops, as functions of the state that their body changes.
use system_programming_cse.Common.Tests.{◌==◌, ==_iff, Bool-cases}
use Prim.Native.Nat.{ℕ, zero, suc, ◌≤◌, ◌<◌}
use mathlib.Core.Path.{◌≡◌, refl, subst, sym, ap, ◌∙◌, fun_ext}
use mathlib.Core.Logic.{◌≢◌, inl, inr}
use native.Mathlib.Omega.{arith}

-- `for (i = 0; i < n; i++)`
abbrev pub for_below {ℓ} : {S : Type ℓ} → ℕ → (ℕ → S → S) → S → S
for_below zero body s = s
for_below (suc n) body s = body n (for_below n body s)

-- What every round keeps holds at the end.
pub for_below-keeps {ℓ κ} :
    {S : Type ℓ} (P : S → Type κ) (n : ℕ) (body : ℕ → S → S) (s : S)
    → ((i : ℕ) (t : S) → i < n → P t → P (body i t))
    → P s
    → P (for_below n body s)
for_below-keeps P zero body s keep p = p
for_below-keeps P (suc n) body s keep p =
    keep n (for_below n body s) (omega arith)
      (for_below-keeps P n body s (λ i t b. keep i t (omega arith)) p)

pub for_below-same {ℓ} :
    {S : Type ℓ} (n : ℕ) (body body' : ℕ → S → S) (s : S)
    → ((i : ℕ) (t : S) → i < n → body i t ≡ body' i t)
    → for_below n body s ≡ for_below n body' s
for_below-same zero body body' s h = refl
for_below-same (suc n) body body' s h =
    h n (for_below n body s) (omega arith)
    ∙ ap (body' n) (for_below-same n body body' s (λ i t b. h i t (omega arith)))

-- A loop whose round i changes the i-th place of the state and no other.
module _ {ℓ ℓ' κ} {S : Type ℓ} {A : Type ℓ'} (at : S → ℕ → A) (body : ℕ → S → S)
    (other : (i k : ℕ) (s : S) → k ≢ i → at (body i s) k ≡ at s k) where
  pub for_below_outside : (n : ℕ) (s : S) (k : ℕ) → n ≤ k → at (for_below n body s) k ≡ at s k
  for_below_outside n s k b =
      for_below-keeps (λ t. at t k ≡ at s k) n body s
        (λ i t c e. other i k t (λ q. omega arith) ∙ e) refl

  pub for_below_inside :
      (R : ℕ → A → A → Type κ)
      → ((i : ℕ) (s : S) → R i (at s i) (at (body i s) i))
      → (n : ℕ) (s : S) (k : ℕ) → k < n
      → R k (at s k) (at (for_below n body s) k)
  for_below_inside R own zero s k b = elim b [ ]
  for_below_inside R own (suc n) s k b = elim (Bool-cases (k == n)) [
    | inl e ↦
        subst (λ i. R i (at s i) (at (body n (for_below n body s)) i)) (sym ((==_iff k n).0 e))
          (subst (λ a. R n a (at (body n (for_below n body s)) n))
            (for_below_outside n s n (omega arith)) (own n (for_below n body s)))
    | inr e ↦
        subst (R k (at s k)) (sym (other n k (for_below n body s) (λ q. ground arith)))
          (for_below_inside R own n s k (ground arith))
  ]

-- Two nested loops whose round i, j changes the place i, j and no other.
module _ {ℓ ℓ' κ} {S : Type ℓ} {A : Type ℓ'} (at : S → ℕ → ℕ → A) (body : ℕ → ℕ → S → S)
    (other_row : (i j k l : ℕ) (s : S) → k ≢ i → at (body i j s) k l ≡ at s k l)
    (other_column : (i j l : ℕ) (s : S) → l ≢ j → at (body i j s) i l ≡ at s i l) where
  pub for_below_nested :
      (R : ℕ → ℕ → A → A → Type κ)
      → ((i j : ℕ) (s : S) → R i j (at s i j) (at (body i j s) i j))
      → (n m : ℕ) (s : S) (k l : ℕ) → k < n
      → l < m
      → R k l (at s k l) (at (for_below n (λ i. for_below m (body i)) s) k l)
  for_below_nested R own n m s k l b c =
      for_below_inside at (λ i. for_below m (body i))
        (λ i k s h. fun_ext λ l.
          for_below-keeps (λ t. at t k l ≡ at s k l) m (body i) s
            (λ j t d e. other_row i j k l t h ∙ e) refl)
        (λ k r r'. (l : ℕ) → l < m → R k l (r l) (r' l))
        (λ i s l d. for_below_inside (λ t. at t i) (body i) (other_column i) (R i) (own i) m s l d)
        n s k b l c
