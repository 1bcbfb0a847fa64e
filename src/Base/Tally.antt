-- ===== src/Base/Tally.antt =====
-- Counting the numbers of a range that pass a test.
use Prim.Native.Nat.{ℕ, zero, suc, ◌+◌, ◌≤◌, ◌<◌}
use mathlib.Core.Path.{◌≡◌, refl, ◌∙◌}
use mathlib.Core.Logic.{inl, inr}
use mathlib.Core.Bool.{Bool, true, false, not, ◌||◌}
use native.Mathlib.Omega.{arith}
use jeffos.Base.Tests.{◌==◌, if◌then◌else◌, Bool-cases}

-- How many of the numbers i, …, i + k - 1 pass the test.
unfoldable pub tally : (ℕ → Bool) → ℕ → ℕ → ℕ
tally p i zero = 0
tally p i (suc k) = (if p i then 1 else 0) + tally p (i + 1) k

pub tally-cong :
    (p q : ℕ → Bool) (i k : ℕ)
    → ((x : ℕ) → i ≤ x → x < i + k → p x ≡ q x)
    → tally p i k ≡ tally q i k
unfolding tally
tally-cong p q i zero h = refl
tally-cong p q i (suc k) h =
    ground (arith, h i, tally-cong p q (i + 1) k (λ x a b. h x (omega arith) (omega arith)))

pub tally-not : (p : ℕ → Bool) (i k : ℕ) → tally p i k + tally (λ x. not (p x)) i k ≡ k
unfolding tally
tally-not p i zero = refl
tally-not p i (suc k) = ground (arith, tally-not p (i + 1) k)

pub tally-or :
    (p q : ℕ → Bool) (i k : ℕ)
    → ((x : ℕ) → p x ≡ true → q x ≡ false)
    → tally (λ x. p x || q x) i k ≡ tally p i k + tally q i k
unfolding tally
tally-or p q i zero h = refl
tally-or p q i (suc k) h = ground (arith, h i, tally-or p q (i + 1) k h)

pub tally_below : (y i k : ℕ) → y < i → tally (λ x. x == y) i k ≡ 0
unfolding tally
tally_below y i zero h = refl
tally_below y i (suc k) h = ground (arith, tally_below y (i + 1) k)

pub tally_one : (y i k : ℕ) → i ≤ y → y < i + k → tally (λ x. x == y) i k ≡ 1
unfolding tally
tally_one y i zero h g = absurd (omega arith)
tally_one y i (suc k) h g = elim (Bool-cases (i == y)) [
  | inl e ↦ ground (arith, tally_below y (i + 1) k)
  | inr e ↦ ground (arith, tally_one y (i + 1) k)
]

pub tally_none : (i k : ℕ) → tally (λ x. false) i k ≡ 0
unfolding tally
tally_none i zero = refl
tally_none i (suc k) = ground (arith, tally_none (i + 1) k)

-- Turning one number of the range from passing to failing takes one off.
pub tally_drop :
    (p q : ℕ → Bool) (y i k : ℕ)
    → i ≤ y
    → y < i + k
    → p y ≡ true
    → ((x : ℕ) → q x ≡ (if x == y then false else p x))
    → tally p i k ≡ tally q i k + 1
unfolding tally
tally_drop p q y i zero h g py e = absurd (omega arith)
tally_drop p q y i (suc k) h g py e = elim (Bool-cases (i == y)) [
  | inl here ↦ ground (arith, e i, tally-cong p q (i + 1) k (λ x a b. ground (arith, e x)))
  | inr there ↦ ground (arith, e i, tally_drop p q y (i + 1) k)
]

-- If none passes the count is 0.
pub tally_zero :
    (p : ℕ → Bool) (i k : ℕ) → ((x : ℕ) → i ≤ x → x < i + k → p x ≡ false) → tally p i k ≡ 0
tally_zero p i k h = tally-cong p (λ x. false) i k h ∙ tally_none i k
