-- ===== src/Base/Sums.antt =====
-- Sums over the first indices of a family.
use mathlib.Core.Option.{Option, none, some}
use Prim.Native.Nat.{ℕ, zero, suc, ◌+◌, ◌*◌, ◌≤◌, ◌<◌}
use mathlib.Core.Path.{◌≡◌, refl}
use native.Mathlib.Decide.{dec_lt, ℕ_discrete}
use native.Mathlib.Omega.{arith}
use mathlib.Core.Logic.{◌≢◌, if_neg}
use qc.Base.Tests.{update}

pub sum : ℕ → (ℕ → ℕ) → ℕ
sum zero f = 0
sum (suc n) f = sum n f + f n

pub le-sum : (n : ℕ) (f : ℕ → ℕ) (i : ℕ) → i < n → f i ≤ sum n f
unfolding sum
le-sum zero f i h = absurd (omega arith)
le-sum (suc n) f i h = elim (dec_lt i n) [
  | yes below ↦ omega (arith, le-sum n f i below)
  | no last ↦ ground arith
]

sum-update_above {ℓ} :
    {A : Type ℓ} (g : A → ℕ) (n : ℕ) (f : ℕ → A) (i : ℕ) (a : A)
    → n ≤ i
    → sum n (λ j. g (update f i a j)) ≡ sum n (λ j. g (f j))
unfolding sum
sum-update_above g zero f i a h = refl
sum-update_above g (suc n) f i a h = ground (arith, sum-update_above g n f i a)

-- A change at one index changes the sum by the difference there.
pub sum-update {ℓ} :
    {A : Type ℓ} (g : A → ℕ) (n : ℕ) (f : ℕ → A) (i : ℕ) (a : A)
    → i < n
    → sum n (λ j. g (update f i a j)) + g (f i) ≡ sum n (λ j. g (f j)) + g a
unfolding sum
sum-update g zero f i a h = absurd (omega arith)
sum-update g (suc n) f i a h = elim (dec_lt i n) [
  | yes below ↦ ground (arith, sum-update g n f i a below)
  | no last ↦ ground (arith, sum-update_above g n f i a)
]

pub sum_eq_zero : (n : ℕ) (f : ℕ → ℕ) → ((i : ℕ) → f i ≡ 0) → sum n f ≡ 0
unfolding sum
sum_eq_zero zero f h = refl
sum_eq_zero (suc n) f h = omega (arith, sum_eq_zero n f h, h n)

pub sum_bound : (b n : ℕ) (f : ℕ → ℕ) → ((i : ℕ) → f i ≤ b) → sum n f ≤ n * b
unfolding sum
sum_bound b zero f h = omega arith
sum_bound b (suc n) f h = omega (arith, sum_bound b n f h, h n)

-- A chain of steps each of which may fail.
infixl 5 ◌>>=◌
abbrev pub ◌>>=◌ {ℓ κ} : {A : Type ℓ} {B : Type κ} → Option A → (A → Option B) → Option B
none >>= f = none
some a >>= f = f a

pub sum_zero_below : (n : ℕ) (f : ℕ → ℕ) → ((i : ℕ) → i < n → f i ≡ 0) → sum n f ≡ 0
unfolding sum
sum_zero_below zero f h = refl
sum_zero_below (suc n) f h =
    omega (arith, sum_zero_below n f (λ i l. h i (omega arith)), h n (omega arith))

pub sum_agree : (n : ℕ) (f g : ℕ → ℕ) → ((i : ℕ) → i < n → f i ≡ g i) → sum n f ≡ sum n g
unfolding sum
sum_agree zero f g h = refl
sum_agree (suc n) f g h =
    omega (arith, sum_agree n f g (λ i l. h i (omega arith)), h n (omega arith))

pub pair-le-sum : (n : ℕ) (f : ℕ → ℕ) (i j : ℕ) → i < n → j < n → i ≢ j → f i + f j ≤ sum n f
pair-le-sum n f i j li lj ne =
    let other : update f i 0 j ≤ sum n (update f i 0) = le-sum n (update f i 0) j lj in
    omega (arith, sum-update (λ x. x) n f i 0 li, other, if_neg (ℕ_discrete i j) ne 0 (f j))
