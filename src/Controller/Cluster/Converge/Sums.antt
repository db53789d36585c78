-- ===== src/Controller/Cluster/Converge/Sums.antt =====
-- Sums over numbered groups and members.
use multi_raft_storage.Prelude.{ℕ, zero, suc, ◌+◌, ◌*◌, ◌≤◌, ◌<◌, ◌≡◌, refl, arith}
use native.Mathlib.Decide.{dec_le}
use native.Mathlib.Nat.{mul-le-mul, suc-mul, le_refl}
use multi_raft_storage.Controller.Cluster.Converge.{sum}

pub sum_le : (f g : ℕ → ℕ) (rounds i : ℕ) → ((j : ℕ) → f j ≤ g j) → sum f rounds i ≤ sum g rounds i
unfolding sum
sum_le f g zero i h = omega arith
sum_le f g (suc rounds) i h = omega (arith, h i, sum_le f g rounds (suc i) h)

-- One summand goes down and none goes up.
pub sum_lt :
    (f g : ℕ → ℕ) (rounds i k : ℕ)
    → ((j : ℕ) → f j ≤ g j)
    → i ≤ k
    → k < i + rounds
    → f k < g k
    → sum f rounds i < sum g rounds i
unfolding sum
sum_lt f g zero i k h lo hi down = absurd (omega arith)
sum_lt f g (suc rounds) i k h lo hi down = elim (dec_le k i) [
  | yes here ↦
      let same : k ≡ i = omega arith in
      let down_i : f i < g i = rw (← same) down in omega (arith, sum_le f g rounds (suc i) h)
  | no later ↦ omega (arith, h i, sum_lt f g rounds (suc i) k h (omega arith) (omega arith) down)
]

pub sum_bound : (f : ℕ → ℕ) (b rounds i : ℕ) → ((j : ℕ) → f j ≤ b) → sum f rounds i ≤ rounds * b
unfolding sum
sum_bound f b zero i h = omega arith
sum_bound f b (suc rounds) i h = omega (arith, h i, sum_bound f b rounds (suc i) h)

pub sum_zero :
    (f : ℕ → ℕ) (rounds i : ℕ) → ((j : ℕ) → i ≤ j → j < i + rounds → f j ≡ 0) → sum f rounds i ≡ 0
unfolding sum
sum_zero f zero i h = refl
sum_zero f (suc rounds) i h = omega (
  arith,
  h i (omega arith) (omega arith),
  sum_zero f rounds (suc i) (λ j lo hi. h j (omega arith) (omega arith)),
)

-- One unit of a weight outweighs all that is lighter.
pub weight_lt : (m n w a b : ℕ) → m < n → a < w → m * w + a < n * w + b
weight_lt m n w a b less light =
    let up : suc m ≤ n = less in omega (arith, mul-le-mul up (le_refl w), suc-mul m w)

pub weight_le : (m n w a b : ℕ) → m ≤ n → a < b → m * w + a < n * w + b
weight_le m n w a b less light = omega (arith, mul-le-mul less (le_refl w))
