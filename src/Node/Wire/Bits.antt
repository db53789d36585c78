-- ===== src/Node/Wire/Bits.antt =====
-- What `&` and `|` are on numbers where one operand is a mask, or where they share no digit.
use Prim.Native.Nat.{min, max, digits, bit_and, bit_or, bit_and-bitwise, bit_or-bitwise}
use multi_raft_storage.Prelude.{
  ℕ, zero, suc, ◌+◌, ◌*◌, ◌/◌, ◌%◌, ◌^◌, ◌≤◌, ◌<◌, ◌≡◌, refl, ap, arith,
}

-- Rounds beyond the first operand's value add nothing to the digits.
module _ (rest : ℕ → ℕ) (f : ℕ → ℕ → ℕ) where
  enough_rounds : (a b n m : ℕ) → a ≤ n → a ≤ m → digits rest f n a b ≡ digits rest f m a b
  enough_rounds zero b zero zero p q = refl
  enough_rounds zero b zero (suc m) p q = refl
  enough_rounds zero b (suc n) zero p q = refl
  enough_rounds zero b (suc n) (suc m) p q = refl
  enough_rounds (suc a) b zero m p q = absurd (omega arith)
  enough_rounds (suc a) b (suc n) zero p q = absurd (omega arith)
  enough_rounds (suc a) b (suc n) (suc m) p q =
      rw (enough_rounds (suc a / 2) (b / 2) n m (omega arith) (omega arith))

  lowest_digit :
      (a b : ℕ)
      → digits rest f (suc a) (suc a) b
        ≡ digits rest f (suc a / 2) (suc a / 2) (b / 2) * 2 + f (suc a % 2) (b % 2)
  lowest_digit a b =
      omega (arith, enough_rounds (suc a / 2) (b / 2) a (suc a / 2) (omega arith) (omega arith))

or_lowest : (a b : ℕ) → bit_or a b ≡ bit_or (a / 2) (b / 2) * 2 + max (a % 2) (b % 2)
or_lowest zero b = simp bit_or-bitwise (omega arith)
or_lowest (suc a) b = simp bit_or-bitwise (lowest_digit (λ y. y) max a b)

and_lowest : (a b : ℕ) → bit_and a b ≡ bit_and (a / 2) (b / 2) * 2 + min (a % 2) (b % 2)
and_lowest zero b = simp bit_and-bitwise (omega arith)
and_lowest (suc a) b = simp bit_and-bitwise (lowest_digit (λ y. 0) min a b)

or_nothing : (rounds a : ℕ) → a ≤ rounds → bit_or a 0 ≡ a
or_nothing rounds zero h = refl
or_nothing zero (suc a) h = absurd (omega arith)
or_nothing (suc rounds) (suc a) h =
    omega (arith, or_lowest (suc a) 0, or_nothing rounds (suc a / 2) (omega arith))

and_nothing : (rounds a : ℕ) → a ≤ rounds → bit_and a 0 ≡ 0
and_nothing rounds zero h = refl
and_nothing zero (suc a) h = absurd (omega arith)
and_nothing (suc rounds) (suc a) h =
    omega (arith, and_lowest (suc a) 0, and_nothing rounds (suc a / 2) (omega arith))

-- `x | 1`
pub bit_or-one : (x : ℕ) → bit_or x 1 ≡ x / 2 * 2 + 1
bit_or-one x = omega (arith, or_lowest x 1, or_nothing (x / 2) (x / 2) (omega arith))

-- Masks of ones, each from the one before.
and_one : (x : ℕ) → bit_and x 1 ≡ x % 2
and_one x = omega (arith, and_lowest x 1, and_nothing (x / 2) (x / 2) (omega arith))

and_three : (x : ℕ) → bit_and x 3 ≡ x % 4
and_three x = omega (arith, and_lowest x 3, and_one (x / 2))

and_seven : (x : ℕ) → bit_and x 7 ≡ x % 8
and_seven x = omega (arith, and_lowest x 7, and_three (x / 2))

and_fifteen : (x : ℕ) → bit_and x 15 ≡ x % 16
and_fifteen x = omega (arith, and_lowest x 15, and_seven (x / 2))

and_thirty_one : (x : ℕ) → bit_and x 31 ≡ x % 32
and_thirty_one x = omega (arith, and_lowest x 31, and_fifteen (x / 2))

and_sixty_three : (x : ℕ) → bit_and x 63 ≡ x % 64
and_sixty_three x = omega (arith, and_lowest x 63, and_thirty_one (x / 2))

-- `x & 0x7f`
pub bit_and-low : (x : ℕ) → bit_and x 0x7f ≡ x % 128
bit_and-low x = omega (arith, and_lowest x 127, and_sixty_three (x / 2))

-- Above the digits of the first operand the second is added.
pub bit_or-shifted : (s a b : ℕ) → a < 2 ^ s → bit_or a (b * 2 ^ s) ≡ a + b * 2 ^ s
bit_or-shifted zero zero b h =
    let plain : b * 2 ^ 0 ≡ b = omega arith in rw plain (omega (arith, bit_or-bitwise 0 b))
bit_or-shifted zero (suc a) b h = absurd (omega arith)
bit_or-shifted (suc s) a b h =
    let double : 2 ^ suc s ≡ 2 * 2 ^ s = omega arith in
    let shifted : b * 2 ^ suc s ≡ b * 2 ^ s * 2 = omega (arith, ap (λ (t : ℕ). b * t) double) in
    rw shifted (
      omega (
        arith,
        or_lowest a (b * 2 ^ s * 2),
        bit_or-shifted s (a / 2) b (omega (arith, double)),
        (let e : b * 2 ^ s * 2 / 2 ≡ b * 2 ^ s = omega arith in ap (λ (t : ℕ). bit_or (a / 2) t) e),
      ))
