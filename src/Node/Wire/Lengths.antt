-- ===== src/Node/Wire/Lengths.antt =====
-- A number as groups of seven bits, and how many they are.
use Prim.Native.Nat.{bit_or}
use multi_raft_storage.Prelude.{
  ℕ, zero, suc, ◌+◌, ◌*◌, ◌/◌, ◌%◌, ◌^◌, ◌≤◌, ◌<◌, ◌≡◌, refl, ◌∙◌, arith, [], ◌∷◌, inl, inr, true,
  length, ltb, nat_eq, nat_eq_iff, if◌then◌else◌, Bool-cases, Bool, ◌&&◌,
}
use multi_raft_storage.Node.Partition.{Bytes}
use multi_raft_storage.Node.Wire.{digits_in, len64, sov}
use multi_raft_storage.Node.Wire.Bits.{bit_or-one}

-- The groups of seven bits of a number below 128 ^ (k + 1), the lowest first, all but the last
-- marked.
unfoldable pub groups : ℕ → ℕ → Bytes
groups zero v = v ∷ []
groups (suc k) v =
    let rest = groups k (v / 128) in if ltb v 128 then v ∷ [] else (v % 128 + 128) ∷ rest

digits_in_enough : (x n m : ℕ) → x ≤ n → x ≤ m → digits_in n x ≡ digits_in m x
unfolding digits_in
digits_in_enough x zero zero p q = refl
digits_in_enough zero zero (suc m) p q = refl
digits_in_enough (suc x) zero (suc m) p q = absurd (omega arith)
digits_in_enough zero (suc n) zero p q = refl
digits_in_enough (suc x) (suc n) zero p q = absurd (omega arith)
digits_in_enough zero (suc n) (suc m) p q = refl
digits_in_enough (suc x) (suc n) (suc m) p q =
    ground (arith, digits_in_enough (suc x / 2) n m (omega arith) (omega arith))

len64_half : (x : ℕ) → 0 < x → len64 x ≡ suc (len64 (x / 2))
unfolding len64
len64_half zero h = absurd (omega arith)
len64_half (suc x) h =
    unfold digits_in in
    ground (arith, digits_in_enough (suc x / 2) x (suc x / 2) (omega arith) (omega arith))

len64-div : (x : ℕ) → 128 ≤ x → len64 x ≡ 7 + len64 (x / 128)
len64-div x h =
    let e : x / 2 / 2 / 2 / 2 / 2 / 2 / 2 ≡ x / 128 = omega arith in
    rw (← e) (
      omega (
        arith,
        len64_half x,
        len64_half (x / 2),
        len64_half (x / 2 / 2),
        len64_half (x / 2 / 2 / 2),
        len64_half (x / 2 / 2 / 2 / 2),
        len64_half (x / 2 / 2 / 2 / 2 / 2),
        len64_half (x / 2 / 2 / 2 / 2 / 2 / 2),
      ))

len64-or : (x : ℕ) → 0 < x → len64 (bit_or x 1) ≡ len64 x
len64-or x h =
    let e : (x / 2 * 2 + 1) / 2 ≡ x / 2 = omega arith in
    rw (bit_or-one x) (len64_half _ (omega arith) ∙ rw e (omega (arith, len64_half x h)))

short_digits : (n : ℕ) → Bool
short_digits zero = true
short_digits (suc n) = ltb 0 (len64 (suc n)) && ltb (len64 (suc n)) 8 && short_digits n

short_digits_sound :
    (n x : ℕ) → short_digits n ≡ true → 0 < x → x ≤ n → (0 < len64 x) × (len64 x < 8)
unfolding short_digits
short_digits_sound zero x h p q = absurd (omega arith)
short_digits_sound (suc n) x h p q = elim (Bool-cases (nat_eq x (suc n))) [
  | inl same ↦ rw ((nat_eq_iff x (suc n)).0 same) (ground arith)
  | inr other ↦ ground (arith, short_digits_sound n x)
]

len64_short : (x : ℕ) → 0 < x → x < 128 → (0 < len64 x) × (len64 x < 8)
unfolding short_digits len64 digits_in
len64_short x h small = short_digits_sound 127 x refl h (omega arith)

-- `sovProtocol` counts the groups.
sov_short : (v : ℕ) → v < 128 → sov v ≡ 1
unfolding sov
sov_short v h =
    rw (bit_or-one v) (omega (arith, len64_short (v / 2 * 2 + 1) (omega arith) (omega arith)))

sov_long : (v : ℕ) → 128 ≤ v → sov v ≡ 1 + sov (v / 128)
unfolding sov
sov_long v h =
    rw (len64-or v (omega arith), len64-or (v / 128) (omega arith), len64-div v h) (omega arith)

pub sov_lem : (k v : ℕ) → v < 128 ^ suc k → sov v ≡ length (groups k v)
unfolding groups
sov_lem zero v h = sov_short v (omega arith)
sov_lem (suc k) v h = elim (Bool-cases (ltb v 128)) [
  | inl short ↦ rw short (sov_short v (ground arith))
  | inr long ↦
      rw (long, sov_long v (ground arith)) (omega (arith, sov_lem k (v / 128) (omega arith)))
]
