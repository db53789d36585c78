-- ===== src/Node/Wire/Varint.antt =====
-- A number as groups of seven bits: what is written, and what is read.
use Prim.Native.Nat.{bit_and, bit_or}
use native.Mathlib.Numerals.{towards_suc}
use native.Mathlib.Nat.{div-add-mod}
use native.Mathlib.Decide.{dec_lt}
use multi_raft_storage.Prelude.{
  ℕ, zero, suc, ◌+◌, ◌*◌, ◌/◌, ◌%◌, ◌^◌, ◌≤◌, ◌<◌, ◌≡◌, refl, ap, ◌∙◌, arith, [], ◌∷◌, ◌++◌, ok,
  length,
}
use multi_raft_storage.Node.Partition.{Bytes}
use multi_raft_storage.Node.Wire.{put_groups}
use multi_raft_storage.Node.Wire.Reading.{read_groups, read_varint}
use multi_raft_storage.Node.Wire.Bits.{bit_and-low, bit_or-shifted}
use multi_raft_storage.Node.Wire.Lengths.{groups}

pub groups_pos : (k v : ℕ) → 0 < length (groups k v)
unfolding groups
groups_pos zero v = omega arith
groups_pos (suc k) v = ground arith

pub length-groups : (k v : ℕ) → length (groups k v) ≤ k + 1
unfolding groups
length-groups zero v = omega arith
length-groups (suc k) v = ground (arith, length-groups k (v / 128))

marked : (v : ℕ) → bit_or (bit_and v 0x7f) 0x80 % 256 ≡ v % 128 + 128
marked v = rw (bit_and-low v) (omega (arith, bit_or-shifted 7 (v % 128) 1 (omega arith)))

put_groups_short :
    (v : ℕ) (gap rest : Bytes)
    → v < 128
    → length gap ≡ 1
    → put_groups v (gap ++ rest) ≡ ok (v ∷ rest)
unfolding put_groups
put_groups_short v [] rest h len = absurd (omega arith)
put_groups_short v (g ∷ []) rest h len = ground arith
put_groups_short v (g ∷ _ ∷ gap) rest h len = absurd (omega arith)

put_groups_long :
    (v g : ℕ) (rest r : Bytes)
    → 128 ≤ v
    → put_groups (v / 128) rest ≡ ok r
    → put_groups v (g ∷ rest) ≡ ok ((v % 128 + 128) ∷ r)
unfolding put_groups
put_groups_long v g rest r h next = ground (arith, marked v)

groups_short : (k v : ℕ) → v < 128 → groups k v ≡ v ∷ []
unfolding groups
groups_short zero v h = refl
groups_short (suc k) v h = ground arith

groups_long : (k v : ℕ) → 128 ≤ v → groups (suc k) v ≡ (v % 128 + 128) ∷ groups k (v / 128)
unfolding groups
groups_long k v h = ground arith

-- The loop of `encodeVarintProtocol` fills as many bytes as there are groups.
pub put_groups_lem :
    (k v : ℕ) (gap rest : Bytes)
    → v < 128 ^ suc k
    → length gap ≡ length (groups k v)
    → put_groups v (gap ++ rest) ≡ ok (groups k v ++ rest)
put_groups_lem k v [] rest h len = absurd (omega (arith, groups_pos k v))
put_groups_lem zero v (g ∷ gap) rest h len =
    let short = groups_short 0 v (omega arith) in
    rw short (put_groups_short v (g ∷ gap) rest (omega arith) (rw short at len))
put_groups_lem (suc k) v (g ∷ gap) rest h len = elim (dec_lt v 128) [
  | yes short ↦
      rw (groups_short (suc k) v short)
        (put_groups_short v (g ∷ gap) rest short (rw (groups_short (suc k) v short) at len))
  | no long ↦
      let e = groups_long k v (omega arith) in
      let len' = rw e at len in
      rw e (
        put_groups_long v g (gap ++ rest) _ (omega arith)
          (put_groups_lem k (v / 128) gap rest (omega arith) (omega arith)))
]

-- What the loops of `Unmarshal` read: `acc` lies below the bits that are still to come.
add_group :
    (shift acc b : ℕ)
    → acc < 2 ^ shift
    → acc + b % 128 * 2 ^ shift < 2 ^ 64
    → bit_or acc (bit_and b 0x7f * 2 ^ shift % 2 ^ 64) ≡ acc + b % 128 * 2 ^ shift
add_group shift acc b below fits =
    let e : b % 128 * 2 ^ shift % 2 ^ 64 ≡ b % 128 * 2 ^ shift = omega arith in
    rw (bit_and-low b, e) (bit_or-shifted shift acc (b % 128) below)

read_last :
    (shift acc b : ℕ) (rest : Bytes)
    → shift < 64
    → b < 128
    → acc < 2 ^ shift
    → acc + b * 2 ^ shift < 2 ^ 64
    → read_groups shift acc (b ∷ rest) ≡ (ok (acc + b * 2 ^ shift), rest)
unfolding read_groups
read_last shift acc b rest low small below fits =
    let e : b % 128 ≡ b = omega arith in
    ground (arith, rw e at (add_group shift acc b below (rw e fits)))

read_marked :
    (shift acc g : ℕ) (rest : Bytes)
    → shift < 64
    → g < 128
    → acc < 2 ^ shift
    → acc + g * 2 ^ shift < 2 ^ 64
    → read_groups shift acc ((g + 128) ∷ rest) ≡ read_groups (shift + 7) (acc + g * 2 ^ shift) rest
unfolding read_groups
read_marked shift acc g rest low small below fits =
    let e : (g + 128) % 128 ≡ g = omega arith in
    ground (arith, rw e at (add_group shift acc (g + 128) below (rw e fits)))

shift_group : (s : ℕ) → 2 ^ (s + 7) ≡ 128 * 2 ^ s
shift_group s = simp towards_suc (omega arith)

regroup : (v s : ℕ) → v * 2 ^ s ≡ v % 128 * 2 ^ s + v / 128 * 2 ^ (s + 7)
regroup v s = omega (
  arith,
  ap (λ (t : ℕ). t * 2 ^ s) (div-add-mod v 128),
  ap (λ (t : ℕ). v / 128 * t) (shift_group s),
)

below_next : (s acc g : ℕ) → acc < 2 ^ s → g < 128 → acc + g * 2 ^ s < 2 ^ (s + 7)
below_next s acc g h small = rw (shift_group s) (grind arith)

pub read_groups_lem :
    (k v shift acc : ℕ) (rest : Bytes)
    → v < 128 ^ suc k
    → shift + 7 * k < 64
    → acc < 2 ^ shift
    → acc + v * 2 ^ shift < 2 ^ 64
    → read_groups shift acc (groups k v ++ rest) ≡ (ok (acc + v * 2 ^ shift), rest)
read_groups_lem zero v shift acc rest h low below fits =
    rw (groups_short 0 v (omega arith))
      (read_last shift acc v rest (omega arith) (omega arith) below fits)
read_groups_lem (suc k) v shift acc rest h low below fits = elim (dec_lt v 128) [
  | yes short ↦
      rw (groups_short (suc k) v short) (read_last shift acc v rest (omega arith) short below fits)
  | no long ↦
      let next = acc + v % 128 * 2 ^ shift in
      let whole : next + v / 128 * 2 ^ (shift + 7) ≡ acc + v * 2 ^ shift =
        omega (arith, regroup v shift) in
      rw (groups_long k v (omega arith)) (
        read_marked shift acc (v % 128) (groups k (v / 128) ++ rest) (omega arith) (omega arith)
          below (omega (arith, regroup v shift))
        ∙ rw (← whole) (
            read_groups_lem k (v / 128) (shift + 7) next rest (omega arith) (omega arith)
              (below_next shift acc (v % 128) below (omega arith)) (rw whole fits)))
]

pub read_varint_lem :
    (v : ℕ) (rest : Bytes) → v < 2 ^ 64 → read_varint (groups 9 v ++ rest) ≡ (ok v, rest)
unfolding read_varint
read_varint_lem v rest h =
    let e : 0 + v * 2 ^ 0 ≡ v = omega arith in
    rw e at (read_groups_lem 9 v 0 0 rest (omega arith) (omega arith) (omega arith) (omega arith))
