-- ===== src/Node/Wire/Writing.antt =====
-- What `Marshal` writes into a buffer of zeros from its end.
use mathlib.Core.List.{append-nil}
use multi_raft_storage.Prelude.{
  ℕ, zero, suc, ◌+◌, ◌-◌, ◌^◌, ◌<◌, ◌≡◌, refl, ap, ◌∙◌, arith, [], ◌∷◌, ◌++◌, inl, inr, ok, length,
  length-append, ltb, nat_eq, if◌then◌else◌, Bool-cases, Result, ◌>>◌, >>=-ok,
}
use multi_raft_storage.Node.Partition.{Bytes, RaftProposal}
use multi_raft_storage.Node.Wire.{
  Panic, Writer, put_byte, copy, write_from, zeros, take, sov, size, write_back, encode_varint,
  write_number, write_bytes, marshal_to, written_bytes, marshal,
}
use multi_raft_storage.Node.Wire.Lengths.{groups, sov_lem}
use multi_raft_storage.Node.Wire.Varint.{put_groups_lem}

take_all : (b : Bytes) → take (length b - 0) b ≡ b
take_all b = let e : length b - 0 ≡ length b = omega arith in rw e (take-length b)
  where
    take-length : (b : Bytes) → take (length b) b ≡ b
    take-length [] = refl
    take-length (x ∷ b) = ap (λ (t : Bytes). x ∷ t) (take-length b)

-- A buffer that is written from `k` on.
abbrev at : ℕ → Bytes → Writer
at k tail = record { buffer = zeros k ++ tail; index = k }

zeros_add : (k n : ℕ) (tail : Bytes) → zeros (k + n) ++ tail ≡ zeros k ++ (zeros n ++ tail)
zeros_add zero n tail = let e : 0 + n ≡ n = omega arith in rw e
zeros_add (suc k) n tail =
    let e : suc k + n ≡ suc (k + n) = omega arith in
    rw e (ap (λ (t : Bytes). 0 ∷ t) (zeros_add k n tail))

length-zeros : (n : ℕ) → length (zeros n) ≡ n
length-zeros zero = refl
length-zeros (suc n) = omega (arith, length-zeros n)

write_from-zeros :
    (k : ℕ) (f : Bytes → Result Panic Bytes) (tail r : Bytes)
    → f tail ≡ ok r
    → write_from k f (zeros k ++ tail) ≡ ok (zeros k ++ r)
write_from-zeros zero f tail r h = h
write_from-zeros (suc k) f tail r h = rw (write_from-zeros k f tail r h)

write_back_lem :
    (k n m : ℕ) (f : Bytes → Result Panic Bytes) (tail r : Bytes)
    → m ≡ k + n
    → f (zeros n ++ tail) ≡ ok r
    → write_back n f (at m tail) ≡ (ok tt, at k r)
unfolding write_back
write_back_lem k n m f tail r e h =
    let start : k + n - n ≡ k = omega arith in
    let path : write_from (k + n - n) f (zeros (k + n) ++ tail) ≡ ok (zeros k ++ r) =
      rw (start, zeros_add k n tail) (write_from-zeros k f (zeros n ++ tail) r h) in
    rw e (ground (arith, path))

copy_lem : (src tail : Bytes) → copy src (zeros (length src) ++ tail) ≡ ok (src ++ tail)
copy_lem [] [] = refl
copy_lem [] (b ∷ tail) = refl
copy_lem (s ∷ src) tail = rw (copy_lem src tail)

encode_varint_lem :
    (k m v : ℕ) (tail : Bytes)
    → v < 2 ^ 64
    → m ≡ k + length (groups 9 v)
    → encode_varint v (at m tail) ≡ (ok tt, at k (groups 9 v ++ tail))
unfolding encode_varint
encode_varint_lem k m v tail h e =
    let count = sov_lem 9 v (omega arith) in
    write_back_lem k (sov v) m _ tail _ (omega (arith, count)) (
      put_groups_lem 9 v (zeros (sov v)) tail (omega arith)
        (omega (arith, count, length-zeros (sov v))))

-- The bytes of a field, and of a proposal.
abbrev pub number_field : ℕ → ℕ → Bytes
number_field key v = if nat_eq v 0 then [] else key ∷ groups 9 v

abbrev pub bytes_field : Bytes → Bytes
bytes_field bytes = if ltb 0 (length bytes) then 0x1a ∷ (groups 9 (length bytes) ++ bytes) else []

abbrev pub encoding : RaftProposal → Bytes
encoding p = number_field 0x8 p.term ++ (number_field 0x10 p.sequence_num ++ bytes_field p.bytes)

module _ (k key v : ℕ) (tail : Bytes) where
  abbrev body : Bytes
  body = groups 9 v ++ tail

  keyed : (n : ℕ) → n ≡ k + 1 → write_back 1 (put_byte key) (at n body) ≡ (ok tt, at k (key ∷ body))
  keyed n e = write_back_lem k 1 n (put_byte key) body (key ∷ body) e refl

  field_lem :
      (m : ℕ)
      → v < 2 ^ 64
      → m ≡ k + suc (length (groups 9 v))
      → (encode_varint v >> write_back 1 (put_byte key)) (at m tail) ≡ (ok tt, at k (key ∷ body))
  field_lem m h e =
      >>=-ok (encode_varint v) _ (at m tail) (at (k + 1) body) tt
        (encode_varint_lem (k + 1) m v tail h (omega arith))
      ∙ keyed (k + 1) refl

write_number_lem :
    (k m key v : ℕ) (tail : Bytes)
    → v < 2 ^ 64
    → m ≡ k + length (number_field key v)
    → write_number key v (at m tail) ≡ (ok tt, at k (number_field key v ++ tail))
unfolding write_number
write_number_lem k m key v tail h e = elim (Bool-cases (nat_eq v 0)) [
  | inl zero_value ↦ let same : m ≡ k = omega (arith, rw zero_value at e) in rw (zero_value, same)
  | inr other_value ↦ rw other_value (field_lem k key v tail m h (rw other_value at e))
]

write_bytes_lem :
    (k m : ℕ) (bytes : Bytes)
    → length bytes < 2 ^ 64
    → m ≡ k + length (bytes_field bytes)
    → write_bytes bytes (at m []) ≡ (ok tt, at k (bytes_field bytes))
unfolding write_bytes
write_bytes_lem k m bytes h e = elim (Bool-cases (ltb 0 (length bytes))) [
  | inl filled ↦
      let e' : m ≡ k + suc (length (groups 9 (length bytes) ++ bytes)) = rw filled at e in
      let middle = k + suc (length (groups 9 (length bytes))) in
      rw filled (
        >>=-ok (write_back (length bytes) (copy bytes)) _ (at m []) (at middle bytes) tt (
          rw (append-nil bytes) at (
            write_back_lem middle (length bytes) m (copy bytes) [] (bytes ++ [])
              (omega (arith, length-append (groups 9 (length bytes)) bytes)) (copy_lem bytes [])))
        ∙ field_lem k 0x1a (length bytes) bytes middle h refl)
  | inr empty ↦ let same : m ≡ k = omega (arith, rw empty at e) in rw (empty, same)
]

-- A proposal whose numbers fit 64 bits.
pub record IsEncodable (p : RaftProposal) : Type 0 where
  pub term_fits : p.term < 2 ^ 64
  pub sequence_num_fits : p.sequence_num < 2 ^ 64
  pub length_fits : length p.bytes + 64 < 2 ^ 63

number_size :
    (key v : ℕ) → v < 2 ^ 64 → (if nat_eq v 0 then 0 else 1 + sov v) ≡ length (number_field key v)
number_size key v h = elim (Bool-cases (nat_eq v 0)) [
  | inl zero_value ↦ rw zero_value
  | inr other_value ↦ rw other_value (omega (arith, sov_lem 9 v (omega arith)))
]

bytes_size :
    (bytes : Bytes)
    → length bytes < 2 ^ 64
    → (if ltb 0 (length bytes) then 1 + length bytes + sov (length bytes) else 0)
      ≡ length (bytes_field bytes)
bytes_size bytes h = elim (Bool-cases (ltb 0 (length bytes))) [
  | inl filled ↦ rw filled (
      omega (
        arith,
        sov_lem 9 (length bytes) (omega arith),
        length-append (groups 9 (length bytes)) bytes,
      ))
  | inr empty ↦ rw empty
]

module _ (p : RaftProposal) (fits : IsEncodable p) where
  -- `Size` is the length of the encoding.
  pub size_lem : size p ≡ length (encoding p)
  unfolding size
  size_lem = omega (
    arith,
    number_size 0x8 p.term fits.term_fits,
    number_size 0x10 p.sequence_num fits.sequence_num_fits,
    bytes_size p.bytes (omega (arith, fits.length_fits)),
    length-append (number_field 0x8 p.term)
        (number_field 0x10 p.sequence_num ++ bytes_field p.bytes),
    length-append (number_field 0x10 p.sequence_num) (bytes_field p.bytes),
  )

  marshal_to_lem : marshal_to p (at (size p) []) ≡ (ok tt, at 0 (encoding p))
  unfolding marshal_to
  marshal_to_lem =
      let first = length (number_field 0x8 p.term) in
      let second = length (number_field 0x10 p.sequence_num) in
      let rest = number_field 0x10 p.sequence_num ++ bytes_field p.bytes in
      >>=-ok (write_bytes p.bytes) _ _ (at (first + second) (bytes_field p.bytes)) tt (
        write_bytes_lem (first + second) (size p) p.bytes (omega (arith, fits.length_fits)) (
          omega (
            arith,
            size_lem,
            length-append (number_field 0x8 p.term) rest,
            length-append (number_field 0x10 p.sequence_num) (bytes_field p.bytes),
          )))
      ∙ >>=-ok (write_number 0x10 p.sequence_num) _ _ (at first rest) tt (
          write_number_lem first (first + second) 0x10 p.sequence_num (bytes_field p.bytes)
            fits.sequence_num_fits refl)
      ∙ write_number_lem 0 first 0x8 p.term rest fits.term_fits (omega arith)

  pub marshal_lem : marshal p ≡ ok (encoding p)
  unfolding marshal
  marshal_lem =
      let written = rw (append-nil (zeros (size p))) at marshal_to_lem in
      ap written_bytes written ∙ ap ok (take_all (encoding p))
