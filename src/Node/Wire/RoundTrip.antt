-- ===== src/Node/Wire/RoundTrip.antt =====
-- What `Unmarshal` reads of what `Marshal` writes.
use multi_raft_storage.Prelude.{
  ℕ, zero, suc, ◌+◌, ◌-◌, ◌^◌, ◌<◌, ◌≤◌, ◌≡◌, refl, ap, ◌∙◌, sym, arith, [], ◌∷◌, ◌++◌, inl, inr,
  false, ok, length, length-append, ltb, nat_eq, nat_eq_iff, subst, Bool-cases, >>=-ok,
}
use multi_raft_storage.Prelude.Int.{u64}
use multi_raft_storage.Node.Partition.{Bytes, RaftProposal}
use multi_raft_storage.Node.Wire.{take, drop, size, marshal}
use multi_raft_storage.Node.Wire.Reading.{
  read_varint, read_field, read_bytes, read_bytes_from, unmarshal_loop, unmarshal,
}
use multi_raft_storage.Node.Wire.Lengths.{groups}
use multi_raft_storage.Node.Wire.Varint.{length-groups, read_varint_lem}
use multi_raft_storage.Node.Wire.Writing.{
  number_field, bytes_field, encoding, IsEncodable, size_lem, marshal_lem,
}

module _ (l v : ℕ) (p : RaftProposal) (rest : Bytes) (h : v < 2 ^ 64) where
  read_term : read_field l p (0x8 ∷ (groups 9 v ++ rest)) ≡ (ok (record p { term = v }), rest)
  unfolding read_field
  read_term = >>=-ok read_varint _ (groups 9 v ++ rest) rest v (read_varint_lem v rest h)

  read_sequence_num :
      read_field l p (0x10 ∷ (groups 9 v ++ rest)) ≡ (ok (record p { sequence_num = v }), rest)
  unfolding read_field
  read_sequence_num = >>=-ok read_varint _ (groups 9 v ++ rest) rest v (read_varint_lem v rest h)

take-length : (b : Bytes) → take (length b) b ≡ b
take-length [] = refl
take-length (x ∷ b) = ap (λ (t : Bytes). x ∷ t) (take-length b)

drop-length : (b : Bytes) → drop (length b) b ≡ []
drop-length [] = refl
drop-length (x ∷ b) = drop-length b

module _ (l : ℕ) (p : RaftProposal) (body : Bytes) (h : length body ≤ l) (fits : l < 2 ^ 63) where
  -- The field of the bytes is the last.
  read_bytes_lem : read_bytes l 2 (groups 9 (length body) ++ body) ≡ (ok body, [])
  unfolding read_bytes
  read_bytes_lem =
      let all : u64 (l - length body + length body) ≡ l = omega arith in
      >>=-ok read_varint (λ n. read_bytes_from l n) (groups 9 (length body) ++ body) body
        (length body) (read_varint_lem (length body) body (omega arith))
      ∙ ground (arith, all, take-length body, drop-length body)

  read_body :
      read_field l p (0x1a ∷ (groups 9 (length body) ++ body))
      ≡ (ok (record p { bytes = body }), [])
  unfolding read_field
  read_body = >>=-ok (read_bytes l 2) _ (groups 9 (length body) ++ body) [] body read_bytes_lem

loop_step :
    (rounds l b : ℕ) (p p' : RaftProposal) (rest rest' : Bytes)
    → 0 < rounds
    → read_field l p (b ∷ rest) ≡ (ok p', rest')
    → unmarshal_loop rounds l p (b ∷ rest) ≡ unmarshal_loop (rounds - 1) l p' rest'
loop_step zero l b p p' rest rest' pos h = absurd (omega arith)
loop_step (suc rounds) l b p p' rest rest' pos h =
    let e : suc rounds - 1 ≡ rounds = omega arith in
    rw e (unfold unmarshal_loop in ground (arith, h))

loop_end : (rounds l : ℕ) (p : RaftProposal) → unmarshal_loop rounds l p [] ≡ ok p
unfolding unmarshal_loop
loop_end zero l p = refl
loop_end (suc rounds) l p = refl

none_left : (b : Bytes) → ltb 0 (length b) ≡ false → [] ≡ b
none_left [] h = refl
none_left (x ∷ b) h = absurd (ground arith)

abbrev proposal : ℕ → ℕ → Bytes → RaftProposal
proposal term n body = record { term = term; sequence_num = n; bytes = body }

module _ (l term n : ℕ) (body : Bytes) (fits : l < 2 ^ 63) where
  read_last :
      (rounds : ℕ)
      → length (bytes_field body) ≤ rounds
      → length (bytes_field body) ≤ l
      → unmarshal_loop rounds l (proposal term n []) (bytes_field body) ≡ ok (proposal term n body)
  read_last rounds enough long = elim (Bool-cases (ltb 0 (length body))) [
    | inl filled ↦
        let enough' = rw filled at enough in
        let long' = rw filled at long in
        rw filled (
          loop_step rounds l 0x1a _ _ (groups 9 (length body) ++ body) [] (omega arith) (
            read_body l (proposal term n []) body
              (omega (arith, length-append (groups 9 (length body)) body)) fits)
          ∙ loop_end (rounds - 1) l (proposal term n body))
    | inr empty ↦
        rw empty
          (loop_end rounds l _ ∙ ap (λ (b : Bytes). ok (proposal term n b)) (none_left body empty))
  ]

  read_middle :
      (rounds : ℕ)
      → n < 2 ^ 64
      → length (number_field 0x10 n ++ bytes_field body) ≤ rounds
      → length (bytes_field body) ≤ l
      → unmarshal_loop rounds l (proposal term 0 []) (number_field 0x10 n ++ bytes_field body)
        ≡ ok (proposal term n body)
  read_middle rounds h enough long = elim (Bool-cases (nat_eq n 0)) [
    | inl zero_value ↦
        let same : n ≡ 0 = (nat_eq_iff n 0).0 zero_value in
        rw zero_value (
          subst
            (λ k.
              unmarshal_loop rounds l (proposal term k []) (bytes_field body)
              ≡ ok (proposal term n body))
            same (read_last rounds (omega (arith, rw zero_value at enough)) long))
    | inr other_value ↦
        let enough' = rw other_value at enough in
        rw other_value (
          loop_step rounds l 0x10 _ _ (groups 9 n ++ bytes_field body) (bytes_field body)
            (omega arith) (read_sequence_num l n (proposal term 0 []) (bytes_field body) h)
          ∙ read_last (rounds - 1) (omega (arith, length-append (groups 9 n) (bytes_field body)))
              long)
  ]

  read_first :
      (rounds : ℕ)
      → term < 2 ^ 64
      → n < 2 ^ 64
      → length (encoding (proposal term n body)) ≤ rounds
      → length (bytes_field body) ≤ l
      → unmarshal_loop rounds l (proposal 0 0 []) (encoding (proposal term n body))
        ≡ ok (proposal term n body)
  read_first rounds h h' enough long = elim (Bool-cases (nat_eq term 0)) [
    | inl zero_value ↦
        let same : term ≡ 0 = (nat_eq_iff term 0).0 zero_value in
        rw zero_value (
          subst
            (λ k.
              unmarshal_loop rounds l (proposal k 0 []) (number_field 0x10 n ++ bytes_field body)
              ≡ ok (proposal term n body))
            same (read_middle rounds h' (rw zero_value at enough) long))
    | inr other_value ↦
        let enough' = rw other_value at enough in
        let rest = number_field 0x10 n ++ bytes_field body in
        rw other_value (
          loop_step rounds l 0x8 _ _ (groups 9 term ++ rest) rest (omega arith)
            (read_term l term (proposal 0 0 []) rest h)
          ∙ read_middle (rounds - 1) h' (omega (arith, length-append (groups 9 term) rest)) long)
  ]

length-number_field : (key v : ℕ) → length (number_field key v) ≤ 11
length-number_field key v = ground (arith, length-groups 9 v)

length-bytes_field : (b : Bytes) → length (bytes_field b) ≤ length b + 11
length-bytes_field b = elim (Bool-cases (ltb 0 (length b))) [
  | inl filled ↦
      rw filled (omega (arith, length-append (groups 9 (length b)) b, length-groups 9 (length b)))
  | inr empty ↦ rw empty (omega arith)
]

length-encoding : (p : RaftProposal) → length (encoding p) ≤ length p.bytes + 34
length-encoding p = omega (
  arith,
  length-number_field 0x8 p.term,
  length-number_field 0x10 p.sequence_num,
  length-bytes_field p.bytes,
  length-append (number_field 0x8 p.term) (number_field 0x10 p.sequence_num ++ bytes_field p.bytes),
  length-append (number_field 0x10 p.sequence_num) (bytes_field p.bytes),
)

-- For a proposal whose term and number fit 64 bits, and whose bytes leave room for the keys in a
-- slice, `Marshal` fills its buffer without a panic, to the length that `Size` gives, and
-- `Unmarshal` reads the proposal back.
pub unmarshal-marshal :
    (p : RaftProposal)
    → IsEncodable p
    → (b : Bytes) × (marshal p ≡ ok b) × (length b ≡ size p) × (unmarshal b ≡ ok p)
unfolding unmarshal
unmarshal-marshal p fits =
    let body_length : length (bytes_field p.bytes) ≤ length (encoding p) = omega (
      arith,
      length-append (number_field 0x8 p.term)
          (number_field 0x10 p.sequence_num ++ bytes_field p.bytes),
      length-append (number_field 0x10 p.sequence_num) (bytes_field p.bytes),
    ) in
    let slice : length (encoding p) < 2 ^ 63 = omega (arith, fits.length_fits, length-encoding p) in
    (
      encoding p,
      marshal_lem p fits,
      sym (size_lem p fits),
      read_first (length (encoding p)) p.term p.sequence_num p.bytes slice (length (encoding p))
          fits.term_fits fits.sequence_num_fits (omega arith) body_length,
    )
