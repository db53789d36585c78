-- ===== src/Node/Wire/Total.antt =====
-- `Unmarshal` on any bytes: every round takes a byte, so its loop ends, and no index or slice is negative.
use Prim.Native.Nat.{bit_and}
use multi_raft_storage.Prelude.{
  ℕ, String, zero, suc, ◌+◌, ◌-◌, ◌/◌, ◌^◌, ◌<◌, ◌≤◌, ◌≡◌, ◌≢◌, subst, arith, [], ◌∷◌, ok, err,
  length, ltb, leb, nat_eq, Result, not, ◌&&◌, true,
}
use multi_raft_storage.Prelude.Int.{u32, u64}
use multi_raft_storage.Node.Partition.{Bytes, RaftProposal}
use multi_raft_storage.Node.Wire.Reading.{
  WireError, index_out_of_range, out_of_rounds, unexpected_eof, invalid_length, read_varint,
  is_negative, is_past, skip, unmarshal_on, wrong_type, end_group, illegal_tag, read_number,
  read_bytes_from, read_bytes, read_unknown, read_value, read_field, unmarshal_loop, unmarshal,
}
use multi_raft_storage.Node.Wire.Skipping.{
  IsReported, Ends, then_ends, if_ends, check_ends, check_holds, not_negative, Shorter,
  read_varint_ends, length-drop, skip_loop_ends, skip_to_ends,
}

read_unknown_ends :
    (l : ℕ) (before rest : Bytes)
    → l < 2 ^ 63
    → length before ≤ l
    → 0 < length before
    → Ends (Shorter before) (read_unknown l before rest)
unfolding read_unknown
read_unknown_ends l before rest word part filled = skip_to_ends l before (skip before) word filled (
    unfold skip in
    skip_loop_ends (length before) before 0 0 (omega arith) (omega arith) (omega arith))

read_number_ends :
    (name : String) (wire_type : ℕ) (before : Bytes)
    → Ends (Shorter before) (read_number name wire_type before)
unfolding read_number
read_number_ends name wire_type before =
    check_ends (Shorter before) (nat_eq wire_type 0) (wrong_type name wire_type) _ before tt
      (λ _. read_varint_ends before)

-- `dAtA[iNdEx:postIndex]` does not panic.
slice_ordered :
    (l n : ℕ) (rest : Bytes)
    → l < 2 ^ 63
    → n < 2 ^ 63
    → not (is_negative (u64 (l - length rest + n))) ≡ true
    → (not (is_negative (u64 (l - length rest + n)))
        && leb (l - length rest) (u64 (l - length rest + n)))
      ≡ true
slice_ordered l n rest word small positive = ground arith

read_bytes_ends :
    (l wire_type : ℕ) (before : Bytes)
    → l < 2 ^ 63
    → Ends (Shorter before) (read_bytes l wire_type before)
unfolding read_bytes
read_bytes_ends l wire_type before word =
    let Q = Shorter {A = Bytes} before in
    check_ends Q (nat_eq wire_type 2) (wrong_type "Data" wire_type) _ before tt (λ _.
      then_ends (Shorter before) Q read_varint (λ n. read_bytes_from l n) before
        (read_varint_ends before)
        (λ n rest h. check_ends Q (not (is_negative n)) invalid_length _ rest tt (λ small.
          let post = u64 (l - length rest + n) in
          check_ends Q (not (is_negative post)) invalid_length _ rest tt (λ positive.
            check_ends Q (not (is_past l post)) unexpected_eof _ rest tt (λ _.
              check_holds Q (not (is_negative post) && leb (l - length rest) post)
                index_out_of_range _ rest
                (slice_ordered l n rest word (not_negative n small) positive)
                (omega (arith, length-drop n rest)))))))

module _ (l : ℕ) (p : RaftProposal) (before : Bytes) (word : l < 2 ^ 63)
    (part : length before ≤ l) where
  abbrev Shrinks : RaftProposal → Bytes → Type 0
  Shrinks = Shorter before

  read_value_ends :
      (field wire_type : ℕ) (rest : Bytes)
      → length rest < length before
      → Ends Shrinks (read_value l before p field wire_type rest)
  unfolding read_value
  read_value_ends field wire_type rest h =
      let number = λ (name : String) (set : ℕ → RaftProposal).
        then_ends (Shorter rest) Shrinks (read_number name wire_type) (λ v r. (ok (set v), r)) rest
          (read_number_ends name wire_type rest) (λ v r k. omega arith) in
      if_ends Shrinks (nat_eq field 1) _ _ rest (number "Term" (λ v. record p { term = v })) (
        if_ends Shrinks (nat_eq field 2) _ _ rest
          (number "SequenceNum" (λ v. record p { sequence_num = v }))
          (if_ends Shrinks (nat_eq field 3) _ _ rest
            (then_ends (Shorter rest) Shrinks (read_bytes l wire_type) _ rest
              (read_bytes_ends l wire_type rest word) (λ v r k. omega arith))
            (then_ends (Shorter before) Shrinks (read_unknown l before) _ rest
              (read_unknown_ends l before rest word part (omega arith)) (λ v r k. k))))

  read_field_ends : Ends Shrinks (read_field l p before)
  unfolding read_field
  read_field_ends =
      then_ends (Shorter before) Shrinks read_varint _ before (read_varint_ends before)
        (λ wire rest h.
          check_ends Shrinks (not (nat_eq (bit_and wire 7) 4)) end_group _ rest tt (λ _.
            check_ends Shrinks (ltb 0 (u32 (wire / 8)) && ltb (u32 (wire / 8)) (2 ^ 31))
              (illegal_tag wire) _ rest tt
              (λ _. read_value_ends (u32 (wire / 8)) (bit_and wire 7) rest h)))

-- `Unmarshal`'s result: a proposal or an error that the code returns.
abbrev Returns : Result WireError RaftProposal → Type 0
Returns (ok p) = Unit
Returns (err e) = IsReported e

unmarshal_on_ends :
    (next : RaftProposal → Bytes → Result WireError RaftProposal) (before : Bytes)
    (r : Result WireError RaftProposal × Bytes)
    → Ends (Shorter before) r
    → ((p : RaftProposal) (rest : Bytes) → length rest < length before → Returns (next p rest))
    → Returns (unmarshal_on next r)
unmarshal_on_ends next before (ok p, rest) h later = later p rest h
unmarshal_on_ends next before (err e, rest) h later = h

unmarshal_loop_ends :
    (rounds l : ℕ) (p : RaftProposal) (message : Bytes)
    → l < 2 ^ 63
    → length message ≤ l
    → length message ≤ rounds
    → Returns (unmarshal_loop rounds l p message)
unfolding unmarshal_loop
unmarshal_loop_ends rounds l p [] word part enough = tt
unmarshal_loop_ends zero l p (b ∷ rest) word part enough = absurd (omega arith)
unmarshal_loop_ends (suc rounds) l p (b ∷ rest) word part enough =
    unmarshal_on_ends (unmarshal_loop rounds l) (b ∷ rest) (read_field l p (b ∷ rest))
      (read_field_ends l p (b ∷ rest) word part)
      (λ p' rest' h. unmarshal_loop_ends rounds l p' rest' word (omega arith) (omega arith))

-- `Unmarshal` returns a proposal or an error of the code on every sequence of bytes that fits a slice, one
-- shorter than 2 ^ 63: neither its loop nor the loop of `skipProtocol` needs more rounds than there are
-- bytes, and neither comes to read a byte or a slice at a negative index, at which Go panics.
pub unmarshal_total :
    (message : Bytes)
    → length message < 2 ^ 63
    → (unmarshal message ≢ err out_of_rounds) × (unmarshal message ≢ err index_out_of_range)
unfolding unmarshal
unmarshal_total message word =
    let returns =
      unmarshal_loop_ends (length message) (length message) _ message word (omega arith)
        (omega arith) in
    ((λ same. subst Returns same returns), λ same. subst Returns same returns)
