-- ===== src/Node/Wire/Reading.antt =====
-- node/pkg/consensus/protocol.pb.go: `Unmarshal` of `RaftProposal`, and `skipProtocol`. The bytes that
-- `iNdEx` has not reached are the reader's state, so `iNdEx` is what the length `l` has more than they. An
-- `int` is its pattern of 64 bits, which is at least 2 ^ 63 where the number is negative: sums wrap around.
use Prim.Native.Nat.{bit_and, bit_or}
use multi_raft_storage.Prelude.{
  ℕ, zero, suc, ◌+◌, ◌-◌, ◌*◌, ◌/◌, ◌%◌, ◌^◌, [], ◌∷◌, Result, ok, err, Exec, pure, fail, ◌>>=◌,
  ◌>>◌, length, ltb, leb, nat_eq, if◌then◌else◌, String, Bool, not, ◌&&◌, ◌||◌, true, false,
}
use multi_raft_storage.Prelude.Int.{u32, u64}
use multi_raft_storage.Node.Partition.{Bytes, RaftProposal}
use multi_raft_storage.Node.Wire.{take, drop}

-- `illegal_tag` has the wire value, `wrong_type` the field's name. Two are no errors that the code returns:
-- `index_out_of_range` is the panic of an index or a slice at a negative index, `out_of_rounds` the end of
-- the rounds that the model gives a loop.
pub data WireError : Type 0 where
  int_overflow unexpected_eof invalid_length unexpected_end_of_group end_group : WireError
  illegal_tag : ℕ → WireError
  wrong_type : String → ℕ → WireError
  illegal_wire_type : ℕ → WireError
  index_out_of_range out_of_rounds : WireError

-- The loop that reads a number, seven bits of each byte: `acc` is what has been read so far.
unfoldable pub read_groups : ℕ → ℕ → Exec Bytes WireError ℕ
read_groups shift acc [] = (err (if leb 64 shift then int_overflow else unexpected_eof), [])
read_groups shift acc (b ∷ rest) =
    let acc' = bit_or acc (bit_and b 0x7f * 2 ^ shift % 2 ^ 64) in
    let more = read_groups (shift + 7) acc' rest in
    if leb 64 shift
    then (err int_overflow, b ∷ rest)
    else if ltb b 0x80
    then (ok acc', rest)
    else more

unfoldable pub read_varint : Exec Bytes WireError ℕ
unfolding read_groups
read_varint = read_groups 0 0

-- `iNdEx`, in a message of `l` bytes.
abbrev pub position : ℕ → Exec Bytes WireError ℕ
position l rest = (ok (l - length rest), rest)

abbrev pub is_negative : ℕ → Bool
is_negative n = leb (2 ^ 63) n

-- `i > l` and `i >= l`, for a length `l`.
abbrev pub is_past : ℕ → ℕ → Bool
is_past l i = not (is_negative i) && ltb l i

abbrev pub is_at_end : ℕ → ℕ → Bool
is_at_end l i = not (is_negative i) && leb l i

abbrev pub check : Bool → WireError → Exec Bytes WireError (Unit {0})
check holds e rest = ((if holds then ok tt else err e), rest)

-- The `switch` of `skipProtocol`: `iNdEx` behind the value of a wire type, and the depth of groups.
unfoldable pub skip_value : ℕ → ℕ → ℕ → Exec Bytes WireError (ℕ × ℕ)
unfolding read_varint
skip_value l wire_type depth =
    if nat_eq wire_type 0
    then (do read_varint; i ← position l; pure (i, depth))
    else if nat_eq wire_type 1
    then (do i ← position l; pure (u64 (i + 8), depth))
    else if nat_eq wire_type 2
    then (do
      n ← read_varint
      check (not (is_negative n)) invalid_length
      i ← position l
      pure (u64 (i + n), depth))
    else if nat_eq wire_type 3
    then (do i ← position l; pure (i, depth + 1))
    else if nat_eq wire_type 4
    then (do check (ltb 0 depth) unexpected_end_of_group; i ← position l; pure (i, depth - 1))
    else if nat_eq wire_type 5
    then (do i ← position l; pure (u64 (i + 4), depth))
    else fail (illegal_wire_type wire_type)

-- One round of `skipProtocol`'s loop, from the key on.
unfoldable pub skip_field : ℕ → ℕ → Exec Bytes WireError (ℕ × ℕ)
unfolding read_varint skip_value
skip_field l depth = do
  wire ← read_varint
  (i, depth') ← skip_value l (bit_and wire 7) depth
  check (not (is_negative i)) invalid_length
  pure (i, depth')

-- The end of a round: at depth 0 the index is returned.
abbrev pub skip_on : (ℕ → ℕ → Result WireError ℕ) → Result WireError (ℕ × ℕ) → Result WireError ℕ
skip_on next (err e) = err e
skip_on next (ok (i, depth)) = if nat_eq depth 0 then ok i else next i depth

-- The loop of `skipProtocol`, which returns `iNdEx`, on the bytes of a message; a byte is read at the
-- start of each round.
unfoldable pub skip_loop : ℕ → Bytes → ℕ → ℕ → Result WireError ℕ
unfolding skip_field
skip_loop zero message i depth = err (
    if is_at_end (length message) i
    then unexpected_eof
    else if is_negative i
    then index_out_of_range
    else out_of_rounds)
skip_loop (suc rounds) message i depth = elim (is_at_end (length message) i) [
  | true ↦ err unexpected_eof
  | false ↦ elim (is_negative i) [
    | true ↦ err index_out_of_range
    | false ↦
        skip_on (skip_loop rounds message) (skip_field (length message) depth (drop i message)).0
  ]
]

unfoldable pub skip : Bytes → Result WireError ℕ
unfolding skip_loop
skip message = skip_loop (length message) message 0 0

-- `append(m.Data[:0], dAtA[iNdEx:postIndex]...)`, and `iNdEx = postIndex`
abbrev pub split_at : ℕ → Exec Bytes WireError Bytes
split_at n rest = (ok (take n rest), drop n rest)

-- The fields of `RaftProposal.Unmarshal`, past their keys.
unfoldable pub read_number : String → ℕ → Exec Bytes WireError ℕ
unfolding read_varint
read_number name wire_type = do check (nat_eq wire_type 0) (wrong_type name wire_type); read_varint

abbrev pub read_bytes_from : ℕ → ℕ → Exec Bytes WireError Bytes
read_bytes_from l n = do
  check (not (is_negative n)) invalid_length
  i ← position l
  let post = u64 (i + n)
  check (not (is_negative post)) invalid_length
  check (not (is_past l post)) unexpected_eof
  check (not (is_negative post) && leb i post) index_out_of_range
  split_at n

unfoldable pub read_bytes : ℕ → ℕ → Exec Bytes WireError Bytes
unfolding read_varint
read_bytes l wire_type = do
  check (nat_eq wire_type 2) (wrong_type "Data" wire_type)
  n ← read_varint
  read_bytes_from l n

-- A field of another number is skipped, from its key on; at a negative index the next byte cannot be read.
abbrev pub skip_to : ℕ → Bytes → Result WireError ℕ → Result WireError (Unit {0}) × Bytes
skip_to l before (err e) = (err e, before)
skip_to l before (ok skippy) =
    let index = u64 (l - length before + skippy) in
    if is_negative skippy || is_negative index
    then (err invalid_length, before)
    else if is_past l index
    then (err unexpected_eof, before)
    else if is_negative index
    then (err index_out_of_range, before)
    else (ok tt, drop skippy before)

unfoldable pub read_unknown : ℕ → Bytes → Exec Bytes WireError (Unit {0})
unfolding skip
read_unknown l before _ = skip_to l before (skip before)

-- The `switch` of `Unmarshal`; `before` is what it reaches from `preIndex`.
unfoldable pub read_value : ℕ → Bytes → RaftProposal → ℕ → ℕ → Exec Bytes WireError RaftProposal
unfolding read_number read_bytes read_unknown
read_value l before p field wire_type =
    if nat_eq field 1
    then (do v ← read_number "Term" wire_type; pure (record p { term = v }))
    else if nat_eq field 2
    then (do v ← read_number "SequenceNum" wire_type; pure (record p { sequence_num = v }))
    else if nat_eq field 3
    then (do v ← read_bytes l wire_type; pure (record p { bytes = v }))
    else (do read_unknown l before; pure p)

-- One round of the loop: `fieldNum` is an int32, and not positive if it is 0 or at least 2 ^ 31.
unfoldable pub read_field : ℕ → RaftProposal → Exec Bytes WireError RaftProposal
unfolding read_varint read_value
read_field l p before =
    (do
      wire ← read_varint
      check (not (nat_eq (bit_and wire 7) 4)) end_group
      let field = u32 (wire / 8)
      check (ltb 0 field && ltb field (2 ^ 31)) (illegal_tag wire)
      read_value l before p field (bit_and wire 7))
      before

abbrev pub unmarshal_on :
    (RaftProposal → Bytes → Result WireError RaftProposal)
    → Result WireError RaftProposal × Bytes
    → Result WireError RaftProposal
unmarshal_on next (ok p, rest) = next p rest
unmarshal_on next (err e, rest) = err e

-- The loop of `Unmarshal`, in a message of `l` bytes.
unfoldable pub unmarshal_loop : ℕ → ℕ → RaftProposal → Bytes → Result WireError RaftProposal
unfolding read_field
unmarshal_loop rounds l p [] = ok p
unmarshal_loop zero l p (b ∷ rest) = err out_of_rounds
unmarshal_loop (suc rounds) l p (b ∷ rest) =
    unmarshal_on (unmarshal_loop rounds l) (read_field l p (b ∷ rest))

-- `Unmarshal` into an empty message.
unfoldable pub unmarshal : Bytes → Result WireError RaftProposal
unfolding unmarshal_loop
unmarshal message =
    unmarshal_loop (length message) (length message)
      (record { term = 0; sequence_num = 0; bytes = [] }) message
