-- ===== src/Node/Wire.antt =====
-- node/pkg/consensus/protocol.pb.go: the wire format of `RaftProposal`, its marshalling here and its
-- unmarshalling in Reading. A buffer and an offset in it are a `Writer`.
pub mod Bits
pub mod Lengths
pub mod Varint
pub mod Writing
pub mod Reading
pub mod RoundTrip
pub mod Skipping
pub mod Total
pub mod Encoding
use Prim.Native.Nat.{bit_and, bit_or}
use multi_raft_storage.Prelude.{
  ℕ, zero, suc, ◌+◌, ◌-◌, ◌*◌, ◌/◌, ◌%◌, ◌^◌, [], ◌∷◌, Result, ok, err, Exec, pure, fail, ◌>>=◌,
  ◌>>◌, length, ltb, leb, nat_eq, if◌then◌else◌, String, Bool, true, false, not, ◌&&◌,
}
use multi_raft_storage.Prelude.Int.{u32}
use multi_raft_storage.Node.Partition.{Bytes, RaftProposal}

-- The panic of an index out of range.
pub data Panic : Type 0 where
  out_of_range : Panic

-- `bits.Len64`: the number of digits, counted with at most as many rounds as the first number.
digits_in : ℕ → ℕ → ℕ
digits_in zero x = 0
digits_in (suc rounds) x = let rest = digits_in rounds (x / 2) in if nat_eq x 0 then 0 else suc rest

unfoldable pub len64 : ℕ → ℕ
unfolding digits_in
len64 x = digits_in x x

-- `sovProtocol`
unfoldable pub sov : ℕ → ℕ
unfolding len64
sov x = (len64 (bit_or x 1) + 6) / 7

-- `RaftProposal.Size`
unfoldable pub size : RaftProposal → ℕ
unfolding sov
size p =
    (if nat_eq p.term 0 then 0 else 1 + sov p.term)
    + (if nat_eq p.sequence_num 0 then 0 else 1 + sov p.sequence_num)
    + (if ltb 0 (length p.bytes) then 1 + length p.bytes + sov (length p.bytes) else 0)

pub record Writer : Type 0 where
  pub buffer : Bytes
  pub index : ℕ

-- `dAtA[i] = b` on the bytes from `i` on
abbrev pub put_byte : ℕ → Bytes → Result Panic Bytes
put_byte b [] = err out_of_range
put_byte b (_ ∷ rest) = ok (b ∷ rest)

-- `copy(dAtA[i:], src)` on the bytes from `i` on
abbrev pub copy : Bytes → Bytes → Result Panic Bytes
copy src [] = ok []
copy [] (d ∷ rest) = ok (d ∷ rest)
copy (s ∷ src) (_ ∷ rest) = elim (copy src rest) [ ok r ↦ ok (s ∷ r) | err e ↦ err e ]

-- The loop of `encodeVarintProtocol` on the bytes from `offset` on.
unfoldable pub put_groups : ℕ → Bytes → Result Panic Bytes
put_groups v [] = err out_of_range
put_groups v (_ ∷ rest) = elim (ltb v 128) [
  | true ↦ ok (v % 256 ∷ rest)
  | false ↦ elim (put_groups (v / 128) rest) [
    | ok r ↦ ok (bit_or (bit_and v 0x7f) 0x80 % 256 ∷ r)
    | err e ↦ err e
  ]
]

-- A write on the bytes from an index on.
abbrev pub write_from : ℕ → (Bytes → Result Panic Bytes) → Bytes → Result Panic Bytes
write_from zero f buffer = f buffer
write_from (suc i) f [] = err out_of_range
write_from (suc i) f (b ∷ buffer) = elim (write_from i f buffer) [
  | ok r ↦ ok (b ∷ r)
  | err e ↦ err e
]

-- `i -= n`, then a write from there.
unfoldable pub write_back : ℕ → (Bytes → Result Panic Bytes) → Exec Writer Panic (Unit {0})
write_back n f w = elim (ltb w.index n) [
  | true ↦ (err out_of_range, w)
  | false ↦ elim (write_from (w.index - n) f w.buffer) [
    | ok buffer ↦ (ok tt, record { buffer = buffer; index = w.index - n })
    | err e ↦ (err e, w)
  ]
]

-- `encodeVarintProtocol`
unfoldable pub encode_varint : ℕ → Exec Writer Panic (Unit {0})
unfolding sov put_groups write_back
encode_varint v = write_back (sov v) (put_groups v)

unfoldable pub write_number : ℕ → ℕ → Exec Writer Panic (Unit {0})
unfolding encode_varint write_back
write_number key v =
    if nat_eq v 0 then pure tt else (do encode_varint v; write_back 1 (put_byte key))

unfoldable pub write_bytes : Bytes → Exec Writer Panic (Unit {0})
unfolding encode_varint write_back
write_bytes bytes =
    if ltb 0 (length bytes)
    then (do
      write_back (length bytes) (copy bytes)
      encode_varint (length bytes)
      write_back 1 (put_byte 0x1a))
    else pure tt

-- `RaftProposal.MarshalToSizedBuffer`, which writes from the end of the buffer.
unfoldable pub marshal_to : RaftProposal → Exec Writer Panic (Unit {0})
unfolding write_number write_bytes
marshal_to p = do write_bytes p.bytes; write_number 0x10 p.sequence_num; write_number 0x8 p.term

abbrev pub zeros : ℕ → Bytes
zeros zero = []
zeros (suc n) = 0 ∷ zeros n

abbrev pub take : ℕ → Bytes → Bytes
take zero bytes = []
take (suc n) [] = []
take (suc n) (b ∷ bytes) = b ∷ take n bytes

abbrev pub drop : ℕ → Bytes → Bytes
drop zero bytes = bytes
drop (suc n) [] = []
drop (suc n) (b ∷ bytes) = drop n bytes

-- `dAtA[:n]` of what has been written.
abbrev pub written_bytes : Result Panic (Unit {0}) × Writer → Result Panic Bytes
written_bytes (ok _, w) = ok (take (length w.buffer - w.index) w.buffer)
written_bytes (err e, w) = err e

-- `RaftProposal.Marshal`
unfoldable pub marshal : RaftProposal → Result Panic Bytes
unfolding size marshal_to
marshal p = written_bytes (marshal_to p (record { buffer = zeros (size p); index = size p }))
