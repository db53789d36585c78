-- ===== src/Tests/Wire.antt =====
-- The wire format of node/pkg/consensus/protocol.pb.go at concrete inputs.
use multi_raft_storage.Prelude.{◌≡◌, ◌≢◌, refl, [], ◌∷◌, ok, err, arith, length}
use multi_raft_storage.Node.Partition.{Bytes, RaftProposal}
use multi_raft_storage.Node.Wire.{marshal, size}
use multi_raft_storage.Node.Wire.Reading.{
  unexpected_eof, invalid_length, end_group, index_out_of_range, out_of_rounds, unmarshal,
}
use multi_raft_storage.Node.Wire.RoundTrip.{unmarshal-marshal}
use multi_raft_storage.Node.Wire.Total.{unmarshal_total}

abbrev small : RaftProposal
small = record { term = 3; sequence_num = 300; bytes = 7 ∷ 9 ∷ [] }

marshal_runs : marshal small ≡ ok (8 ∷ 3 ∷ 16 ∷ 172 ∷ 2 ∷ 26 ∷ 2 ∷ 7 ∷ 9 ∷ [])
unfolding marshal
marshal_runs = refl

-- A field of another number, here 4, is skipped.
unmarshal_skips : unmarshal (0x20 ∷ 5 ∷ 8 ∷ 3 ∷ 16 ∷ 172 ∷ 2 ∷ 26 ∷ 2 ∷ 7 ∷ 9 ∷ []) ≡ ok small
unfolding unmarshal
unmarshal_skips = refl

-- A group, here of number 5 with a varint inside, is skipped with what it holds.
unmarshal_skips_group :
    unmarshal (0x2b ∷ 0x10 ∷ 1 ∷ 0x2c ∷ 8 ∷ 3 ∷ 16 ∷ 172 ∷ 2 ∷ 26 ∷ 2 ∷ 7 ∷ 9 ∷ []) ≡ ok small
unfolding unmarshal
unmarshal_skips_group = refl

unmarshal_cut : unmarshal (8 ∷ 3 ∷ 26 ∷ 9 ∷ 7 ∷ []) ≡ err unexpected_eof
unfolding unmarshal
unmarshal_cut = refl

unmarshal_end_group : unmarshal (0x0c ∷ []) ≡ err end_group
unfolding unmarshal
unmarshal_end_group = refl

-- The length of the field 4 is the greatest number of a 64-bit `int`: the index behind it is negative.
unmarshal_wraps :
    unmarshal (8 ∷ 3 ∷ 0x22 ∷ 0xf5 ∷ 0xff ∷ 0xff ∷ 0xff ∷ 0xff ∷ 0xff ∷ 0xff ∷ 0xff ∷ 0x7f ∷ [])
    ≡ err invalid_length
unfolding unmarshal
unmarshal_wraps = refl

unmarshal-marshal_example :
    (b : Bytes) × (marshal small ≡ ok b) × (length b ≡ size small) × (unmarshal b ≡ ok small)
unmarshal-marshal_example =
    unmarshal-marshal small (record {
      term_fits = omega arith;
      sequence_num_fits = omega arith;
      length_fits = omega arith;
    })

abbrev skipped_cut : Bytes
skipped_cut = 8 ∷ 3 ∷ 0x2a ∷ 9 ∷ 7 ∷ []

unmarshal_total_example :
    (unmarshal skipped_cut ≢ err out_of_rounds) × (unmarshal skipped_cut ≢ err index_out_of_range)
unmarshal_total_example = unmarshal_total skipped_cut (omega arith)
