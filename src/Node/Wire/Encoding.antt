-- ===== src/Node/Wire/Encoding.antt =====
-- The encoding of proposals by `Marshal` and `Unmarshal`, beside any encoding of the inputs. The text
-- of an error of `Unmarshal` is `message`.
use multi_raft_storage.Prelude.{◌≡◌, String, Result, ok, err, arith, ap}
use multi_raft_storage.Node.Partition.{Bytes, RaftProposal, Codec}
use multi_raft_storage.Node.Wire.{Panic, marshal}
use multi_raft_storage.Node.Wire.Reading.{WireError, unmarshal}
use multi_raft_storage.Node.Wire.Writing.{IsEncodable}
use multi_raft_storage.Node.Wire.RoundTrip.{unmarshal-marshal}

-- A panic of `Marshal`, which `marshal_lem` of Writing excludes, is given a text here.
abbrev pub marshal_text : Result Panic Bytes → Result String Bytes
marshal_text (ok b) = ok b
marshal_text (err _) = err "index out of range"

abbrev pub unmarshal_text :
    (WireError → String) → Result WireError RaftProposal → Result String RaftProposal
unmarshal_text message (ok p) = ok p
unmarshal_text message (err e) = err (message e)

abbrev pub wire_codec :
    (Input : Type 0)
    → (Input → Result String Bytes)
    → (Bytes → Result String Input)
    → (WireError → String)
    → Codec
wire_codec Input marshal_input unmarshal_input message = record {
  Input = Input;
  marshal_input = marshal_input;
  unmarshal_input = unmarshal_input;
  marshal_proposal = λ p. marshal_text (marshal p);
  unmarshal_proposal = λ b. unmarshal_text message (unmarshal b);
}

-- Every encodable proposal is decoded from its encoding.
pub proposal_back :
    (message : WireError → String) (p : RaftProposal) (b : Bytes)
    → IsEncodable p
    → marshal_text (marshal p) ≡ ok b
    → unmarshal_text message (unmarshal b) ≡ ok p
proposal_back message p b fits h =
    let (c, written, _, back) = unmarshal-marshal p fits in
    let same : c ≡ b = ground (arith, ap marshal_text written, h) in
    rw same at (ap (unmarshal_text message) back)
