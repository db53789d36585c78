-- ===== src/Node/Partition/Laws.antt =====
-- What `Propose`, `Update` and `Query` guarantee together.
use Prim.Native.Char.{code}
use multi_raft_storage.Prelude.{
  ℕ, ◌+◌, ◌^◌, ◌<◌, length, ◌≡◌, refl, inl, inr, String, false, ◌&&◌, List, [], ◌∷◌, Option, none,
  arith, Result, ok, err, Result-cases, leb, All, str_eq, Bool-cases, string_Eq, str_eq_iff, ap,
  ◌∙◌, subst,
}
use multi_raft_storage.Prelude.Assoc.{lookup}
use multi_raft_storage.Prelude.Int.{u32}
use multi_raft_storage.Node.Errors.{
  Error, HostError, cluster_not_found, system_busy, invalid_session, payload_too_big,
  timeout_too_small, deadline_not_set, invalid_deadline,
}
use multi_raft_storage.Node.Streams.{
  stream_id_Eq, StreamApi, ProtocolContext, add_stream, get_stream,
}
use multi_raft_storage.Node.Streams.Laws.{stream_id, get_stream-add_stream}
use multi_raft_storage.Node.Partition.{
  submit, Partition, Bytes, RaftProposal, Codec, Host, wrapped, query, prepare, propose,
}
use multi_raft_storage.Node.Wire.Writing.{IsEncodable}
use multi_raft_storage.Node.StateMachine.{Machine, update}

-- Decoding gives back what was encoded, and the encoding of an input leaves room in a slice for the
-- rest of a proposal.
pub record IsLawful (codec : Codec) : Type 0 where
  pub input_back :
      (i : codec.Input) (b : Bytes) → codec.marshal_input i ≡ ok b → codec.unmarshal_input b ≡ ok i
  pub input_short :
      (i : codec.Input) (b : Bytes) → codec.marshal_input i ≡ ok b → length b + 64 < 2 ^ 63
  pub proposal_back :
      (p : RaftProposal) (b : Bytes)
      → IsEncodable p
      → codec.marshal_proposal p ≡ ok b
      → codec.unmarshal_proposal b ≡ ok p

module _ (api : StreamApi) (codec : Codec) where
  open api use {Stream, nil_stream, closer_stream}
  open codec use {Input}

  -- A prepared proposal: what it was made of, and the context it leaves.
  pub record Prepared (p : Partition) (input : Input) (stream : Stream)
      (r r' : ProtocolContext Stream) (bytes : Bytes) : Type 0 where
    pub leads : u32 p.leader ≡ p.member_id
    pub body : Bytes
    pub encoded : codec.marshal_input input ≡ ok body
    pub registered : r' ≡ (add_stream api p.term stream r).1
    pub submitted :
        codec.marshal_proposal (record {
          term = p.term;
          sequence_num = (add_stream api p.term stream r).0;
          bytes = body;
        })
        ≡ ok bytes

  prepare-ok :
      (p : Partition) (input : Input) (stream : Stream) (r r' : ProtocolContext Stream)
      (bytes : Bytes)
      → prepare api codec p input stream r ≡ (ok bytes, r')
      → Prepared p input stream r r' bytes
  unfolding prepare
  prepare-ok p input stream r r' bytes h = elim (Result-cases (codec.marshal_input input)) [
    | inl (b, e) ↦ record {
      leads = ground arith;
      body = b;
      encoded = e;
      registered = ground arith;
      submitted = ground arith;
    }
    | inr (m, e) ↦ absurd (ground arith)
  ]

  counter-add_stream :
      (term : ℕ) (stream : Stream) (r : ProtocolContext Stream)
      → (add_stream api term stream r).1.sequence_num ≡ (add_stream api term stream r).0
  unfolding add_stream
  counter-add_stream term stream r = refl

  add_stream_fits :
      (term : ℕ) (stream : Stream) (r : ProtocolContext Stream)
      → (add_stream api term stream r).0 < 2 ^ 64
  unfolding add_stream
  add_stream_fits term stream r = omega arith

  own_stream :
      (term : ℕ) (stream : Stream) (r : ProtocolContext Stream)
      → let (n, r') = add_stream api term stream r in
        get_stream api term n r' ≡ closer_stream stream (stream_id term n)
  own_stream term stream r =
      rw (get_stream-add_stream api term term (add_stream api term stream r).0 stream r)
        (ground arith)

  missing_stream :
      (term n : ℕ) (r : ProtocolContext Stream)
      → lookup (stream_id term n) r.streams ≡ none
      → get_stream api term n r ≡ nil_stream
  unfolding get_stream
  missing_stream term n r h = rw h

  module _ {State Query QueryStream Snap : Type 0}
      (machine : Machine State Input Stream Query QueryStream Snap) where
    update_lem :
        (proposal : RaftProposal) (input : Input) (r : ProtocolContext Stream) (bytes : Bytes)
        (s : State)
        → codec.unmarshal_proposal bytes ≡ ok proposal
        → codec.unmarshal_input proposal.bytes ≡ ok input
        → update api codec machine r bytes s
          ≡ (ok tt, machine.propose input (get_stream api proposal.term proposal.sequence_num r) s)
    unfolding update
    update_lem proposal input r bytes s d e = ground arith

    -- Every proposal that `Propose` hands to Raft is decoded by `Update` into the input that was
    -- proposed. On the member that proposed it the state machine answers on the proposer's stream;
    -- on a member that has no stream under its term and number, on the nil stream. The term is a
    -- 64-bit word, and the encodings are assumed to decode what they encode, an input's to be shorter
    -- than 2 ^ 63 - 64 bytes.
    pub update-prepare :
        (p : Partition) (input : Input) (stream : Stream) (r r' other : ProtocolContext Stream)
        (bytes : Bytes) (s : State)
        → IsLawful codec
        → p.term < 2 ^ 64
        → prepare api codec p input stream r ≡ (ok bytes, r')
        → lookup (stream_id p.term r'.sequence_num) other.streams ≡ none
        → (update api codec machine r' bytes s ≡ (
          ok tt,
          machine.propose input (closer_stream stream (stream_id p.term r'.sequence_num)) s,
        ))
          × (update api codec machine other bytes s ≡ (ok tt, machine.propose input nil_stream s))
    update-prepare p input stream r r' other bytes s lawful word h missing =
        let k = prepare-ok p input stream r r' bytes h in
        let n = (add_stream api p.term stream r).0 in
        let decode = λ (q : ProtocolContext Stream).
          update_lem (record { term = p.term; sequence_num = n; bytes = k.body }) input q bytes s
            (lawful.proposal_back _ bytes
              (record {
                term_fits = word;
                sequence_num_fits = add_stream_fits p.term stream r;
                length_fits = lawful.input_short input k.body k.encoded;
              })
              k.submitted)
            (lawful.input_back input k.body k.encoded) in
        let same : r'.sequence_num ≡ n =
          ap (λ q. q.sequence_num) k.registered ∙ counter-add_stream p.term stream r in
        (
          cc (decode r', own_stream p.term stream r, k.registered, same),
          cc (decode other, missing_stream p.term r'.sequence_num other missing, same),
        )

module _ (api : StreamApi) (codec : Codec) where
  open api use {Stream}
  open codec use {Input}

  prepare_registers :
      (p : Partition) (input : Input) (stream : Stream) (r : ProtocolContext Stream) (body : Bytes)
      → u32 p.leader ≡ p.member_id
      → codec.marshal_input input ≡ ok body
      → (prepare api codec p input stream r).1 ≡ (add_stream api p.term stream r).1
  unfolding prepare
  prepare_registers p input stream r body leads encoded = ground arith

-- An error by which dragonboat refuses a proposal before it submits it. After the others, a timeout for one,
-- the proposal may be applied all the same.
abbrev pub IsRefusal : HostError → Type 0
IsRefusal cluster_not_found = Unit
IsRefusal system_busy = Unit
IsRefusal invalid_session = Unit
IsRefusal payload_too_big = Unit
IsRefusal timeout_too_small = Unit
IsRefusal deadline_not_set = Unit
IsRefusal invalid_deadline = Unit
IsRefusal _ = ⊥

-- A host that changes nothing when it refuses a proposal.
pub record IsQuiet {S Q : Type 0} (host : Host S Q) : Type 0 where
  pub quiet :
      (id : ℕ) (b : Bytes) (e : HostError) (s s' : S)
      → IsRefusal e
      → host.sync_propose id b s ≡ (err e, s')
      → s' ≡ s

module _ {S Q : Type 0} (host : Host S Q) where
  wrapped-err :
      (x : Result HostError (Unit {0}) × S) (e : Error) (s' : S)
      → wrapped host x ≡ (err e, s')
      → (h : HostError) × (x ≡ (err h, s'))
  wrapped-err (ok u, s) e s' h = absurd (ground arith)
  wrapped-err (err m, s) e s' h = (m, ground arith)

module _ (api : StreamApi) (codec : Codec) {W Q : Type 0} where
  open api use {Stream, closer_stream}
  open codec use {Input}

  submit-err :
      (host : Host (ProtocolContext Stream × W) Q) (id : ℕ) (w w' : W)
      (x : Result Error Bytes × ProtocolContext Stream) (r' : ProtocolContext Stream) (e : Error)
      → IsQuiet host
      → ((b : Bytes) (m : HostError) (s : ProtocolContext Stream × W)
          → x.0 ≡ ok b
          → host.sync_propose id b (x.1, w) ≡ (err m, s)
          → IsRefusal m)
      → submit api codec host id w x ≡ (err e, (r', w'))
      → r' ≡ x.1
  submit-err host id w w' (ok b, r) r' e quiet refused h =
      let (m, k) = wrapped-err host (host.sync_propose id b (r, w)) e (r', w') h in
      ap (λ (s : ProtocolContext Stream × W). s.0)
        (quiet.quiet id b m (r, w) (r', w') (refused b m (r', w') refl k) k)
  submit-err host id w w' (err m, r) r' e quiet refused h = ground arith

  -- On the leader, once the input is encoded, a `Propose` that fails because the proposal's encoding fails or
  -- the host refuses to submit it leaves its stream registered: nothing removes it. The host is assumed to
  -- change nothing when it refuses a proposal; its other errors, a timeout for one, are excluded.
  pub propose_failed :
      (host : Host (ProtocolContext Stream × W) Q) (p : Partition) (input : Input) (stream : Stream)
      (r r' : ProtocolContext Stream) (w w' : W) (body : Bytes) (e : Error)
      → IsQuiet host
      → ((b : Bytes) (m : HostError) (s : ProtocolContext Stream × W)
          → (prepare api codec p input stream r).0 ≡ ok b
          → host.sync_propose p.id b ((prepare api codec p input stream r).1, w) ≡ (err m, s)
          → IsRefusal m)
      → u32 p.leader ≡ p.member_id
      → codec.marshal_input input ≡ ok body
      → propose api codec host p input stream (r, w) ≡ (err e, (r', w'))
      → get_stream api p.term r'.sequence_num r'
        ≡ closer_stream stream (stream_id p.term r'.sequence_num)
  unfolding propose
  propose_failed host p input stream r r' w w' body e quiet refused leads encoded h =
      let left : r' ≡ (add_stream api p.term stream r).1 =
        submit-err host p.id w w' (prepare api codec p input stream r) r' e quiet refused h
        ∙ prepare_registers api codec p input stream r body leads encoded in
      rw left
        (rw (counter-add_stream api codec p.term stream r) (own_stream api codec p.term stream r))

-- The characters of a text that are ASCII upper-case letters.
abbrev pub IsLower : String → Type 0
IsLower String.[] = Unit
IsLower (String.◌∷◌ c s) = ((leb b'A' (code c) && leb (code c) b'Z') ≡ false) × IsLower s

not-sync : (k : String) → IsLower k → str_eq k "Sync" ≡ false
not-sync k low = elim (Bool-cases (str_eq k "Sync")) [
  | inl same ↦ absurd (ground (arith, (subst IsLower ((str_eq_iff k "Sync").0 same) low).0))
  | inr other ↦ other
]

lookup-sync :
    (md : List (String × Option (List String)))
    → All (λ kv. IsLower kv.0) md
    → lookup "Sync" md ≡ none
unfolding lookup
lookup-sync [] low = refl
lookup-sync ((k, v) ∷ md) low = rw (not-sync k low.0) (lookup-sync md low.1)

-- Where every key of the incoming metadata is lower-case, as gRPC delivers them, no query is a
-- linearizable read: `Query` calls `StaleRead` whatever the client asked for.
pub query_stale :
    {S Q : Type 0} (host : Host S Q) (md : List (String × Option (List String))) (id : ℕ) (q : Q)
    (s : S)
    → All (λ kv. IsLower kv.0) md
    → query host md id q s ≡ wrapped host (host.stale_read id q s)
unfolding query
query_stale host md id q s low = rw (lookup-sync md low, query)
