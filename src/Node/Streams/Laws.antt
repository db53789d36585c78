-- ===== src/Node/Streams/Laws.antt =====
-- The map of streams: what is added is found until it is removed, and nothing else moves.
use multi_raft_storage.Prelude.{ℕ, ◌+◌, ◌<◌, ◌^◌, ◌≡◌, none, arith, if◌then◌else◌}
use multi_raft_storage.Prelude.Assoc.{lookup, lookup-insert, lookup-delete}
use multi_raft_storage.Prelude.Int.{u64}
use multi_raft_storage.Node.Streams.{
  StreamId, same_id, stream_id_Eq, StreamApi, ProtocolContext, remove_stream, add_stream,
  get_stream,
}

abbrev pub stream_id : ℕ → ℕ → StreamId
stream_id term n = record { term = term; sequence_num = n }

-- Every registered stream was given a number that the counter has passed.
pub record IsNumbered {Stream : Type 0} (r : ProtocolContext Stream) : Type 0 where
  pub numbered : (i : StreamId) → r.sequence_num < i.sequence_num → lookup i r.streams ≡ none

module _ (api : StreamApi) where
  open api use {Stream, nil_stream, closer_stream}

  -- After `addStream`, `getStream` returns the added stream, behind the closer that removes it, under
  -- the identifier that was given, and what it returned before under every other.
  pub get_stream-add_stream :
      (term t n : ℕ) (stream : Stream) (r : ProtocolContext Stream)
      → let (k, r') = add_stream api term stream r in
        get_stream api t n r' ≡ (
          if same_id (stream_id term k) (stream_id t n)
          then closer_stream stream (stream_id term k)
          else get_stream api t n r)
  unfolding add_stream get_stream
  get_stream-add_stream term t n stream r =
      let k = u64 (r.sequence_num + 1) in rw lookup-insert (ground arith)

  pub get_stream-remove_stream :
      (term n t m : ℕ) (r : ProtocolContext Stream)
      → get_stream api t m (remove_stream term n r)
        ≡ (if same_id (stream_id term n) (stream_id t m) then nil_stream else get_stream api t m r)
  unfolding remove_stream get_stream
  get_stream-remove_stream term n t m r = rw lookup-delete (ground arith)

  -- Where no registered stream has a number above the counter, and the counter does not wrap, the
  -- stream that `addStream` registers takes an identifier that none has, and again no stream has a
  -- number above the counter.
  pub add_stream_fresh :
      (term : ℕ) (stream : Stream) (r : ProtocolContext Stream)
      → IsNumbered r
      → r.sequence_num + 1 < 2 ^ 64
      → let (k, r') = add_stream api term stream r in
        (lookup (stream_id term k) r.streams ≡ none) × IsNumbered r'
  unfolding add_stream
  add_stream_fresh term stream r v h = (
    v.numbered _ (omega arith),
    record { numbered = λ i k. rw lookup-insert (ground (arith, v.numbered i)) },
  )
