-- ===== src/Node/Streams.antt =====
-- node/pkg/consensus/context.go: the streams that proposals answer on, shared by the servers and the
-- state machine. The laws are in `Laws`, the concurrent use of `addStream` in `Concurrent`.
pub mod Laws
pub mod Concurrent
use multi_raft_storage.Prelude.{
  ℕ, ◌+◌, ◌≡◌, ◌↔◌, true, ◌&&◌, Bool, List, [], ◌∷◌, Option, none, some, arith, Eq, nat_eq,
  nat_eq_iff,
}
use multi_raft_storage.Prelude.Assoc.{lookup, insert, delete}
use multi_raft_storage.Prelude.Int.{u64}

pub record StreamId : Type 0 where
  pub term : ℕ
  pub sequence_num : ℕ

abbrev pub same_id : StreamId → StreamId → Bool
same_id a b = nat_eq a.term b.term && nat_eq a.sequence_num b.sequence_num

pub same_id_iff : (a b : StreamId) → (same_id a b ≡ true) ↔ (a ≡ b)
same_id_iff a b = ground arith

instance abbrev pub stream_id_Eq : Eq StreamId
stream_id_Eq = record { same = same_id; same_iff = same_id_iff }

-- The runtime's stream package: `NewNilStream()`, and `NewCloserStream(stream, f)` where `f` is the
-- closure that calls `removeStream` with an identifier, which is what the second argument holds.
abbrev pub or_else {ℓ} : {A : Type ℓ} → A → Option A → A
or_else d none = d
or_else d (some a) = a

pub record StreamApi : Type 1 where
  pub Stream : Type 0
  pub nil_stream : Stream
  pub closer_stream : Stream → StreamId → Stream

pub record ProtocolContext (Stream : Type 0) : Type 0 where
  pub streams : List (StreamId × Stream)
  pub sequence_num : ℕ

unfoldable pub new_context : (Stream : Type 0) → ProtocolContext Stream
new_context Stream = record { streams = []; sequence_num = 0 }

module _ {Stream : Type 0} where
  -- `r.sequenceNum.Add(1)`: atomic, on 64 bits.
  unfoldable pub next_sequence_num : ProtocolContext Stream → ℕ × ProtocolContext Stream
  next_sequence_num r = let n = u64 (r.sequence_num + 1) in (n, record r { sequence_num = n })

  unfoldable pub remove_stream : ℕ → ℕ → ProtocolContext Stream → ProtocolContext Stream
  remove_stream term sequence_num r = record r {
    streams = delete (record { term = term; sequence_num = sequence_num }) r.streams;
  }

module _ (api : StreamApi) where
  open api use {Stream, nil_stream, closer_stream}

  -- The part of `addStream` under the lock: the stream goes into the map behind a closer that
  -- removes it.
  unfoldable pub put_stream : ℕ → ℕ → Stream → ProtocolContext Stream → ProtocolContext Stream
  put_stream term sequence_num stream r =
      let id : StreamId = record { term = term; sequence_num = sequence_num } in
      record r { streams = insert id (closer_stream stream id) r.streams }

  unfoldable pub add_stream : ℕ → Stream → ProtocolContext Stream → ℕ × ProtocolContext Stream
  unfolding next_sequence_num put_stream
  add_stream term stream r = let (n, r') = next_sequence_num r in (n, put_stream term n stream r')

  unfoldable pub get_stream : ℕ → ℕ → ProtocolContext Stream → Stream
  get_stream term sequence_num r =
      or_else nil_stream (lookup (record { term = term; sequence_num = sequence_num }) r.streams)
