-- ===== src/Node/Streams/Concurrent.antt =====
-- `addStream` called by many threads: the atomic increment and the locked insertion are two steps,
-- and steps of other threads, and removals, fall between them.
use multi_raft_storage.Prelude.{
  ℕ, ◌+◌, ◌≤◌, ◌<◌, ◌^◌, ◌≡◌, refl, ◌≢◌, Option, none, some, arith, nat_eq, nat_eq_iff,
  if◌then◌else◌,
}
use multi_raft_storage.Prelude.Assoc.{lookup, lookup-insert, lookup-delete}
use multi_raft_storage.Node.Streams.{
  stream_id_Eq, StreamApi, ProtocolContext, new_context, next_sequence_num, remove_stream,
  put_stream,
}
use multi_raft_storage.Node.Streams.Laws.{stream_id, IsNumbered}

module _ (api : StreamApi) where
  open api use {Stream}

  -- What a thread holds between the two halves of `addStream`.
  pub record Reserved : Type 0 where
    pub term : ℕ
    pub sequence_num : ℕ
    pub stream : Stream

  pub record World : Type 0 where
    pub context : ProtocolContext Stream
    pub pending : ℕ → Option Reserved

  abbrev pub update : (ℕ → Option Reserved) → ℕ → Option Reserved → ℕ → Option Reserved
  update f i v j = if nat_eq i j then v else f j

  abbrev pub start : World
  start = record { context = new_context Stream; pending = λ _. none }

  unfoldable pub reserve : ℕ → ℕ → Stream → World → World
  unfolding next_sequence_num
  reserve i term stream w =
      let (n, r) = next_sequence_num w.context in
      record {
        context = r;
        pending =
            update w.pending i (some (record { term = term; sequence_num = n; stream = stream }));
      }

  pub register : ℕ → Reserved → World → World
  unfolding put_stream
  register i p w = record {
    context = put_stream api p.term p.sequence_num p.stream w.context;
    pending = update w.pending i none;
  }

  pub release : ℕ → ℕ → World → World
  unfolding remove_stream
  release term n w = record w { context = remove_stream term n w.context }

  pub data Step (w v : World) : Type 0 where
    reserves :
        (i term : ℕ) (stream : Stream)
        → w.pending i ≡ none
        → w.context.sequence_num + 1 < 2 ^ 64
        → v ≡ reserve i term stream w
        → Step w v
    registers : (i : ℕ) (p : Reserved) → w.pending i ≡ some p → v ≡ register i p w → Step w v
    releases : (term n : ℕ) → v ≡ release term n w → Step w v

  pub data Reach : World → Type 0 where
    here : Reach start
    next : {w v : World} → Reach w → Step w v → Reach v

  pub record IsUnique (w : World) : Type 0 where
    pub numbered : IsNumbered w.context
    pub counted :
        (i : ℕ) (p : Reserved) → w.pending i ≡ some p → p.sequence_num ≤ w.context.sequence_num
    pub free :
        (i t : ℕ) (p : Reserved)
        → w.pending i ≡ some p
        → lookup (stream_id t p.sequence_num) w.context.streams ≡ none
    pub distinct :
        (i j : ℕ) (p q : Reserved)
        → i ≢ j
        → w.pending i ≡ some p
        → w.pending j ≡ some q
        → p.sequence_num ≢ q.sequence_num

  start-IsUnique : IsUnique start
  unfolding new_context lookup
  start-IsUnique = record {
    numbered = record { numbered = λ i h. refl };
    counted = λ i p h. cc;
    free = λ i t p h. refl;
    distinct = λ i j p q ne h k. cc;
  }

  reserve-IsUnique :
      (i term : ℕ) (stream : Stream) (w : World)
      → w.context.sequence_num + 1 < 2 ^ 64
      → IsUnique w
      → IsUnique (reserve i term stream w)
  unfolding reserve
  reserve-IsUnique i term stream w room v = record {
    numbered = record { numbered = λ k h. v.numbered.numbered k (omega arith) };
    counted = λ j p h. ground (arith, v.counted j p);
    free = λ j t p h.
        ground
          (arith, v.free j t p, v.numbered.numbered (stream_id t (w.context.sequence_num + 1)));
    distinct = λ j k p q ne h g. ground (arith, v.distinct j k p q, v.counted j p, v.counted k q);
  }

  register-IsUnique :
      (i : ℕ) (p : Reserved) (w : World)
      → w.pending i ≡ some p
      → IsUnique w
      → IsUnique (register i p w)
  unfolding register
  register-IsUnique i p w held v = record {
    numbered = record {
      numbered = λ k h. rw lookup-insert (ground (arith, v.numbered.numbered k, v.counted i p));
    };
    counted = λ j q h. ground (arith, v.counted j q);
    free = λ j t q h.
        rw lookup-insert (ground (arith, v.free j t q, v.distinct i j p q, nat_eq_iff i j));
    distinct = λ j k q r ne h g. ground (arith, v.distinct j k q r);
  }

  release-IsUnique : (term n : ℕ) (w : World) → IsUnique w → IsUnique (release term n w)
  unfolding release
  release-IsUnique term n w v = record {
    numbered = record {
      numbered = λ k h. rw lookup-delete (ground (arith, v.numbered.numbered k));
    };
    counted = v.counted;
    free = λ j t q h. rw lookup-delete (ground (arith, v.free j t q));
    distinct = v.distinct;
  }

  Step-IsUnique : {w v : World} → Step w v → IsUnique w → IsUnique v
  Step-IsUnique {w} {v} (reserves i term stream idle room e) u =
      rw e (reserve-IsUnique i term stream w room u)
  Step-IsUnique {w} {v} (registers i p held e) u = rw e (register-IsUnique i p w held u)
  Step-IsUnique {w} {v} (releases term n e) u = rw e (release-IsUnique term n w u)

  pub Reach-IsUnique : {w : World} → Reach w → IsUnique w
  Reach-IsUnique here = start-IsUnique
  Reach-IsUnique (next r s) = Step-IsUnique s (Reach-IsUnique r)

  -- In every interleaving of calls of `addStream` and `removeStream`, while fewer than 2^64 - 1
  -- numbers are given out, a thread that is about to insert its stream finds no stream under its
  -- identifier, and no other thread holds its number.
  pub register_overwrites_nothing :
      (w : World) (i j : ℕ) (p q : Reserved)
      → Reach w
      → w.pending i ≡ some p
      → (lookup (stream_id p.term p.sequence_num) w.context.streams ≡ none)
        × (i ≢ j → w.pending j ≡ some q → p.sequence_num ≢ q.sequence_num)
  register_overwrites_nothing w i j p q r held =
      let u = Reach-IsUnique r in
      (u.free i p.term p held, λ ne other. u.distinct i j p q ne held other)
