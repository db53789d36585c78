-- ===== src/Node/Server/Channels.antt =====
-- node/pkg/consensus/server.go and protocol.go: a node's watches as threads. `publish` holds the read
-- lock of the protocol while it sends to each watcher in turn, `Watch` and the end of a watch hold the
-- write lock, and each stream's handler takes from its channel of 100 events. A handler's loop begins with the
-- registration of its channel, which is empty until then.
use multi_raft_storage.Prelude.{
  ℕ, ◌<◌, ◌≡◌, refl, Bool, true, false, List, [], ◌∷◌, ◌++◌, map, length, Option, none, some,
  nat_eq, nat_eq_iff, nat_Eq, inl, inr, Bool-cases, if◌then◌else◌,
}
use multi_raft_storage.Prelude.Assoc.{insert, delete}
use multi_raft_storage.Node.Events.{Event}
use multi_raft_storage.Node.Partition.{Partition}
use multi_raft_storage.Node.Protocol.{observe, replay_all}

-- `make(chan Event, 100)`
abbrev pub capacity : ℕ
capacity = 100

-- The handler of a stream: not called yet, in its loop, returned with an error of `Send`, returned
-- because its channel was closed.
pub data Phase : Type 0 where
  unused serving failed finished : Phase

abbrev pub is_used : Phase → Bool
is_used unused = false
is_used _ = true

-- A stream: the number it has among the watchers, the events in its channel, and those that it has sent.
pub record Stream : Type 0 where
  pub id : ℕ
  pub phase : Phase
  pub buffer : List Event
  pub delivered : List Event
  pub is_closed : Bool

abbrev pub opened : ℕ → Stream
opened id = record { id = id; phase = serving; buffer = []; delivered = []; is_closed = false }

-- `publishing t` is what thread `t` has still to send while it holds the read lock, `replaying` the
-- channel and the events of the `Watch` that holds the write lock.
pub record World : Type 0 where
  pub partitions : List (ℕ × Partition)
  pub watchers : List (ℕ × ℕ)
  pub streams : ℕ → Stream
  pub publishing : ℕ → Option (List (ℕ × Event))
  pub replaying : Option (ℕ × List Event)

module _ {A : Type 0} where
  abbrev pub set : ℕ → A → (ℕ → A) → ℕ → A
  set i a f j = if nat_eq i j then a else f j

  pub set-elim :
      (P : A → Type 0) (i j : ℕ) (a : A) (f : ℕ → A) → (i ≡ j → P a) → P (f j) → P (set i a f j)
  set-elim P i j a f there elsewhere = elim (Bool-cases (nat_eq i j)) [
    | inl e ↦ rw e (there ((nat_eq_iff i j).0 e))
    | inr e ↦ rw e elsewhere
  ]

  pub set-same : (P : A → Type 0) (i : ℕ) (a : A) (f : ℕ → A) → P a → P (set i a f i)
  set-same P i a f h = rw ((nat_eq_iff i i).1 refl) h

abbrev pub put : Event → Stream → Stream
put e s = record s { buffer = s.buffer ++ e ∷ [] }

abbrev pub pass : Event → List Event → Stream → Stream
pass e rest s = record s { buffer = rest; delivered = s.delivered ++ e ∷ [] }

-- The sends of a publication: to each watcher in the order of the map.
abbrev pub to_send : Event → List (ℕ × ℕ) → List (ℕ × Event)
to_send e ws = map (λ w. (w.1, e)) ws

-- No thread holds the lock.
abbrev pub IsFree : World → Type 0
IsFree w = (w.replaying ≡ none) × ((t : ℕ) → w.publishing t ≡ none)

pub data Step (w v : World) : Type 0 where
  -- `publish`: the read lock, a send with room in the channel, and the unlock
  begins :
      (t : ℕ) (e : Event)
      → w.replaying ≡ none
      → w.publishing t ≡ none
      → v ≡ record w {
        partitions = observe e.event w.partitions;
        publishing = set t (some (to_send e w.watchers)) w.publishing;
      }
      → Step w v
  sends :
      (t c : ℕ) (e : Event) (rest : List (ℕ × Event))
      → w.publishing t ≡ some ((c, e) ∷ rest)
      → length (w.streams c).buffer < capacity
      → v ≡ record w {
        streams = set c (put e (w.streams c)) w.streams;
        publishing = set t (some rest) w.publishing;
      }
      → Step w v
  ends :
      (t : ℕ)
      → w.publishing t ≡ some []
      → v ≡ record w { publishing = set t none w.publishing }
      → Step w v
  -- `Watch`: the write lock and the registration, a send of the replay, and the unlock. The identifier
  -- is any: it is counted without the lock.
  registers :
      (c id : ℕ)
      → IsFree w
      → (w.streams c).phase ≡ unused
      → v ≡ record w {
        watchers = insert id c w.watchers;
        streams = set c (opened id) w.streams;
        replaying = some (c, replay_all w.partitions);
      }
      → Step w v
  replays :
      (c : ℕ) (e : Event) (rest : List Event)
      → w.replaying ≡ some (c, e ∷ rest)
      → length (w.streams c).buffer < capacity
      → v ≡ record w { streams = set c (put e (w.streams c)) w.streams; replaying = some (c, rest) }
      → Step w v
  releases : (c : ℕ) → w.replaying ≡ some (c, []) → v ≡ record w { replaying = none } → Step w v
  -- the end of a watch, once its context is done
  closes :
      (c : ℕ)
      → IsFree w
      → is_used (w.streams c).phase ≡ true
      → (w.streams c).is_closed ≡ false
      → v ≡ record w {
        watchers = delete (w.streams c).id w.watchers;
        streams = set c (record (w.streams c) { is_closed = true }) w.streams;
      }
      → Step w v
  -- a new partition
  creates :
      (i : ℕ) (p : Partition)
      → IsFree w
      → v ≡ record w { partitions = insert i p w.partitions }
      → Step w v
  -- the handler's loop: an event is sent, its `Send` fails, or the channel is closed and empty
  delivers :
      (c : ℕ) (e : Event) (rest : List Event)
      → (w.streams c).phase ≡ serving
      → (w.streams c).buffer ≡ e ∷ rest
      → v ≡ record w { streams = set c (pass e rest (w.streams c)) w.streams }
      → Step w v
  fails :
      (c : ℕ) (e : Event) (rest : List Event)
      → (w.streams c).phase ≡ serving
      → (w.streams c).buffer ≡ e ∷ rest
      → v ≡ record w {
        streams = set c (record (w.streams c) { phase = failed; buffer = rest }) w.streams;
      }
      → Step w v
  finishes :
      (c : ℕ)
      → (w.streams c).phase ≡ serving
      → (w.streams c).buffer ≡ []
      → (w.streams c).is_closed ≡ true
      → v ≡ record w { streams = set c (record (w.streams c) { phase = finished }) w.streams }
      → Step w v

pub data Run : World → World → Type 0 where
  stay : {w : World} → Run w w
  onward : {w v u : World} → Step w v → Run v u → Run w u

-- A node with partitions and without watches.
abbrev pub idle : World
idle = record {
  partitions = [];
  watchers = [];
  streams = λ c. record (opened 0) { phase = unused };
  publishing = λ t. none;
  replaying = none;
}
