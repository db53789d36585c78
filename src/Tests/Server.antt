-- ===== src/Tests/Server.antt =====
-- The theorems on the node's watches at concrete inputs.
use multi_raft_storage.Prelude.{
  ℕ, zero, suc, ◌≤◌, ◌≡◌, refl, false, List, [], ◌∷◌, length, none, some, arith,
}
use multi_raft_storage.Prelude.Assoc.{insert, lookup}
use multi_raft_storage.Node.Events.{Event, member_ready}
use multi_raft_storage.Node.Protocol.{broadcast, replay_all, observe}
use multi_raft_storage.Node.Server.Channels.{
  capacity, failed, opened, World, idle, set, Run, stay, onward, registers, releases, begins, sends,
  put,
}
use multi_raft_storage.Node.Server.Safety.{sends_on_open}
use multi_raft_storage.Node.Server.Progress.{handed, publish_ends}
use multi_raft_storage.Node.Server.Lost.{given}
use multi_raft_storage.Node.Server.Overwritten.{watch_begun, watch_overwritten}
use multi_raft_storage.Node.Server.Counter.{called, numbered, Counter, Accesses, numbers_collide}
use multi_raft_storage.Node.Server.Blocked.{Blocked, Run-Blocked}

abbrev ready_event : Event
ready_event = record {
  timestamp = 7;
  event = member_ready (record { group_id = 1; member_id = 2 });
}

abbrev many : ℕ → List Event
many zero = []
many (suc n) = ready_event ∷ many n

-- A node with one watcher, and one in the midst of a publication.
abbrev watched : World
watched = record idle { watchers = (1, 0) ∷ []; streams = set 0 (opened 1) idle.streams }

abbrev at_work : World
at_work = record watched { publishing = set 0 (some ((0, ready_event) ∷ [])) idle.publishing }

at_work-Run : Run idle at_work
unfolding replay_all observe insert lookup
at_work-Run =
    onward (registers 0 1 (refl, λ t. refl) refl refl)
      (onward (releases 0 refl refl) (onward (begins 0 ready_event refl refl refl) stay))

sends_on_open_example :
    ((t c : ℕ) (e : Event) (rest : List (ℕ × Event))
      → at_work.publishing t ≡ some ((c, e) ∷ rest)
      → (at_work.streams c).is_closed ≡ false)
    × ((c : ℕ) (e : Event) (rest : List Event)
        → at_work.replaying ≡ some (c, e ∷ rest)
        → (at_work.streams c).is_closed ≡ false)
    × ((c : ℕ) → length (at_work.streams c).buffer ≤ capacity)
sends_on_open_example = sends_on_open at_work at_work-Run

-- The watcher's channel is full, and its stream is in its loop or has failed.
abbrev full : World
full = record watched { streams = λ c. record (opened 1) { buffer = many 100 } }

publish_ends_example :
    (v : World) × Run full v
    × (v.publishing 0 ≡ none)
    × ((d : ℕ) → handed v.streams d ≡ broadcast full.watchers ready_event (handed full.streams) d)
publish_ends_example = publish_ends full 0 ready_event refl refl (λ d. omega arith) (refl, tt)

abbrev broken : World
broken = record at_work { streams = λ c. record (opened 1) { phase = failed; buffer = many 100 } }

-- Another thread begins a publication as well.
abbrev more_broken : World
more_broken = record broken { publishing = set 1 (some ((0, ready_event) ∷ [])) broken.publishing }

broken-Run : Run broken more_broken
unfolding observe lookup
broken-Run = onward (begins 1 ready_event refl refl refl) stay

Run-Blocked_example :
    Blocked 0 0 ready_event [] more_broken × (more_broken.watchers ≡ broken.watchers)
Run-Blocked_example =
    Run-Blocked 0 0 ready_event [] broken-Run
      (record { stuck = (refl, refl); thread = refl; calm = refl })

-- A second watch begins under the first one's number, and an event is published.
abbrev doubled : World
doubled = watch_begun 1 1 watched

abbrev published : World
published = record doubled {
  streams = set 1 (put ready_event (doubled.streams 1)) doubled.streams;
  publishing = set 0 (some []) (set 0 (some ((1, ready_event) ∷ [])) doubled.publishing);
  replaying = none;
}

watched-Run : Run idle watched
unfolding replay_all insert
watched-Run =
    onward (registers 0 1 (refl, λ t. refl) refl refl) (onward (releases 0 refl refl) stay)

published-Run : Run doubled published
unfolding replay_all insert observe lookup
published-Run = onward (releases 1 refl refl) (
    onward (begins 0 ready_event refl refl refl)
      (onward (sends 0 1 ready_event [] refl (omega arith) refl) stay))

watch_overwritten_example : given (published.streams 0) ≤ given (watched.streams 0)
watch_overwritten_example =
    watch_overwritten 0 1 watched-Run (refl, λ t. refl) refl refl published-Run

-- No watch has begun yet.
abbrev no_watches : Counter
no_watches = record { watcher_id = 0; threads = λ t. called }

numbers_collide_example :
    (v : Counter) × Accesses no_watches v × (v.threads 0 ≡ numbered 1) × (v.threads 1 ≡ numbered 1)
numbers_collide_example = numbers_collide no_watches 0 1 (λ e. absurd (omega arith)) refl refl
