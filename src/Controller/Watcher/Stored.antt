-- ===== src/Controller/Watcher/Stored.antt =====
-- What the loop of a watch leaves in the stored statuses of groups.
use multi_raft_storage.Prelude.{
  ℕ, zero, suc, ◌≡◌, refl, inl, inr, String, List, [], ◌∷◌, Option, some, Exec, Bool-cases,
  string_Eq, if◌then◌else◌,
}
use multi_raft_storage.Node.Events.{Event, EventKind}
use multi_raft_storage.Controller.Api.{RaftGroup}
use multi_raft_storage.Controller.Client.{KubeError, Client}
use multi_raft_storage.Controller.Watcher.Records.{
  Received, received, eof, canceled, failed, handle, watch_loop,
}
use multi_raft_storage.Controller.Watcher.History.{updates}
use multi_raft_storage.Controller.Watcher.Sole.{IsSole}
use multi_raft_storage.Controller.Watcher.Handling.{is_about, updated_by, handle_lem}

-- The events about a group that a watch receives in so many rounds, before its stream ends.
unfoldable pub group_events : String → String → (ℕ → Received) → ℕ → ℕ → List EventKind
group_events store name stream zero k = []
group_events store name stream (suc n) k =
    let rest = group_events store name stream n (suc k) in
    elim (stream k) [
      | received e ↦ if is_about store name e.event then e.event ∷ rest else rest
      | eof ↦ []
      | canceled ↦ []
      | failed ↦ rest
    ]

module _ {S : Type 0} (client : Client S) (retry : Exec S KubeError (Unit {0}) → S → S)
    (view : S → String → String → Option RaftGroup) (laws : IsSole client retry view)
    (ns store name : String) (stream : ℕ → Received) where
  -- What the loop leaves of a group.
  abbrev Left : ℕ → ℕ → S → RaftGroup → Type 0
  Left n k s o =
      view (watch_loop client retry ns store stream n k s).1 ns name
      ≡ some (record o { status = updates store (group_events store name stream n k) o.status })

  received_lem :
      (n k : ℕ) (e : Event) (s : S) (o : RaftGroup)
      → stream k ≡ received e
      → Left n
          (suc k)
          (handle client retry ns store e s)
          (updated_by client retry view laws ns store name (is_about store name e.event) e.event o)
      → Left (suc n) k s o
  unfolding watch_loop group_events updates
  received_lem n k e s o now rest = elim (Bool-cases (is_about store name e.event)) [
    | inl about ↦ rw (now, watch_loop, group_events, about) (rw about at rest)
    | inr apart ↦ rw (now, watch_loop, group_events, apart) (rw apart at rest)
  ]

  round_lem :
      (n k : ℕ) (r : Received) (s : S) (o : RaftGroup)
      → stream k ≡ r
      → view s ns name ≡ some o
      → ((s' : S) (o' : RaftGroup) → view s' ns name ≡ some o' → Left n (suc k) s' o')
      → Left (suc n) k s o
  unfolding watch_loop group_events updates
  round_lem n k (received e) s o now stored rest =
      received_lem n k e s o now
        (rest _ _ (handle_lem client retry view laws ns store name e s o stored))
  round_lem n k eof s o now stored rest = rw (now, watch_loop, group_events) stored
  round_lem n k canceled s o now stored rest = rw (now, watch_loop, group_events) stored
  round_lem n k failed s o now stored rest = rw (now, watch_loop, group_events) (rest s o stored)

  -- While nothing else writes the groups, and the reads and writes of stored groups succeed, a watch
  -- records every event: in any number of rounds the loop brings the status of each stored group of the
  -- store's namespace to what the received events about that group make of it, each applied once and in
  -- the order in which they came. Operations on members may fail and be tried again.
  pub watch_loop_records :
      (n k : ℕ) (s : S) (o : RaftGroup)
      → view s ns name ≡ some o
      → view (watch_loop client retry ns store stream n k s).1 ns name
        ≡ some (record o { status = updates store (group_events store name stream n k) o.status })
  unfolding watch_loop group_events updates
  watch_loop_records zero k s o stored = stored
  watch_loop_records (suc n) k s o stored =
      round_lem n k (stream k) s o refl stored
        (λ s' o' stored'. watch_loop_records n (suc k) s' o' stored')
