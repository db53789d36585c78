-- ===== src/Node/Protocol/Reach.antt =====
-- The protocols that a node comes to by its callbacks, its partitions and its watchers, in any order.
use multi_raft_storage.Prelude.{
  ℕ, ◌+◌, ◌^◌, ◌<◌, ◌≡◌, refl, ◌∙◌, inl, inr, false, List, [], ◌∷◌, none, some, arith, Option-cases,
  Bool-cases, nat_eq, nat_eq_iff, nat_Eq,
}
use multi_raft_storage.Prelude.Assoc.{lookup, insert, lookup-insert, lookup-delete}
use multi_raft_storage.Prelude.Int.{u32}
use multi_raft_storage.Node.Config.{RaftConfig}
use multi_raft_storage.Node.Events.{Event, EventKind, member_ready, leader_updated}
use multi_raft_storage.Node.Partition.{Partition, new_partition, set_ready, set_leader}
use multi_raft_storage.Node.Protocol.{
  Protocol, change, observe, publish, watch, unwatch, new_state_machine,
}
use multi_raft_storage.Node.Protocol.Watchers.{
  view, unknown, state?, Never, Keyed, after, view-watch,
}

-- dragonboat has no leader in term 0.
abbrev pub IsProper : EventKind → Type 0
IsProper (leader_updated m term leader) = term ≡ 0 → u32 leader ≡ 0
IsProper _ = Unit

-- `NewProtocol`, before any partition.
unfoldable pub start : RaftConfig → Protocol
start config = record {
  config = config;
  partitions = [];
  watchers = [];
  watcher_id = 0;
  sent = λ c. [];
  closed = λ c. false;
}

-- A published event, a watch that begins or ends, and a new partition, whose identifier has 32 bits.
pub data Step (n m : Protocol) : Type 0 where
  publishes : (e : Event) → IsProper e.event → m ≡ publish e n → Step n m
  watches : (c : ℕ) → m ≡ watch c n → Step n m
  unwatches : (id c : ℕ) → m ≡ unwatch id c n → Step n m
  creates :
      (cluster_id node_id : ℕ)
      → cluster_id < 2 ^ 32
      → m ≡ new_state_machine cluster_id node_id n
      → Step n m

pub data Reach : Protocol → Type 0 where
  here : (config : RaftConfig) → Reach (start config)
  next : {n m : Protocol} → Reach n → Step n m → Reach m

-- The partitions stand under their own identifiers, and no identifier above the counter is a watcher's.
pub record IsWell (n : Protocol) : Type 0 where
  pub keyed : Keyed n.partitions
  pub fresh : (i : ℕ) → n.watcher_id < i → lookup i n.watchers ≡ none

-- What `Keyed` says of one partition.
abbrev pub IsKeyed : ℕ → Partition → Type 0
IsKeyed i p = (u32 p.id ≡ i) × (p.term ≡ 0 → u32 p.leader ≡ 0)

Keyed-lookup :
    (g : ℕ) (p : Partition) (ps : List (ℕ × Partition))
    → Keyed ps
    → lookup g ps ≡ some p
    → IsKeyed g p
unfolding lookup
Keyed-lookup g p [] k h = absurd (ground arith)
Keyed-lookup g p ((i, q) ∷ ps) k h = elim (Bool-cases (nat_eq i g)) [
  | inl same ↦
      let e : i ≡ g = (nat_eq_iff i g).0 same in
      let found : q ≡ p = ground arith in rw (← found, ← e) (k.0, k.1)
  | inr other ↦ Keyed-lookup g p ps k.3 (ground arith)
]

Keyed-insert :
    (i : ℕ) (p : Partition) (ps : List (ℕ × Partition))
    → IsKeyed i p
    → Keyed ps
    → Keyed (insert i p ps)
unfolding insert lookup
Keyed-insert i p [] own k = (own.0, own.1, refl, tt)
Keyed-insert i p ((j, q) ∷ ps) own k = elim (Bool-cases (nat_eq j i)) [
  | inl same ↦
      let e : j ≡ i = (nat_eq_iff j i).0 same in rw same (own.0, own.1, (rw (← e) k.2), k.3)
  | inr other ↦ rw other (
    k.0,
    k.1,
    lookup-insert i j p ps ∙ (ground (arith, nat_eq_iff i j, k.2)),
    Keyed-insert i p ps own k.3,
  )
]

Keyed-change :
    (f : Partition → Partition) (i : ℕ) (ps : List (ℕ × Partition))
    → ((p : Partition) → IsKeyed i p → IsKeyed i (f p))
    → Keyed ps
    → Keyed (change f i ps)
Keyed-change f i ps keeps k = elim (Option-cases (lookup i ps)) [
  | inl miss ↦ rw (miss, change) k
  | inr (p, hit) ↦
      rw (hit, change) (Keyed-insert i (f p) ps (keeps p (Keyed-lookup i p ps k hit)) k)
]

Keyed-observe :
    (e : EventKind) (ps : List (ℕ × Partition)) → IsProper e → Keyed ps → Keyed (observe e ps)
unfolding observe set_ready set_leader
Keyed-observe (member_ready m) ps proper k = Keyed-change _ m.group_id ps (λ p own. own) k
Keyed-observe (leader_updated m term leader) ps proper k =
    Keyed-change _ m.group_id ps (λ p own. (own.0, proper)) k
Keyed-observe _ ps proper k = k

Step-IsWell : {n m : Protocol} → Step n m → IsWell n → IsWell m
unfolding publish watch unwatch new_state_machine new_partition
Step-IsWell {n} {m} (publishes e proper h) w =
    rw h (record { keyed = Keyed-observe e.event n.partitions proper w.keyed; fresh = w.fresh })
Step-IsWell {n} {m} (watches c h) w =
    rw h (record { keyed = w.keyed; fresh = λ i lt. rw lookup-insert (ground (arith, w.fresh i)) })
Step-IsWell {n} {m} (unwatches id c h) w =
    rw h (record { keyed = w.keyed; fresh = λ i lt. rw lookup-delete (ground (arith, w.fresh i)) })
Step-IsWell {n} {m} (creates cluster_id node_id small h) w = rw h (record {
  keyed = Keyed-insert cluster_id _ n.partitions (omega arith, λ e. refl) w.keyed;
  fresh = w.fresh;
})

pub Reach-IsWell : {n : Protocol} → Reach n → IsWell n
unfolding start lookup
Reach-IsWell (here config) = record { keyed = tt; fresh = λ i lt. refl }
Reach-IsWell (next r s) = Step-IsWell s (Reach-IsWell r)

-- On a node that has come about by any sequence of callbacks, new partitions, and watches that begin and
-- end, and whatever is published after `Watch` has registered a new channel: the events on the channel
-- tell the term, the leader and the readiness that the node holds of each of its partitions. Nothing is
-- missed between the replay and the first event.
pub view-Reach :
    (n : Protocol) (c g : ℕ) (p : Partition) (es : List Event)
    → Reach n
    → n.sent c ≡ []
    → Never c n.watchers
    → lookup g n.partitions ≡ some p
    → view g ((after (watch c n) es).sent c) unknown
      ≡ state? (lookup g (after (watch c n) es).partitions)
view-Reach n c g p es r empty new held =
    let w = Reach-IsWell r in
    view-watch n c g p es w.keyed empty new (w.fresh (n.watcher_id + 1) (omega arith)) held
