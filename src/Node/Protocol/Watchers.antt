-- ===== src/Node/Protocol/Watchers.antt =====
-- What a watcher can rebuild from the events of its channel: the term, leader and readiness of each
-- partition, from the replay at its registration and the events published since.
use multi_raft_storage.Prelude.{
  ℕ, ◌+◌, ◌≡◌, refl, sym, ap, ◌∙◌, ◌≢◌, ◌⊎◌, inl, inr, Bool, true, false, List, [], ◌∷◌, ◌++◌,
  Option, none, some, arith, Option-cases, Bool-cases, nat_eq, nat_eq_iff, nat_Eq, if◌then◌else◌,
}
use multi_raft_storage.Prelude.Assoc.{lookup, insert, lookup-insert}
use multi_raft_storage.Prelude.Int.{u32}
use multi_raft_storage.Node.Events.{Event, EventKind, member_ready, leader_updated}
use multi_raft_storage.Node.Partition.{Partition, get_ready, get_leader, set_ready, set_leader}
use multi_raft_storage.Node.Protocol.{
  Protocol, change, observe, send, broadcast, publish, replay, replay_all, watch,
}

pub record View : Type 0 where
  pub term : ℕ
  pub leader : ℕ
  pub ready : Bool

abbrev pub unknown : View
unknown = record { term = 0; leader = 0; ready = false }

-- One event, as a client that follows the group `g` reads it.
abbrev pub view_event : ℕ → EventKind → View → View
view_event g (member_ready m) v = if nat_eq m.group_id g then record v { ready = true } else v
view_event g (leader_updated m term leader) v =
    if nat_eq m.group_id g then record v { term = term; leader = u32 leader } else v
view_event g _ v = v

abbrev pub view : ℕ → List Event → View → View
view g [] v = v
view g (e ∷ es) v = view g es (view_event g e.event v)

-- What the node itself holds of a partition.
pub state : Partition → View
unfolding get_ready get_leader
state p = record { term = (get_leader p).0; leader = (get_leader p).1; ready = get_ready p }

abbrev pub state? : Option Partition → View
state? none = unknown
state? (some p) = state p

view-append :
    (g : ℕ) (xs ys : List Event) (v : View) → view g (xs ++ ys) v ≡ view g ys (view g xs v)
view-append g [] ys v = refl
view-append g (x ∷ xs) ys v = view-append g xs ys (view_event g x.event v)

-- A partition after one event.
abbrev step : ℕ → EventKind → Partition → Partition
step g (member_ready m) p = if nat_eq m.group_id g then set_ready p else p
step g (leader_updated m term leader) p =
    if nat_eq m.group_id g then set_leader term leader p else p
step g _ p = p

lookup-change :
    (f : Partition → Partition) (i g : ℕ) (p : Partition) (ps : List (ℕ × Partition))
    → lookup g ps ≡ some p
    → lookup g (change f i ps) ≡ some (if nat_eq i g then f p else p)
lookup-change f i g p ps h = elim (Option-cases (lookup i ps)) [
  | inl miss ↦ rw (miss, change) (ground (arith, nat_eq_iff i g))
  | inr (q, hit) ↦ rw (hit, change) (rw lookup-insert (ground (arith, nat_eq_iff i g)))
]

lookup-observe :
    (e : EventKind) (g : ℕ) (p : Partition) (ps : List (ℕ × Partition))
    → lookup g ps ≡ some p
    → lookup g (observe e ps) ≡ some (step g e p)
unfolding observe
lookup-observe (member_ready m) g p ps h = lookup-change set_ready m.group_id g p ps h
lookup-observe (leader_updated m term leader) g p ps h =
    lookup-change (set_leader term leader) m.group_id g p ps h
lookup-observe _ g p ps h = h

state-step : (g : ℕ) (e : EventKind) (p : Partition) → state (step g e p) ≡ view_event g e (state p)
unfolding state set_ready set_leader
state-step g (member_ready m) p = ground arith
state-step g (leader_updated m term leader) p = ground arith
state-step g _ p = refl

-- A channel that no watcher, or exactly one, is registered with.
abbrev pub Never : ℕ → List (ℕ × ℕ) → Type 0
Never c [] = Unit
Never c ((i, d) ∷ ws) = (nat_eq d c ≡ false) × Never c ws

abbrev pub Once : ℕ → List (ℕ × ℕ) → Type 0
Once c [] = ⊥
Once c ((i, d) ∷ ws) = ((nat_eq d c ≡ true) × Never c ws) ⊎ ((nat_eq d c ≡ false) × Once c ws)

broadcast-Never :
    (c : ℕ) (ws : List (ℕ × ℕ)) (e : Event) (f : ℕ → List Event)
    → Never c ws
    → broadcast ws e f c ≡ f c
unfolding broadcast send
broadcast-Never c [] e f h = refl
broadcast-Never c ((i, d) ∷ ws) e f h = broadcast-Never c ws e (send d e f) h.1 ∙ (ground arith)

broadcast-Once :
    (c : ℕ) (ws : List (ℕ × ℕ)) (e : Event) (f : ℕ → List Event)
    → Once c ws
    → broadcast ws e f c ≡ f c ++ e ∷ []
unfolding broadcast send
broadcast-Once c [] e f h = absurd h
broadcast-Once c ((i, d) ∷ ws) e f (inl (hit, rest)) =
    broadcast-Never c ws e (send d e f) rest ∙ (ground arith)
broadcast-Once c ((i, d) ∷ ws) e f (inr (miss, rest)) =
    broadcast-Once c ws e (send d e f) rest ∙ (ground arith)

Once-insert :
    (c i : ℕ) (ws : List (ℕ × ℕ)) → Never c ws → lookup i ws ≡ none → Once c (insert i c ws)
unfolding insert lookup
Once-insert c i [] h free = inl (ground arith, tt)
Once-insert c i ((j, d) ∷ ws) h free = elim (Bool-cases (nat_eq j i)) [
  | inl same ↦ absurd (ground arith)
  | inr other ↦ rw other (inr (h.0, Once-insert c i ws h.1 (ground arith)))
]

-- The partitions stand under their own identifiers, each once, and a partition that has seen no
-- term has seen no leader.
abbrev pub Keyed : List (ℕ × Partition) → Type 0
Keyed [] = Unit
Keyed ((i, p) ∷ ps) =
    (u32 p.id ≡ i) × (p.term ≡ 0 → u32 p.leader ≡ 0) × (lookup i ps ≡ none) × Keyed ps

view-replay_ne : (g : ℕ) (p : Partition) (v : View) → u32 p.id ≢ g → view g (replay p) v ≡ v
unfolding replay
view-replay_ne g p v h = ground (arith, nat_eq_iff (u32 p.id) g)

view-replay :
    (p : Partition) → (p.term ≡ 0 → u32 p.leader ≡ 0) → view (u32 p.id) (replay p) unknown ≡ state p
unfolding replay state
view-replay p h = ground arith

view-replay_at :
    (g : ℕ) (p : Partition)
    → u32 p.id ≡ g
    → (p.term ≡ 0 → u32 p.leader ≡ 0)
    → view g (replay p) unknown ≡ state p
view-replay_at g p e h = rw (← e) (view-replay p h)

view-replay_all_ne :
    (g : ℕ) (ps : List (ℕ × Partition)) (v : View)
    → Keyed ps
    → lookup g ps ≡ none
    → view g (replay_all ps) v ≡ v
unfolding replay_all lookup
view-replay_all_ne g [] v k h = refl
view-replay_all_ne g ((i, p) ∷ ps) v k h =
    view-append g (replay p) (replay_all ps) v
    ∙ (rw (view-replay_ne g p v (λ e. ground arith)) (view-replay_all_ne g ps v k.3 (ground arith)))

view-replay_all :
    (g : ℕ) (p : Partition) (ps : List (ℕ × Partition))
    → Keyed ps
    → lookup g ps ≡ some p
    → view g (replay_all ps) unknown ≡ state p
unfolding replay_all lookup
view-replay_all g p [] k h = absurd (ground arith)
view-replay_all g p ((i, q) ∷ ps) k h = elim (Bool-cases (nat_eq i g)) [
  | inl same ↦
      let e : i ≡ g = (nat_eq_iff i g).0 same in
      let found : q ≡ p = ground arith in
      view-append g (replay q) (replay_all ps) unknown
      ∙ (rw (view-replay_at g q (k.0 ∙ e) k.1, view-replay_all_ne g ps (state q) k.3 (rw (← e) k.2))
          (ap state found))
  | inr other ↦
      view-append g (replay q) (replay_all ps) unknown
      ∙ (rw (view-replay_ne g q unknown (λ e. ground arith))
          (view-replay_all g p ps k.3 (ground arith)))
]

pub after : Protocol → List Event → Protocol
after n [] = n
after n (e ∷ es) = after (publish e n) es

view-after :
    (n : Protocol) (c g : ℕ) (p : Partition) (es : List Event)
    → Once c n.watchers
    → lookup g n.partitions ≡ some p
    → view g (n.sent c) unknown ≡ state p
    → view g ((after n es).sent c) unknown ≡ state? (lookup g (after n es).partitions)
unfolding after publish
view-after n c g p [] once here same = rw here same
view-after n c g p (e ∷ es) once here same =
    view-after (publish e n) c g (step g e.event p) es once
      (lookup-observe e.event g p n.partitions here)
      (rw (broadcast-Once c n.watchers e n.sent once)
        (view-append g (n.sent c) (e ∷ []) unknown ∙ (rw same (sym (state-step g e.event p)))))

-- Whatever is published after a channel is registered by `Watch`, the events on the channel tell
-- the term, the leader and the readiness that the node holds of a partition: nothing is missed
-- between the replay and the first event. The channel is new, and the partitions stand under their
-- own identifiers.
pub view-watch :
    (n : Protocol) (c g : ℕ) (p : Partition) (es : List Event)
    → Keyed n.partitions
    → n.sent c ≡ []
    → Never c n.watchers
    → lookup (n.watcher_id + 1) n.watchers ≡ none
    → lookup g n.partitions ≡ some p
    → view g ((after (watch c n) es).sent c) unknown
      ≡ state? (lookup g (after (watch c n) es).partitions)
unfolding watch
view-watch n c g p es keyed empty new fresh here =
    view-after (watch c n) c g p es (Once-insert c (n.watcher_id + 1) n.watchers new fresh) here
      (rw ((nat_eq_iff c c).1 refl, empty) (view-replay_all g p n.partitions keyed here))
