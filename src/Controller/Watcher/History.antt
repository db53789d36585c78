-- ===== src/Controller/Watcher/History.antt =====
-- A group's status through a sequence of events.
use multi_raft_storage.Prelude.{
  ℕ, ◌≡◌, refl, ◌⊎◌, inl, inr, String, true, List, [], ◌∷◌, Option, none, some, arith, ltb,
  Bool-cases,
}
use multi_raft_storage.Node.Events.{EventKind, member_ready, leader_updated}
use multi_raft_storage.Controller.Api.{RaftGroupStatus}
use multi_raft_storage.Controller.Watcher.{
  update_group, is_news, is_follower_or_leader, member_name,
}
use multi_raft_storage.Controller.Watcher.Groups.{
  IsWell, update_group-IsWell, Later, update_group_leader,
}

-- The events of the group's nodes, in the order in which they are recorded.
unfoldable pub updates : String → List EventKind → RaftGroupStatus → RaftGroupStatus
updates store [] s = s
updates store (e ∷ es) s = updates store es (update_group store e s).0

Later-Later : (a b c : Option ℕ) → Later a b → Later b c → Later a c
Later-Later none (some b) (some c) h k = tt
Later-Later (some a) (some b) (some c) h k = omega arith
Later-Later none (some b) none h k = absurd k
Later-Later (some a) (some b) none h k = absurd k
Later-Later none none c h k = absurd h
Later-Later (some a) none c h k = absurd h

-- A term that is the same, or later.
abbrev pub Onward : Option ℕ → Option ℕ → Type 0
Onward a b = (b ≡ a) ⊎ Later a b

Later-Onward : (a b c : Option ℕ) → Later a b → Onward b c → Later a c
Later-Onward a b c h (inl e) = rw e h
Later-Onward a b c h (inr k) = Later-Later a b c h k

Onward-Later : (a b c : Option ℕ) → Onward a b → Later b c → Later a c
Onward-Later a b c (inl e) k = rw (← e) k
Onward-Later a b c (inr h) k = Later-Later a b c h k

Onward-Onward : (a b c : Option ℕ) → Onward a b → Onward b c → Onward a c
Onward-Onward a b c h (inl e) = rw e h
Onward-Onward a b c h (inr k) = inr (Onward-Later a b c h k)

Onward-news :
    (old : Option ℕ) (leader : Option String) (t m : ℕ)
    → is_news old leader t m ≡ true
    → Onward old (some t)
unfolding is_news
Onward-news none leader t m news = inr tt
Onward-news (some a) leader t m news = elim (Bool-cases (ltb a t)) [
  | inl later ↦ inr (ground arith)
  | inr other ↦ inl (ground arith)
]

update_group-Onward :
    (store : String) (e : EventKind) (s : RaftGroupStatus)
    → Onward s.term (update_group store e s).0.term
unfolding update_group
update_group-Onward store (member_ready e) s =
    elim (Bool-cases (is_follower_or_leader (member_name store e.group_id e.member_id) s)) [
      | inl known ↦ rw (known, update_group) (inl refl)
      | inr new ↦ rw (new, update_group) (inl refl)
    ]
update_group-Onward store (leader_updated e t m) s =
    elim (Bool-cases (is_news s.term s.leader t m)) [
      | inl news ↦ rw (news, update_group) (Onward-news s.term s.leader t m news)
      | inr old ↦ rw (old, update_group) (inl refl)
    ]
update_group-Onward store _ s = inl refl

updates-Onward :
    (store : String) (es : List EventKind) (s : RaftGroupStatus)
    → Onward s.term (updates store es s).term
unfolding updates
updates-Onward store [] s = inl refl
updates-Onward store (e ∷ es) s =
    Onward-Onward s.term (update_group store e s).0.term _ (update_group-Onward store e s)
      (updates-Onward store es (update_group store e s).0)

updates-IsWell :
    (store : String) (es : List EventKind) (s : RaftGroupStatus)
    → IsWell s
    → IsWell (updates store es s)
unfolding updates
updates-IsWell store [] s well = well
updates-IsWell store (e ∷ es) s well =
    updates-IsWell store es (update_group store e s).0 (update_group-IsWell store e s well)

leader-Later :
    (store : String) (es : List EventKind) (s : RaftGroupStatus) (l : String)
    → s.leader ≡ some l
    → ((updates store es s).leader ≡ some l) ⊎ Later s.term (updates store es s).term
unfolding updates
leader-Later store [] s l h = inl h
leader-Later store (e ∷ es) s l h =
    let s' = (update_group store e s).0 in
    elim (update_group_leader store e s l h) [
      | inl kept ↦ elim (leader-Later store es s' l kept) [
        | inl k ↦ inl k
        | inr later ↦ inr (Onward-Later s.term s'.term _ (update_group-Onward store e s) later)
      ]
      | inr later ↦ inr (Later-Onward s.term s'.term _ later (updates-Onward store es s'))
    ]

-- Through any sequence of events, late and repeated ones included, a group's status never goes back to
-- an earlier term, and never names two leaders for one term: once it names a leader, it names that
-- leader or has come to a later term. It keeps listing each member once, the leader not among the
-- followers.
pub updates_leader :
    (store : String) (es : List EventKind) (s : RaftGroupStatus) (l : String)
    → IsWell s
    → s.leader ≡ some l
    → (((updates store es s).leader ≡ some l) ⊎ Later s.term (updates store es s).term)
      × Onward s.term (updates store es s).term
      × IsWell (updates store es s)
updates_leader store es s l well h =
    (leader-Later store es s l h, updates-Onward store es s, updates-IsWell store es s well)
