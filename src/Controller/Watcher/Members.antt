-- ===== src/Controller/Watcher/Members.antt =====
-- What the events of a node keep true of a member's status.
use multi_raft_storage.Prelude.{
  ℕ, ◌≤◌, ◌≡◌, refl, inl, inr, String, true, Option, none, some, arith, ltb, ◌&&◌, Bool-cases,
}
use multi_raft_storage.Node.Events.{
  EventKind, member_ready, leader_updated, snapshot_received, snapshot_recovered, snapshot_created,
  snapshot_compacted,
}
use multi_raft_storage.Controller.Api.{RaftMemberStatus, is_ready}
use multi_raft_storage.Controller.Watcher.{update_member, is_news, exceeds, member_snapshot}

-- A number that may be missing has not gone down, and has not been lost.
abbrev pub Grows : Option ℕ → Option ℕ → Type 0
Grows none b = Unit
Grows (some a) none = ⊥
Grows (some a) (some b) = a ≤ b

Grows-refl : (a : Option ℕ) → Grows a a
Grows-refl none = tt
Grows-refl (some a) = omega arith

Grows-news :
    (a : Option ℕ) (l : Option String) (t m : ℕ) → is_news a l t m ≡ true → Grows a (some t)
unfolding is_news
Grows-news none l t m h = tt
Grows-news (some a) l t m h = ground arith

Grows-exceeds : (a : Option ℕ) (i : ℕ) → exceeds i a ≡ true → Grows a (some i)
Grows-exceeds none i h = tt
Grows-exceeds (some a) i h = ground arith

member_snapshot-Grows :
    (now i : ℕ) (s : RaftMemberStatus)
    → Grows s.term (member_snapshot now i s).0.term
      × Grows s.last_snapshot_index (member_snapshot now i s).0.last_snapshot_index
      × ((member_snapshot now i s).0.version ≡ s.version)
      × ((member_snapshot now i s).0.pod_ref ≡ s.pod_ref)
unfolding member_snapshot
member_snapshot-Grows now i s = elim (Bool-cases (ltb 0 i && exceeds i s.last_snapshot_index)) [
  | inl newer ↦
      rw (newer, member_snapshot)
        (Grows-refl s.term, Grows-exceeds s.last_snapshot_index i (ground arith), refl, refl)
  | inr old ↦
      rw (old, member_snapshot) (Grows-refl s.term, Grows-refl s.last_snapshot_index, refl, refl)
]

-- No event takes a member's term or last snapshot index back, or changes the version or the pod by
-- which the cluster controller decides to start the member anew.
pub update_member-Grows :
    (store : String) (now : ℕ) (e : EventKind) (s : RaftMemberStatus)
    → Grows s.term (update_member store now e s).0.term
      × Grows s.last_snapshot_index (update_member store now e s).0.last_snapshot_index
      × ((update_member store now e s).0.version ≡ s.version)
      × ((update_member store now e s).0.pod_ref ≡ s.pod_ref)
unfolding update_member
update_member-Grows store now (leader_updated e t m) s =
    elim (Bool-cases (is_news s.term s.leader t m)) [
      | inl news ↦
          rw (news, update_member)
            (Grows-news s.term s.leader t m news, Grows-refl s.last_snapshot_index, refl, refl)
      | inr old ↦
          rw (old, update_member) (Grows-refl s.term, Grows-refl s.last_snapshot_index, refl, refl)
    ]
update_member-Grows store now (snapshot_received e i from) s = member_snapshot-Grows now i s
update_member-Grows store now (snapshot_recovered e i) s = member_snapshot-Grows now i s
update_member-Grows store now (snapshot_created e i) s = member_snapshot-Grows now i s
update_member-Grows store now (snapshot_compacted e i) s = member_snapshot-Grows now i s
update_member-Grows store now (member_ready e) s = elim (Bool-cases (is_ready s.state)) [
  | inl r ↦ rw (r, update_member) (Grows-refl s.term, Grows-refl s.last_snapshot_index, refl, refl)
  | inr r ↦ rw (r, update_member) (Grows-refl s.term, Grows-refl s.last_snapshot_index, refl, refl)
]
update_member-Grows store now _ s =
    (Grows-refl s.term, Grows-refl s.last_snapshot_index, refl, refl)
