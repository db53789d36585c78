-- ===== src/Controller/Watcher.antt =====
-- controller/pkg/controller/consensus/v1beta1/watcher.go: what the events of a node do to the
-- statuses of members and groups. Each update returns the new status and whether it is to be written.
pub mod Groups
pub mod Members
pub mod History
pub mod Records
pub mod Sole
pub mod Handling
pub mod Stored
pub mod Stream
use multi_raft_storage.Prelude.{
  ℕ, String, Bool, true, false, not, ◌&&◌, ◌||◌, List, [], ◌∷◌, ◌++◌, Option, none, some, ltb,
  nat_eq, str_eq, keep, contains, string_Eq, if◌then◌else◌,
}
use multi_raft_storage.Prelude.Text.{◌⊕◌, itoa}
use multi_raft_storage.Node.Events.{
  EventKind, MemberEvent, member_ready, membership_changed, leader_updated, send_snapshot_started,
  send_snapshot_completed, send_snapshot_aborted, snapshot_received, snapshot_recovered,
  snapshot_created, snapshot_compacted, log_compacted, logdb_compacted, connection_established,
  connection_failed,
}
use multi_raft_storage.Controller.Api.{
  State, ready, is_ready, MemberRole, leader, follower, RaftGroupStatus, RaftMemberStatus,
}

-- `fmt.Sprintf("%s-%d", store, group)` and `fmt.Sprintf("%s-%d-%d", store, group, member)`
unfoldable pub group_name : String → ℕ → String
unfolding itoa
group_name store g = store ⊕ "-" ⊕ itoa g

unfoldable pub member_name : String → ℕ → ℕ → String
unfolding itoa
member_name store g m = store ⊕ "-" ⊕ itoa g ⊕ "-" ⊕ itoa m

abbrev pub is_none {ℓ} : {A : Type ℓ} → Option A → Bool
is_none none = true
is_none (some a) = false

-- Whether a leader update is news: a later term, or the first leader of the present one.
unfoldable pub is_news : Option ℕ → Option String → ℕ → ℕ → Bool
is_news none current term m = true
is_news (some t) current term m =
    ltb t term || (nat_eq t term && is_none current && not (nat_eq m 0))

-- The leader of an update; member 0 is none.
unfoldable pub leader_of : String → ℕ → ℕ → Option String
unfolding member_name
leader_of store g m = if nat_eq m 0 then none else some (member_name store g m)

abbrev pub is_leader : Option String → String → Bool
is_leader none name = false
is_leader (some l) name = str_eq l name

abbrev pub is_follower_or_leader : String → RaftGroupStatus → Bool
is_follower_or_leader name s = is_leader s.leader name || contains s.followers name

-- A ready member is added to the followers, unless the status has it.
unfoldable pub group_ready : String → RaftGroupStatus → RaftGroupStatus × Bool
group_ready name s =
    if is_follower_or_leader name s
    then (s, false)
    else (record s { followers = s.followers ++ name ∷ [] }, true)

-- The old leader goes to the end of the followers, unless it leads again.
abbrev pub demote : Option String → Option String → List String → List String
demote none new fs = fs
demote (some old) none fs = fs ++ old ∷ []
demote (some old) (some new) fs = if str_eq old new then fs else fs ++ old ∷ []

-- The loop that leaves the new leader out.
abbrev pub without : Option String → List String → List String
without none fs = fs
without (some new) fs = keep (λ f. not (str_eq f new)) fs

unfoldable pub group_leader : String → ℕ → ℕ → ℕ → RaftGroupStatus → RaftGroupStatus × Bool
unfolding is_news leader_of
group_leader store g term m s =
    if is_news s.term s.leader term m
    then (
      record s {
        term = some term;
        leader = leader_of store g m;
        followers =
            without (leader_of store g m) (demote s.leader (leader_of store g m) s.followers);
      },
      true,
    )
    else (s, false)

-- The updates of the group that an event asks for.
unfoldable pub update_group : String → EventKind → RaftGroupStatus → RaftGroupStatus × Bool
unfolding group_ready group_leader member_name
update_group store (member_ready e) s = group_ready (member_name store e.group_id e.member_id) s
update_group store (leader_updated e term m) s = group_leader store e.group_id term m s
update_group store _ s = (s, false)

unfoldable pub member_becomes_ready : ℕ → RaftMemberStatus → RaftMemberStatus × Bool
member_becomes_ready now s =
    if is_ready s.state
    then (s, false)
    else (record s { state = ready; last_updated = some now }, true)

unfoldable pub member_leader :
    String → ℕ → MemberEvent → ℕ → ℕ → RaftMemberStatus → RaftMemberStatus × Bool
unfolding is_news leader_of
member_leader store now e term m s =
    if is_news s.term s.leader term m
    then (
      record s {
        leader = leader_of store e.group_id m;
        term = some term;
        role = some (if not (nat_eq m 0) && nat_eq m e.member_id then leader else follower);
        last_updated = some now;
      },
      true,
    )
    else (s, false)

abbrev pub exceeds : ℕ → Option ℕ → Bool
exceeds index none = true
exceeds index (some last) = ltb last index

-- The four snapshot events that move the last snapshot's index.
unfoldable pub member_snapshot : ℕ → ℕ → RaftMemberStatus → RaftMemberStatus × Bool
member_snapshot now index s =
    if ltb 0 index && exceeds index s.last_snapshot_index
    then (
      record s {
        last_updated = some now;
        last_snapshot_index = some index;
        last_snapshot_time = some now;
      },
      true,
    )
    else (s, false)

-- The updates of the member that an event asks for; some write the status as it is, so that the
-- event is recorded. Events of connections concern no member.
unfoldable pub update_member : String → ℕ → EventKind → RaftMemberStatus → RaftMemberStatus × Bool
unfolding member_becomes_ready member_leader member_snapshot
update_member store now (member_ready m) s = member_becomes_ready now s
update_member store now (leader_updated m term l) s = member_leader store now m term l s
update_member store now (membership_changed m) s = (s, true)
update_member store now (send_snapshot_started m i to) s = (s, true)
update_member store now (send_snapshot_completed m i to) s = (s, true)
update_member store now (send_snapshot_aborted m i to) s = (s, true)
update_member store now (snapshot_received m i from) s = member_snapshot now i s
update_member store now (snapshot_recovered m i) s = member_snapshot now i s
update_member store now (snapshot_created m i) s = member_snapshot now i s
update_member store now (snapshot_compacted m i) s = member_snapshot now i s
update_member store now (log_compacted m i) s = (s, true)
update_member store now (logdb_compacted m i) s = (s, true)
update_member store now (connection_established c) s = (s, false)
update_member store now (connection_failed c) s = (s, false)
