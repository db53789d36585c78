-- ===== src/Tests/Watch.antt =====
-- The theorems on the loop of a watch at concrete inputs.
use multi_raft_storage.Prelude.{
  ℕ, zero, ◌≡◌, refl, ap, inl, inr, String, true, false, [], Option, none, some, arith, ok, Exec,
  str_eq, ◌&&◌, Bool-cases, ◌∷◌, if◌then◌else◌,
}
use multi_raft_storage.Node.Events.{Event, leader_updated}
use multi_raft_storage.Controller.Api.{ObjectMeta, RaftGroup, RaftMember, ready}
use multi_raft_storage.Controller.Client.{KubeError}
use multi_raft_storage.Controller.Cluster.Converge.{Db, put}
use multi_raft_storage.Controller.Cluster.Converge.Stages.{both_eq}
use multi_raft_storage.Prelude.Text.{itoa}
use multi_raft_storage.Controller.Watcher.Records.{Received, received, eof, failed, watch_loop}
use multi_raft_storage.Controller.Watcher.{
  update_group, group_leader, group_name, member_name, is_news, leader_of,
}
use multi_raft_storage.Controller.Watcher.History.{updates}
use multi_raft_storage.Controller.Watcher.Sole.{last, IsSole}
use multi_raft_storage.Controller.Watcher.Stored.{group_events, watch_loop_records}
use multi_raft_storage.Controller.Watcher.Stream.{watch_loop_ends, watch_loop_stays}
use multi_raft_storage.Tests.Fixtures.{named, raft}
use multi_raft_storage.Tests.Converge.{memory, look}

-- One call, whatever it returns.
abbrev once : Exec Db KubeError (Unit {0}) → Db → Db
once op db = (op db).1

-- The groups that are stored under their own names.
abbrev named_as : String → String → Option RaftGroup → Option RaftGroup
named_as ns n none = none
named_as ns n (some o) = if str_eq o.meta.namespace ns && str_eq o.meta.name n then some o else none

abbrev groups_of : Db → String → String → Option RaftGroup
groups_of db ns n = named_as ns n (db.groups ns n)

abbrev meta_of : RaftGroup → ObjectMeta
meta_of g = g.meta

named_as-named :
    (ns n : String) (r : Option RaftGroup) (o : RaftGroup)
    → named_as ns n r ≡ some o
    → (o.meta.namespace ≡ ns) × (o.meta.name ≡ n)
named_as-named ns n none o h = absurd (ground arith)
named_as-named ns n (some p) o h =
    elim (Bool-cases (str_eq p.meta.namespace ns && str_eq p.meta.name n)) [
      | inl e ↦
          (let same : p ≡ o = ground arith in
            rw (← same) (both_eq p.meta.namespace ns p.meta.name n e))
      | inr e ↦ absurd (ground arith)
    ]

look_named :
    (ns n : String) (r : Option RaftGroup) (db : Db) (o : RaftGroup)
    → named_as ns n r ≡ some o
    → (look meta_of ns n r db).0 ≡ ok o
look_named ns n none db o h = absurd (ground arith)
look_named ns n (some p) db o h =
    elim (Bool-cases (str_eq p.meta.namespace ns && str_eq p.meta.name n)) [
      | inl e ↦ (let same : p ≡ o = ground arith in rw e (ap (λ x. ok x) same))
      | inr e ↦ absurd (ground arith)
    ]

named_look :
    (ns n : String) (r : Option RaftGroup) (db : Db) (o : RaftGroup)
    → (look meta_of ns n r db).0 ≡ ok o
    → named_as ns n r ≡ some o
named_look ns n none db o h = absurd (ground arith)
named_look ns n (some p) db o h =
    elim (Bool-cases (str_eq p.meta.namespace ns && str_eq p.meta.name n)) [
      | inl e ↦ (let same : p ≡ o = ground arith in rw e (ap (λ x. some x) same))
      | inr e ↦ absurd (ground arith)
    ]

named_as-put :
    (o : RaftGroup) (db : Db) (ns n : String)
    → named_as ns n (put o.meta o db.groups ns n) ≡ put o.meta o (groups_of db) ns n
named_as-put o db ns n = elim (Bool-cases (str_eq o.meta.namespace ns && str_eq o.meta.name n)) [
  | inl e ↦ rw (e, named_as) (rw e refl)
  | inr e ↦ rw e refl
]

look-state :
    {A : Type 0} (meta : A → ObjectMeta) (ns n : String) (stored : Option A) (db : Db)
    → (look meta ns n stored db).1 ≡ db
look-state meta ns n none db = refl
look-state meta ns n (some o) db =
    elim (Bool-cases (str_eq (meta o).namespace ns && str_eq (meta o).name n)) [
      | inl e ↦ rw e refl
      | inr e ↦ rw e refl
    ]

memory-IsSole : IsSole memory once groups_of
memory-IsSole = record {
  named = λ ns n db o h. named_as-named ns n (db.groups ns n) o h;
  reads = λ ns n db o h. look_named ns n (db.groups ns n) db o h;
  reads_stored = λ ns n db o h. named_look ns n (db.groups ns n) db o h;
  get_group = λ ns n db. ap groups_of (look-state meta_of ns n (db.groups ns n) db);
  writes = λ o p ns n db same_ns same_n h. (refl, λ ns' n'. named_as-put o db ns' n');
  get_member =
      λ ns n db. ap groups_of (look-state (λ (m : RaftMember). m.meta) ns n (db.members ns n) db);
  update_member_status = λ o db. refl;
  record_event = λ reason db. refl;
  tries = λ op db. last db;
}

abbrev led : RaftGroup
led = record {
  meta = named "raft-1";
  spec = raft none;
  status = record { state = ready; term = some 2; leader = some "raft-1-1"; followers = [] };
}

abbrev one_group : Db
one_group = record {
  members = λ ns n. none;
  groups = λ ns n. some led;
  clusters = λ ns n. none;
  pods = λ ns n. none;
}

abbrev event : Event
event = record {
  timestamp = 9;
  event = leader_updated (record { group_id = 1; member_id = 2 }) 3 2;
}

abbrev stream : ℕ → Received
stream zero = received event
stream _ = eof

-- The second member leads, and the first follows.
watch_loop_records_example :
    groups_of (watch_loop memory once "default" "raft" stream 2 0 one_group).1 "default" "raft-1"
    ≡ some (record led {
      status = updates "raft" (group_events "raft" "raft-1" stream 2 0) led.status;
    })
watch_loop_records_example =
    watch_loop_records memory once groups_of memory-IsSole "default" "raft" "raft-1" stream 2 0
      one_group led refl

group_events_run : updates "raft" (group_events "raft" "raft-1" stream 2 0) led.status ≡ (record {
  state = ready;
  term = some 3;
  leader = some "raft-1-2";
  followers = "raft-1-1" ∷ [];
})
unfolding updates group_events update_group group_leader group_name member_name itoa is_news
    leader_of
group_events_run = refl

watch_loop_ends_example : (watch_loop memory once "default" "raft" stream 2 0 one_group).0 ≡ true
watch_loop_ends_example =
    watch_loop_ends memory once "default" "raft" stream 1 2 0 one_group refl (omega arith)

watch_loop_stays_example :
    watch_loop memory once "default" "raft" (λ k. failed) 5 0 one_group ≡ (false, one_group)
watch_loop_stays_example =
    watch_loop_stays memory once "default" "raft" (λ k. failed) 5 0 one_group (λ j le. refl)
