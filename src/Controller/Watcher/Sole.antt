-- ===== src/Controller/Watcher/Sole.antt =====
-- What a watch may rely on of the API server and of `backoff.Retry` while nothing else writes the groups,
-- and the stored groups while it writes a member.
use multi_raft_storage.Prelude.{
  ℕ, ◌≡◌, refl, ◌∙◌, String, Bool, true, false, Option, none, some, Result, ok, err, Exec,
}
use multi_raft_storage.Node.Events.{EventKind, MemberEvent}
use multi_raft_storage.Controller.Api.{RaftGroup, RaftMember, RaftMemberStatus}
use multi_raft_storage.Controller.Client.{KubeError, not_found, other, Client}
use multi_raft_storage.Controller.Cluster.Converge.{put}
use multi_raft_storage.Controller.Watcher.Records.{
  note, written, store_member, found_member, member_reason, try_record_member_event,
  record_member_event, handle_member,
}

-- Calls of an operation, again after each that fails, until one succeeds or no more are made.
pub data Tries {S : Type 0} (op : Exec S KubeError (Unit {0})) : S → S → Type 0 where
  last : (s : S) → Tries op s (op s).1
  again : {s s' : S} {e : KubeError} → (op s).0 ≡ err e → Tries op (op s).1 s' → Tries op s s'

-- A client, `backoff.Retry`, and the groups that are stored, each under its own name. A stored group is
-- read, and the write of its status is stored; no other call changes a group. The operations on members
-- may fail.
pub record IsSole {S : Type 0} (client : Client S) (retry : Exec S KubeError (Unit {0}) → S → S)
    (view : S → String → String → Option RaftGroup) : Type 0 where
  pub named :
      (ns n : String) (s : S) (o : RaftGroup)
      → view s ns n ≡ some o
      → (o.meta.namespace ≡ ns) × (o.meta.name ≡ n)
  pub reads :
      (ns n : String) (s : S) (o : RaftGroup)
      → view s ns n ≡ some o
      → (client.get_group ns n s).0 ≡ ok o
  pub reads_stored :
      (ns n : String) (s : S) (o : RaftGroup)
      → (client.get_group ns n s).0 ≡ ok o
      → view s ns n ≡ some o
  pub get_group : (ns n : String) (s : S) → view (client.get_group ns n s).1 ≡ view s
  pub writes :
      (o p : RaftGroup) (ns n : String) (s : S)
      → o.meta.namespace ≡ ns
      → o.meta.name ≡ n
      → view s ns n ≡ some p
      → ((client.update_group_status o s).0 ≡ ok tt)
        × ((ns' n' : String)
            → view (client.update_group_status o s).1 ns' n' ≡ put o.meta o (view s) ns' n')
  pub get_member : (ns n : String) (s : S) → view (client.get_member ns n s).1 ≡ view s
  pub update_member_status :
      (o : RaftMember) (s : S) → view (client.update_member_status o s).1 ≡ view s
  pub record_event : (reason : String) (s : S) → view (client.record_event reason s).1 ≡ view s
  pub tries : (op : Exec S KubeError (Unit {0})) (s : S) → Tries op s (retry op s)

module _ {S : Type 0} (client : Client S) (retry : Exec S KubeError (Unit {0}) → S → S)
    (view : S → String → String → Option RaftGroup) (laws : IsSole client retry view)
    (store : String) where
  note-view : (reason : Option String) (s : S) → view (note client retry reason s).1 ≡ view s
  note-view none s = refl
  note-view (some reason) s = laws.record_event reason s

  pub written-view :
      (reason : Option String) (r : Result KubeError (Unit {0})) (s : S)
      → view (written client retry reason r s).1 ≡ view s
  written-view reason (ok u) s = note-view reason s
  written-view reason (err not_found) s = refl
  written-view reason (err (other e)) s = refl

  store_member-view :
      (reason : RaftMemberStatus → Option String) (member : RaftMember)
      (p : RaftMemberStatus × Bool) (s : S)
      → view (store_member client retry member reason p s).1 ≡ view s
  store_member-view reason member (status, false) s = refl
  store_member-view reason member (status, true) s =
      written-view _ _ _ ∙ laws.update_member_status (record member { status = status }) s

  found_member-view :
      (updater : RaftMemberStatus → RaftMemberStatus × Bool)
      (reason : RaftMemberStatus → Option String) (r : Result KubeError RaftMember) (s : S)
      → view (found_member client retry updater reason r s).1 ≡ view s
  found_member-view updater reason (err not_found) s = refl
  found_member-view updater reason (err (other x)) s = refl
  found_member-view updater reason (ok member) s =
      store_member-view reason member (updater member.status) s

  try_record_member_event-view :
      (ns n : String) (updater : RaftMemberStatus → RaftMemberStatus × Bool)
      (reason : RaftMemberStatus → Option String) (s : S)
      → view (try_record_member_event client retry ns n updater reason s).1 ≡ view s
  unfolding try_record_member_event
  try_record_member_event-view ns n updater reason s =
      let read = client.get_member ns n s in
      found_member-view updater reason read.0 read.1 ∙ laws.get_member ns n s

  Tries-view :
      (op : Exec S KubeError (Unit {0})) {s s' : S}
      → ((s : S) → view (op s).1 ≡ view s)
      → Tries op s s'
      → view s' ≡ view s
  Tries-view op each (last s) = each s
  Tries-view op {s} each (again failed h) = Tries-view op each h ∙ each s

  -- The writes of members leave the groups as they are.
  pub handle_member-view :
      (ns : String) (now : ℕ) (e : EventKind) (m : Option MemberEvent) (s : S)
      → view (handle_member client retry ns store now e m s) ≡ view s
  unfolding record_member_event
  handle_member-view ns now e none s = refl
  handle_member-view ns now e (some m) s =
      Tries-view _ (try_record_member_event-view ns _ _ (member_reason e)) (laws.tries _ s)
