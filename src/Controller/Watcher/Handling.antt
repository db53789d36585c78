-- ===== src/Controller/Watcher/Handling.antt =====
-- What one event that a watch handles leaves of a stored group.
use multi_raft_storage.Prelude.{
  ◌≡◌, refl, ap, sym, subst, ◌∙◌, inl, inr, String, Bool, true, false, Option, none, some, arith,
  Result, ok, err, Exec, Bool-cases, str_eq, str_eq_iff, string_Eq,
}
use multi_raft_storage.Node.Events.{Event, EventKind, member_ready, leader_updated}
use multi_raft_storage.Controller.Api.{ObjectMeta, RaftGroup, RaftGroupStatus}
use multi_raft_storage.Controller.Client.{KubeError, not_found, other, Client}
use multi_raft_storage.Controller.Cluster.Converge.{put}
use multi_raft_storage.Controller.Cluster.Converge.Stages.{put-same}
use multi_raft_storage.Controller.Watcher.{
  group_name, update_group, group_ready, group_leader, is_news, is_follower_or_leader, member_name,
}
use multi_raft_storage.Controller.Watcher.Records.{
  written, store_group, found_group, group_reason, try_record_group_event, record_group_event,
  handle_group, member_of, handle,
}
use multi_raft_storage.Controller.Watcher.Sole.{
  Tries, last, again, IsSole, written-view, handle_member-view,
}

-- The events that are about the group of that name.
abbrev pub is_about : String → String → EventKind → Bool
is_about store name (member_ready m) = str_eq (group_name store m.group_id) name
is_about store name (leader_updated m term l) = str_eq (group_name store m.group_id) name
is_about store name _ = false

-- An update that is not to be written changes nothing.
update_group_quiet :
    (store : String) (e : EventKind) (s : RaftGroupStatus)
    → (update_group store e s).1 ≡ false
    → (update_group store e s).0 ≡ s
unfolding update_group group_ready group_leader
update_group_quiet store (member_ready e) s h =
    elim (Bool-cases (is_follower_or_leader (member_name store e.group_id e.member_id) s)) [
      | inl known ↦ rw known refl
      | inr unknown ↦ absurd (ground arith)
    ]
update_group_quiet store (leader_updated e term m) s h =
    elim (Bool-cases (is_news s.term s.leader term m)) [
      | inl news ↦ absurd (ground arith)
      | inr old ↦ rw old refl
    ]
update_group_quiet store _ s h = refl

put-other :
    (meta : ObjectMeta) (o : RaftGroup) (f : String → String → Option RaftGroup) (ns n : String)
    → str_eq meta.name n ≡ false
    → put meta o f ns n ≡ f ns n
put-other meta o f ns n apart = elim (Bool-cases (str_eq meta.namespace ns)) [
  | inl same ↦ rw (same, apart) refl
  | inr other_ns ↦ rw other_ns refl
]

module _ {S : Type 0} (client : Client S) (retry : Exec S KubeError (Unit {0}) → S → S)
    (view : S → String → String → Option RaftGroup) (laws : IsSole client retry view)
    (ns store name : String) where
  written-ok :
      (reason : Option String) (r : Result KubeError (Unit {0})) (s : S)
      → r ≡ ok tt
      → (written client retry reason r s).0 ≡ ok tt
  written-ok none (ok u) s h = refl
  written-ok (some reason) (ok u) s h = refl
  written-ok reason (err e) s h = absurd (ground arith)

  store_group-own :
      (reason : RaftGroupStatus → Option String) (group : RaftGroup) (p : RaftGroupStatus × Bool)
      (s : S)
      → view s ns name ≡ some group
      → (p.1 ≡ false → p.0 ≡ group.status)
      → ((store_group client retry group reason p s).0 ≡ ok tt)
        × (view (store_group client retry group reason p s).1 ns name
            ≡ some (record group { status = p.0 }))
  store_group-own reason group (status, false) s stored quiet = (refl, rw (quiet refl) stored)
  store_group-own reason group (status, true) s stored quiet =
      let updated : RaftGroup = record group { status = status } in
      let (same_ns, same_name) = laws.named ns name s group stored in
      let (done, now) = laws.writes updated group ns name s same_ns same_name stored in
      let (outcome, s') = client.update_group_status updated s in
      (
        written-ok (reason status) outcome s' done,
        ap (λ f. f ns name) (written-view client retry view laws store (reason status) outcome s')
            ∙ now ns name
            ∙ put-same (λ r. r ≡ some updated) group.meta updated (view s) ns name same_ns same_name
                refl,
      )

  store_group-other :
      (reason : RaftGroupStatus → Option String) (group : RaftGroup) (p : RaftGroupStatus × Bool)
      (gname : String) (s : S)
      → view s ns gname ≡ some group
      → str_eq gname name ≡ false
      → view (store_group client retry group reason p s).1 ns name ≡ view s ns name
  store_group-other reason group (status, false) gname s stored apart = refl
  store_group-other reason group (status, true) gname s stored apart =
      let updated : RaftGroup = record group { status = status } in
      let (same_ns, same_name) = laws.named ns gname s group stored in
      let (done, now) = laws.writes updated group ns gname s same_ns same_name stored in
      let (outcome, s') = client.update_group_status updated s in
      ap (λ f. f ns name) (written-view client retry view laws store (reason status) outcome s')
      ∙ now ns name
      ∙ put-other group.meta updated (view s) ns name
          (subst (λ n. str_eq n name ≡ false) (sym same_name) apart)

  found_group-other :
      (e : EventKind) (reason : RaftGroupStatus → Option String) (r : Result KubeError RaftGroup)
      (gname : String) (s : S)
      → ((o : RaftGroup) → r ≡ ok o → view s ns gname ≡ some o)
      → str_eq gname name ≡ false
      → view (found_group client retry (update_group store e) reason r s).1 ns name ≡ view s ns name
  found_group-other e reason (err not_found) gname s stored apart = refl
  found_group-other e reason (err (other x)) gname s stored apart = refl
  found_group-other e reason (ok group) gname s stored apart =
      store_group-other reason group (update_group store e group.status) gname s (stored group refl)
        apart

  found_group-own :
      (e : EventKind) (reason : RaftGroupStatus → Option String) (o : RaftGroup)
      (r : Result KubeError RaftGroup) (s : S)
      → r ≡ ok o
      → view s ns name ≡ some o
      → ((found_group client retry (update_group store e) reason r s).0 ≡ ok tt)
        × (view (found_group client retry (update_group store e) reason r s).1 ns name
            ≡ some (record o { status = (update_group store e o.status).0 }))
  found_group-own e reason o r s now stored =
      subst
        (λ r.
          ((found_group client retry (update_group store e) reason r s).0 ≡ ok tt)
          × (view (found_group client retry (update_group store e) reason r s).1 ns name
              ≡ some (record o { status = (update_group store e o.status).0 })))
        (sym now)
        (store_group-own reason o (update_group store e o.status) s stored
          (update_group_quiet store e o.status))

  -- The update of a group by an event, by the name of the group that the event is about.
  abbrev pub updated_by : Bool → EventKind → RaftGroup → RaftGroup
  updated_by true e o = record o { status = (update_group store e o.status).0 }
  updated_by false e o = o

  module _ (e : EventKind) (gname : String) where
    abbrev op : Exec S KubeError (Unit {0})
    op = try_record_group_event client retry ns gname (update_group store e) (group_reason e)

    op-other : (s : S) → str_eq gname name ≡ false → view (op s).1 ns name ≡ view s ns name
    unfolding try_record_group_event
    op-other s apart =
        let (found, s') = client.get_group ns gname s in
        found_group-other e (group_reason e) found gname s'
          (λ o now.
            ap (λ f. f ns gname) (laws.get_group ns gname s) ∙ laws.reads_stored ns gname s o now)
          apart
        ∙ ap (λ f. f ns name) (laws.get_group ns gname s)

    Tries-other :
        {s s' : S} → str_eq gname name ≡ false → Tries op s s' → view s' ns name ≡ view s ns name
    Tries-other apart (last s) = op-other s apart
    Tries-other {s} apart (again failure h) = Tries-other apart h ∙ op-other s apart

    Tries-own : {s s' : S} → (op s).0 ≡ ok tt → Tries op s s' → s' ≡ (op s).1
    Tries-own done (last s) = refl
    Tries-own done (again failure h) = absurd (cc)

    retry_lem :
        (s : S) (o : RaftGroup)
        → view s ns name ≡ some o
        → view (retry op s) ns name ≡ some (updated_by (str_eq gname name) e o)
    unfolding try_record_group_event
    retry_lem s o stored = elim (Bool-cases (str_eq gname name)) [
      | inr apart ↦ rw apart (Tries-other apart (laws.tries op s) ∙ stored)
      | inl same ↦
          let name_same : gname ≡ name = (str_eq_iff gname name).0 same in
          let there : view s ns gname ≡ some o = rw name_same stored in
          let (found, s') = client.get_group ns gname s in
          let (done, after) =
            found_group-own e (group_reason e) o found s' (laws.reads ns gname s o there)
              (ap (λ f. f ns name) (laws.get_group ns gname s) ∙ stored) in
          rw same (ap (λ s. view s ns name) (Tries-own done (laws.tries op s)) ∙ after)
    ]

  handle_group_lem :
      (e : EventKind) (s : S) (o : RaftGroup)
      → view s ns name ≡ some o
      → view (handle_group client retry ns store e s) ns name
        ≡ some (updated_by (is_about store name e) e o)
  unfolding record_group_event
  handle_group_lem (member_ready m) s o stored =
      retry_lem (member_ready m) (group_name store m.group_id) s o stored
  handle_group_lem (leader_updated m term l) s o stored =
      retry_lem (leader_updated m term l) (group_name store m.group_id) s o stored
  handle_group_lem _ s o stored = stored

  pub handle_lem :
      (e : Event) (s : S) (o : RaftGroup)
      → view s ns name ≡ some o
      → view (handle client retry ns store e s) ns name
        ≡ some (updated_by (is_about store name e.event) e.event o)
  unfolding handle
  handle_lem e s o stored =
      let members =
        handle_member-view client retry view laws store ns e.timestamp e.event (member_of e.event)
          s in
      handle_group_lem e.event _ o (ap (λ f. f ns name) members ∙ stored)
