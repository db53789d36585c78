-- ===== src/Controller/Cluster/Converge/Statuses.antt =====
-- The partitions that a pass writes into the cluster's status, against what is stored of its groups and
-- members.
use multi_raft_storage.Prelude.{
  ℕ, zero, suc, ◌≡◌, refl, sym, ap, ◌∙◌, inl, inr, String, Bool, true, false, List, [], ◌∷◌, map,
  Option, none, some, Result, ok, err, Exec, pure, ◌>>◌, Bool-cases,
}
use multi_raft_storage.Prelude.Int.{pos, int32}
use multi_raft_storage.Prelude.Text.{◌⊕◌, show_int}
use multi_raft_storage.Controller.Api.{
  ObjectMeta, MultiRaftCluster, RaftGroup, RaftMember, RaftPartitionStatus,
}
use multi_raft_storage.Controller.Placement.{get_pod_dns_name}
use multi_raft_storage.Controller.Statuses.{is_partition_statuses_equal}
use multi_raft_storage.Controller.Client.{KubeError, not_found, other, Client}
use multi_raft_storage.Controller.Cluster.Groups.{
  member_address, leader_address, follower_addresses, partition_statuses, get_partition_statuses,
  reconcile_status,
}
use multi_raft_storage.Controller.Cluster.Converge.{
  Db, put_cluster, Holds, returns, fails, Finds, IsStored, child, num_groups,
}
use multi_raft_storage.Controller.Cluster.Converge.Stages.{step}

-- What a look-up that succeeds says.
Finds-Holds :
    {S A : Type 0} (view : S → Db) (db : Db) (meta : A → ObjectMeta) (stored : Option A)
    (ns n : String) (o : Result KubeError A × S)
    → Finds view db meta stored ns n o
    → Holds
        (λ a s. (stored ≡ some a) × ((meta a).namespace ≡ ns) × ((meta a).name ≡ n) × (view s ≡ db))
        o
Finds-Holds view db meta stored ns n (ok a, s) h = returns a s refl h
Finds-Holds view db meta stored ns n (err not_found, s) h = fails _ _ refl
Finds-Holds view db meta stored ns n (err (other e), s) h = fails _ _ refl

module _ (domain : String) (c : MultiRaftCluster) where
  -- The address of the node that serves a stored member.
  abbrev pub address_of : Option RaftMember → String
  address_of none = ""
  address_of (some o) =
      get_pod_dns_name domain c.meta.namespace c.meta.name o.spec.pod ⊕ ":" ⊕ show_int (pos 5678)

  abbrev pub member_at : Db → String → String
  member_at db name = address_of (db.members c.meta.namespace name)

  abbrev pub leader_at : Db → Option String → Option String
  leader_at db none = none
  leader_at db (some name) = some (member_at db name)

  -- The partition of a stored group, before the others.
  abbrev pub with_partition :
      Db → ℕ → Option RaftGroup → List RaftPartitionStatus → List RaftPartitionStatus
  with_partition db g none rest = rest
  with_partition db g (some o) rest =
      record {
        partition_id = int32 (pos g);
        leader = leader_at db o.status.leader;
        followers = map (member_at db) o.status.followers;
      }
      ∷ rest

  -- The partitions of the groups from number `g` on.
  unfoldable pub partitions_of : Db → ℕ → ℕ → List RaftPartitionStatus
  partitions_of db zero g = []
  partitions_of db (suc rounds) g =
      with_partition db g (db.groups c.meta.namespace (child c.meta.name g))
        (partitions_of db rounds (suc g))

  module _ {S : Type 0} (client : Client S) (view : S → Db) (laws : IsStored client view) where
    -- The cluster with other partitions.
    abbrev pub with_partitions : List RaftPartitionStatus → MultiRaftCluster
    with_partitions ps = record c { status = record c.status { partitions = ps } }

    abbrev pub StatusPost : S → Bool → S → Type 0
    StatusPost s true s' =
        view s' ≡ put_cluster (with_partitions (partitions_of (view s) (num_groups c) 1)) (view s)
    StatusPost s false s' =
        (view s' ≡ view s)
        × (is_partition_statuses_equal c.status.partitions (partitions_of (view s) (num_groups c) 1)
            ≡ true)

    -- A call that reads this value from what is stored, and leaves it.
    Reads : {A : Type 0} → Db → A → Result KubeError A × S → Type 0
    Reads db value o = Holds (λ a s. (a ≡ value) × (view s ≡ db)) o

    member_address-Reads :
        (db : Db) (ns n : String) (s : S)
        → ns ≡ c.meta.namespace
        → view s ≡ db
        → Reads db (member_at db n) (member_address client domain c ns n s)
    unfolding Reads member_address
    member_address-Reads db ns n s same_ns same =
        step
          (Finds-Holds view (view s) (λ (o : RaftMember). o.meta) ((view s).members ns n) ns n
            (client.get_member ns n s) (laws.get_member ns n s))
          (λ o s1 (stored, key_ns, key_n, kept).
            let there = sym (ap (λ d. d.members ns n) same) ∙ stored in
            returns _ _ refl
              (sym (ap address_of (ap (λ x. db.members x n) (sym same_ns) ∙ there)), kept ∙ same))

    leader_address-Reads :
        (db : Db) (ns : String) (l : Option String) (s : S)
        → ns ≡ c.meta.namespace
        → view s ≡ db
        → Reads db (leader_at db l) (leader_address client domain c ns l s)
    unfolding Reads leader_address
    leader_address-Reads db ns none s same_ns same = returns _ _ refl (refl, same)
    leader_address-Reads db ns (some n) s same_ns same =
        step (member_address-Reads db ns n s same_ns same)
          (λ a s1 h. returns _ _ refl (ap some h.0, h.1))

    follower_addresses-Reads :
        (db : Db) (ns : String) (names : List String) (s : S)
        → ns ≡ c.meta.namespace
        → view s ≡ db
        → Reads db (map (member_at db) names) (follower_addresses client domain c ns names s)
    unfolding Reads follower_addresses
    follower_addresses-Reads db ns [] s same_ns same = returns _ _ refl (refl, same)
    follower_addresses-Reads db ns (n ∷ names) s same_ns same =
        step (member_address-Reads db ns n s same_ns same) (λ a s1 h.
          step (follower_addresses-Reads db ns names s1 same_ns h.1)
            (λ rest s2 k. returns _ _ refl ((rw (h.0, k.0) refl), k.1)))

    partition_statuses-Reads :
        (db : Db) (rounds g : ℕ) (s : S)
        → view s ≡ db
        → Reads db (partitions_of db rounds g) (partition_statuses client domain c rounds g s)
    unfolding Reads partition_statuses partitions_of
    partition_statuses-Reads db zero g s same = returns _ _ refl (refl, same)
    partition_statuses-Reads db (suc rounds) g s same =
        let name = child c.meta.name g in
        step
          (Finds-Holds view (view s) (λ (o : RaftGroup). o.meta)
            ((view s).groups c.meta.namespace name) c.meta.namespace name
            (client.get_group c.meta.namespace name s) (laws.get_group c.meta.namespace name s))
          (λ o s1 (stored, key_ns, key_n, kept).
            step (leader_address-Reads db o.meta.namespace o.status.leader s1 key_ns (kept ∙ same))
              (λ l s2 hl.
                step
                  (follower_addresses-Reads db o.meta.namespace o.status.followers s2 key_ns hl.1)
                  (λ fs s3 hf.
                    step (partition_statuses-Reads db rounds (suc g) s3 hf.1) (λ rest s4 hr.
                      let there : db.groups c.meta.namespace name ≡ some o =
                        sym (ap (λ d. d.groups c.meta.namespace name) same) ∙ stored in
                      returns _ _ refl ((rw (there, hl.0, hf.0, hr.0) refl), hr.1)))))

    write_partitions :
        (s : S) (ps : List RaftPartitionStatus) (s1 : S)
        → ps ≡ partitions_of (view s) (num_groups c) 1
        → view s1 ≡ view s
        → Holds (StatusPost s) (
            elim (is_partition_statuses_equal c.status.partitions ps)
                as (λ b. Exec S KubeError Bool) [
                  | true ↦ pure false
                  | false ↦ do client.update_cluster_status (with_partitions ps); pure true
                ]
              s1)
    write_partitions s ps s1 all same =
        elim (Bool-cases (is_partition_statuses_equal c.status.partitions ps)) [
          | inl settled ↦ rw settled (returns _ _ refl (same, rw (← all) settled))
          | inr new ↦ rw new (
              step (laws.update_cluster_status (with_partitions ps) s1) (λ u s2 h.
                returns _ _ refl (
                  h
                  ∙ ap (put_cluster (with_partitions ps)) same
                  ∙ ap (λ qs. put_cluster (with_partitions qs) (view s)) all)))
        ]

    -- A pass over the status of a stored cluster that succeeds writes the partitions that the stored groups and members
    -- make, one for each group in the order of their numbers, with the addresses of the pods of the group's leader and
    -- followers, and writes nothing else; or it writes nothing, and then the cluster's partitions are those
    -- already, by the comparison of the reconciler.
    pub reconcile_status-StatusPost :
        (s : S) → Holds (StatusPost s) (reconcile_status client domain c s)
    unfolding reconcile_status get_partition_statuses Reads
    reconcile_status-StatusPost s =
        step (partition_statuses-Reads (view s) (num_groups c) 1 s refl)
          (λ ps s1 h. write_partitions s ps s1 h.0 h.1)
