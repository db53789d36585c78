-- ===== src/Controller/Cluster/Workloads/Hosts.antt =====
-- The addresses that the nodes of a stateful set are given.
use native.Mathlib.Nat.{mod-lt}
use text.Mathlib.TextLemmas.{append_assoc}
use multi_raft_storage.Prelude.{
  ℕ, suc, ◌+◌, ◌*◌, ◌%◌, ◌^◌, ◌<◌, ◌≡◌, nat_Eq, String, some, arith, sym, ◌∙◌, ap, subst,
}
use multi_raft_storage.Prelude.Assoc.{lookup}
use multi_raft_storage.Prelude.Int.{ℤ, pos, pos_part, int32}
use multi_raft_storage.Prelude.Text.{◌⊕◌, show_int}
use multi_raft_storage.Node.Group.{targets}
use multi_raft_storage.Controller.Api.{MultiRaftCluster, MemberType}
use multi_raft_storage.Controller.Placement.{
  get_pod_name, get_pod_dns_name, pod_ordinal, get_num_members, get_num_replicas,
}
use multi_raft_storage.Controller.Placement.Ordinals.{IsSized, pod_ordinal_lem}
use multi_raft_storage.Controller.Cluster.{bootstrap_request}
use multi_raft_storage.Controller.Cluster.Targets.{member_host, lookup-bootstrap_request}
use multi_raft_storage.Controller.Cluster.Workloads.{raft_host, stateful_set, protocol_port}

-- The name of a pod's node in the DNS is the host that its script starts the node with.
pub raft_host-pod_ordinal :
    (domain : String) (c : MultiRaftCluster) (g m : ℤ)
    → get_pod_dns_name domain c.meta.namespace c.meta.name (get_pod_name c g m)
      ≡ raft_host domain c (show_int (pod_ordinal c g m))
unfolding raft_host get_pod_dns_name get_pod_name
raft_host-pod_ordinal domain c g m =
    append_assoc c.meta.name _ _ ∙ ap (λ t. c.meta.name ⊕ t) (append_assoc "-" _ _)

int32_fits : (n : ℕ) → n < 2 ^ 31 → int32 (pos n) ≡ pos n
unfolding int32
int32_fits n h = ground arith

module _ (env domain : String) (c : MultiRaftCluster) (n k g i : ℕ) (sized : IsSized c n k) where
  -- The bootstrap request and the set's script agree on every member's address: the map that a node
  -- starts a group with has, for member `i + 1`, the raft host and port that the script gives to the pod
  -- whose ordinal is the member's, which is below the set's number of replicas. The group is numbered
  -- below 2^31 and has fewer than 2^32 members, the cluster has fewer than 2^31 replicas.
  pub targets_served :
      (m : ℤ) (t : MemberType)
      → g < 2 ^ 31
      → n < 2 ^ 31
      → i < k
      → (o : ℕ) × (pod_ordinal c (pos g) (pos (suc i)) ≡ pos o)
        × (o < pos_part (stateful_set env domain c).replicas)
        × (lookup (suc i) (targets (bootstrap_request domain c (pos g) m t).members)
            ≡ some (raft_host domain c (show_int (pos o)) ⊕ ":" ⊕ show_int protocol_port))
  unfolding stateful_set member_host
  targets_served m t group few lt =
      let o = (k * g + i) % n in
      let place = pod_ordinal_lem c n k g i sized group (omega (arith, sized.few_members)) in
      let set_replicas : pos_part (int32 (get_num_replicas c)) ≡ n =
        rw sized.replicas (ap pos_part (int32_fits n few)) in
      let members : pos_part (get_num_members c) ≡ k = ap pos_part sized.members in
      let found =
        lookup-bootstrap_request domain c (pos g) m t (suc i)
          (omega (arith, members, sized.few_members)) (omega arith) (omega (arith, members)) in
      (
        o,
        place,
        subst (λ r. o < r) (sym set_replicas) (mod-lt _ sized.some_replica),
        found
            ∙ ap (λ h. some (h ⊕ ":" ⊕ show_int protocol_port))
                (raft_host-pod_ordinal domain c (pos g) (pos (suc i))
                  ∙ ap (λ z. raft_host domain c (show_int z)) place),
      )
