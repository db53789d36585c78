-- ===== src/Controller/Placement.antt =====
-- controller/pkg/controller/consensus/v1beta1/cluster.go: how many groups, members and replicas a
-- cluster has, which pod runs which member, and what pods and services are called.
pub mod Ordinals
use multi_raft_storage.Prelude.{String, Option, none, some, if◌then◌else◌, str_eq, zero}
use multi_raft_storage.Prelude.Int.{ℤ, pos, negsuc, ◌+ℤ◌, ◌*ℤ◌, rem, int64}
use multi_raft_storage.Prelude.Text.{◌⊕◌, show_int, trim_prefix, trim_suffix}
use multi_raft_storage.Controller.Api.{MultiRaftCluster}

abbrev one_if_zero : ℤ → ℤ
one_if_zero (pos zero) = pos 1
one_if_zero z = z

unfoldable pub get_num_groups : MultiRaftCluster → ℤ
get_num_groups c = one_if_zero c.spec.groups

unfoldable pub get_num_replicas : MultiRaftCluster → ℤ
get_num_replicas c = one_if_zero c.spec.replicas

unfoldable pub get_num_voting_members : MultiRaftCluster → ℤ
unfolding get_num_replicas
get_num_voting_members c = elim c.spec.config.raft.quorum_size [
  | none ↦ get_num_replicas c
  | some n ↦ n
]

unfoldable pub get_num_non_voting_members : MultiRaftCluster → ℤ
get_num_non_voting_members c = elim c.spec.config.raft.read_replicas [ none ↦ pos 0 | some n ↦ n ]

unfoldable pub get_num_members : MultiRaftCluster → ℤ
unfolding get_num_voting_members get_num_non_voting_members
get_num_members c = int64 (get_num_voting_members c +ℤ get_num_non_voting_members c)

-- The ordinal of the pod that runs a member, in 64-bit arithmetic.
unfoldable pub pod_ordinal : MultiRaftCluster → ℤ → ℤ → ℤ
unfolding get_num_members get_num_replicas
pod_ordinal c group_id member_id =
    rem (int64 (int64 (get_num_members c *ℤ group_id) +ℤ int64 (member_id +ℤ negsuc 0)))
      (get_num_replicas c)

unfoldable pub get_pod_name : MultiRaftCluster → ℤ → ℤ → String
unfolding pod_ordinal show_int
get_pod_name c group_id member_id = c.meta.name ⊕ "-" ⊕ show_int (pod_ordinal c group_id member_id)

unfoldable pub get_resource_name : String → String → String
get_resource_name name resource = name ⊕ "-" ⊕ resource

unfoldable pub get_headless_service_name : String → String
unfolding get_resource_name
get_headless_service_name cluster = get_resource_name cluster "hs"

-- `env` is the value of the environment variable, `cname` the name that the resolver returns, if the
-- lookup succeeds.
unfoldable pub get_cluster_domain : String → Option String → String
unfolding trim_prefix trim_suffix
get_cluster_domain env cname =
    if str_eq env ""
    then (elim cname [
      | none ↦ "cluster.local"
      | some name ↦ trim_suffix (trim_prefix name ("kubernetes.default.svc" ⊕ ".")) "."
    ])
    else env

-- `domain` is the result of `getClusterDomain()`.
unfoldable pub get_pod_dns_name : String → String → String → String → String
unfolding get_headless_service_name
get_pod_dns_name domain namespace cluster name =
    name ⊕ "." ⊕ get_headless_service_name cluster ⊕ "." ⊕ namespace ⊕ ".svc." ⊕ domain

unfoldable pub get_default_image : String → String
get_default_image env = if str_eq env "" then "atomix/consensus-node:latest" else env

unfoldable pub get_image : String → MultiRaftCluster → String
unfolding get_default_image
get_image env c = if str_eq c.spec.image "" then get_default_image env else c.spec.image
