-- ===== src/Controller/Cluster/Workloads/Nodes.antt =====
-- The node that a pod of the stateful set comes to run, from the script and the config map.
use multi_raft_storage.Prelude.{
  ℕ, suc, ◌^◌, ◌<◌, ◌≡◌, refl, ap, ◌∙◌, String, some, nat_Eq, Result, ok,
}
use multi_raft_storage.Prelude.Assoc.{lookup}
use multi_raft_storage.Prelude.Int.{ℤ, pos, pos_part}
use multi_raft_storage.Prelude.Text.{◌⊕◌, show_int}
use multi_raft_storage.Node.Config.{Config}
use multi_raft_storage.Node.Options.{apply, with_host, with_port}
use multi_raft_storage.Node.Main.{
  Node, main, node_host_config, make_node, make_or_exit, decode_or_exit,
}
use multi_raft_storage.Node.Group.{targets}
use multi_raft_storage.Controller.Api.{MultiRaftCluster, MemberType}
use multi_raft_storage.Controller.Placement.{pod_ordinal}
use multi_raft_storage.Controller.Placement.Ordinals.{IsSized}
use multi_raft_storage.Controller.Cluster.{bootstrap_request}
use multi_raft_storage.Controller.Cluster.Resources.{new_node_config}
use multi_raft_storage.Controller.Cluster.Workloads.{
  config_path, raft_config_file, node_flags, stateful_set,
}
use multi_raft_storage.Controller.Cluster.Workloads.Hosts.{targets_served}

-- A YAML codec that reads back the configuration that it has written, and a pod that finds the text of the cluster's config map
-- at the path where it is mounted.
pub record IsMounted {E : Type 0} (marshal : Config → String) (unmarshal : String → Result E Config)
    (read_file : String → Result E String) (c : MultiRaftCluster) : Type 0 where
  pub decodes : unmarshal (marshal (new_node_config c)) ≡ ok (new_node_config c)
  pub mounted : read_file (config_path ⊕ "/" ⊕ raft_config_file) ≡ ok (marshal (new_node_config c))

module _ {E : Type 0} (marshal : Config → String) (unmarshal : String → Result E Config)
    (read_file : String → Result E String) (env domain : String) (c : MultiRaftCluster)
    (mount : IsMounted marshal unmarshal read_file c) where
  main-node_flags :
      (ordinal : String)
      → main read_file unmarshal (node_flags domain c ordinal)
        ≡ ok (make_node read_file unmarshal (node_flags domain c ordinal) (new_node_config c))
  unfolding main node_flags
  main-node_flags ordinal =
      ap (decode_or_exit read_file unmarshal (node_flags domain c ordinal)) mount.mounted
      ∙ ap (make_or_exit read_file unmarshal (node_flags domain c ordinal)) mount.decodes

  -- Every member of a group is reached where it runs: the node's command, started by the script in the
  -- pod of member `i + 1` with the config map mounted, makes a node with the Raft configuration of the cluster whose Raft
  -- address is the one that the bootstrap request lists for the member. The group is numbered below
  -- 2^31 and has fewer than 2^32 members, the cluster has fewer than 2^31 replicas.
  pub node_listens :
      (n k g i : ℕ) (m : ℤ) (t : MemberType)
      → IsSized c n k
      → g < 2 ^ 31
      → n < 2 ^ 31
      → i < k
      → (o : ℕ) × (pod_ordinal c (pos g) (pos (suc i)) ≡ pos o)
        × (o < pos_part (stateful_set env domain c).replicas)
        × (node : Node) × (main read_file unmarshal (node_flags domain c (show_int (pos o)))
            ≡ ok node)
        × (node.raft ≡ (new_node_config c).raft)
        × (lookup (suc i) (targets (bootstrap_request domain c (pos g) m t).members)
            ≡ some node.host_config.raft_address)
  unfolding node_flags node_host_config apply with_host with_port
  node_listens n k g i m t sized group few lt =
      let (o, place, low, found) = targets_served env domain c n k g i sized m t group few lt in
      (
        o,
        place,
        low,
        make_node read_file unmarshal (node_flags domain c (show_int (pos o))) (new_node_config c),
        main-node_flags (show_int (pos o)),
        refl,
        found,
      )
