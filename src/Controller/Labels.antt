-- ===== src/Controller/Labels.antt =====
-- controller/pkg/controller/consensus/v1beta1/cluster.go: the labels and annotations that clusters,
-- groups and members are created with. A Go map is an association list.
pub mod Laws
use multi_raft_storage.Prelude.{String, List, [], ◌∷◌, string_Eq}
use multi_raft_storage.Prelude.Assoc.{insert}
use multi_raft_storage.Prelude.Int.{ℤ}
use multi_raft_storage.Prelude.Text.{show_int}
use multi_raft_storage.Controller.Api.{ConsensusStore, MultiRaftCluster, RaftGroup}

abbrev pub store_key : String
store_key = "atomix.io/store"

abbrev pub multi_raft_store_key : String
multi_raft_store_key = "multiraft.atomix.io/store"

abbrev pub multi_raft_cluster_key : String
multi_raft_cluster_key = "multiraft.atomix.io/cluster"

abbrev pub raft_group_key : String
raft_group_key = "multiraft.atomix.io/group"

abbrev pub raft_partition_key : String
raft_partition_key = "multiraft.atomix.io/partition"

abbrev pub raft_member_key : String
raft_member_key = "multiraft.atomix.io/member"

-- `for key, value := range from { to[key] = value }`
unfoldable pub copy_into : List (String × String) → List (String × String) → List (String × String)
copy_into to [] = to
copy_into to ((k, v) ∷ from) = copy_into (insert k v to) from

unfoldable pub copied : List (String × String) → List (String × String)
unfolding copy_into
copied m = copy_into [] m

unfoldable pub new_cluster_labels : ConsensusStore → List (String × String)
new_cluster_labels s =
    insert multi_raft_store_key s.meta.name (insert store_key s.meta.name (copied s.meta.labels))

unfoldable pub new_group_labels : MultiRaftCluster → ℤ → List (String × String)
new_group_labels c partition_id =
    insert raft_partition_key (show_int partition_id)
      (insert multi_raft_cluster_key c.meta.name (copied c.meta.labels))

unfoldable pub new_member_labels : RaftGroup → ℤ → List (String × String)
new_member_labels g member_id =
    insert raft_member_key (show_int member_id)
      (insert raft_group_key g.meta.name (copied g.meta.labels))

unfoldable pub new_cluster_annotations : ConsensusStore → List (String × String)
new_cluster_annotations s =
    insert multi_raft_store_key s.meta.name
      (insert store_key s.meta.name (copied s.meta.annotations))

-- The source ranges over the labels here, and in the next function.
unfoldable pub new_group_annotations : MultiRaftCluster → ℤ → List (String × String)
new_group_annotations c partition_id =
    insert raft_partition_key (show_int partition_id)
      (insert multi_raft_cluster_key c.meta.name (copied c.meta.labels))

unfoldable pub new_member_annotations : RaftGroup → ℤ → List (String × String)
new_member_annotations g member_id =
    insert raft_member_key (show_int member_id)
      (insert raft_group_key g.meta.name (copied g.meta.labels))
