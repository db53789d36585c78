-- ===== src/Controller/Cluster/Workloads/Requests.antt =====
-- Which events of pods reach the reconciler of their cluster.
use multi_raft_storage.Prelude.{String, ◌≡◌, ap, ◌∙◌, [], none, string_Eq}
use multi_raft_storage.Prelude.Assoc.{lookup}
use multi_raft_storage.Controller.Api.{ObjectMeta, ConsensusStore, MultiRaftCluster}
use multi_raft_storage.Controller.Labels.{multi_raft_cluster_key, new_cluster_annotations}
use multi_raft_storage.Controller.Labels.Laws.{OneEach, lookup-new_cluster_annotations}
use multi_raft_storage.Controller.Cluster.Workloads.{
  pod_requests, requests_for, pod_template, stateful_set,
}

-- An event of a pod of the stateful set enqueues nothing where the pod has the annotations of the set's
-- template, the cluster those that it was created with from its store, and the store has no annotation
-- of its own under the cluster's key: the controller looks for a key that it never sets on pods. The
-- store has one annotation for a key.
pub pod_requests_lost :
    (env domain : String) (store : ConsensusStore) (c : MultiRaftCluster) (pod : ObjectMeta)
    → OneEach store.meta.annotations
    → lookup multi_raft_cluster_key store.meta.annotations ≡ none
    → c.meta.annotations ≡ new_cluster_annotations store
    → pod.annotations ≡ (stateful_set env domain c).template.annotations
    → pod_requests pod ≡ []
unfolding pod_requests stateful_set pod_template
pod_requests_lost env domain store c pod one absent created templated =
    ap (requests_for pod.namespace) (
      ap (lookup multi_raft_cluster_key) (templated ∙ created)
      ∙ lookup-new_cluster_annotations store multi_raft_cluster_key one
      ∙ absent)
