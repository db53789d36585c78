-- ===== src/Controller/Kube.antt =====
-- The fields that controller/pkg/controller/consensus/v1beta1/cluster.go sets of the stateful set and
-- of the services that it creates. Secrets stand as their names, a security context as a text.
use multi_raft_storage.Prelude.{String, Bool, List, Option}
use multi_raft_storage.Prelude.Int.{ℤ}
use multi_raft_storage.Controller.Api.{ObjectMeta, PersistentVolumeClaim}

pub data VolumeSource : Type 0 where
  config_map : String → VolumeSource
  empty_dir : VolumeSource

pub record Volume : Type 0 where
  pub name : String
  pub source : VolumeSource

pub record VolumeMount : Type 0 where
  pub name : String
  pub mount_path : String

-- A port of a container, and one of a service.
pub record Port : Type 0 where
  pub name : String
  pub number : ℤ

-- A probe of a TCP port; `none` is a threshold that is not set.
pub record Probe : Type 0 where
  pub port : ℤ
  pub initial_delay_seconds : ℤ
  pub timeout_seconds : ℤ
  pub failure_threshold : Option ℤ

pub record Container : Type 0 where
  pub name : String
  pub image : String
  pub image_pull_policy : String
  pub ports : List Port
  pub command : List String
  pub readiness_probe : Probe
  pub liveness_probe : Probe
  pub security_context : Option String
  pub volume_mounts : List VolumeMount

-- A preference not to share a node with pods of these labels.
pub record PodAffinityTerm : Type 0 where
  pub weight : ℤ
  pub match_labels : List (String × String)
  pub namespaces : List String
  pub topology_key : String

pub record PodTemplate : Type 0 where
  pub labels : List (String × String)
  pub annotations : List (String × String)
  pub containers : List Container
  pub anti_affinity : List PodAffinityTerm
  pub image_pull_secrets : List String
  pub volumes : List Volume

pub record StatefulSet : Type 0 where
  pub meta : ObjectMeta
  pub service_name : String
  pub replicas : ℤ
  pub match_labels : List (String × String)
  pub update_strategy : String
  pub pod_management_policy : String
  pub template : PodTemplate
  pub volume_claim_templates : List PersistentVolumeClaim

-- `none` is a cluster address that Kubernetes chooses.
pub record Service : Type 0 where
  pub meta : ObjectMeta
  pub ports : List Port
  pub publish_not_ready_addresses : Bool
  pub cluster_ip : Option String
  pub selector : List (String × String)
