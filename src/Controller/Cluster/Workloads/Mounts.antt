-- ===== src/Controller/Cluster/Workloads/Mounts.antt =====
-- What the node's container finds under its two paths.
use multi_raft_storage.Prelude.{
  String, false, ◌≡◌, refl, ◌≢◌, inl, inr, List, [], ◌∷◌, ◌++◌, Option, none, some, map, keep,
  arith, str_eq, str_eq_iff, str_eq_refl, Bool-cases,
}
use multi_raft_storage.Controller.Api.{PersistentVolumeClaim, MultiRaftCluster}
use multi_raft_storage.Controller.Kube.{VolumeSource, Volume, config_map, empty_dir, StatefulSet}
use multi_raft_storage.Controller.Cluster.Workloads.{
  config_volume, config_path, data_path, named_claim, data_volume_name, data_volumes,
  claim_templates, node_container, pod_template, stateful_set,
}

-- What a mount may stand for: a volume of the template or a claim of the set.
pub data Source : Type 0 where
  volume : VolumeSource → Source
  claim : PersistentVolumeClaim → Source

-- All that goes by a name among volumes and claims, and in the set's pods.
abbrev pub named_so : List Volume → List PersistentVolumeClaim → String → List Source
named_so volumes claims name =
    map (λ v. volume v.source) (keep (λ v. str_eq v.name name) volumes)
    ++ map claim (keep (λ p. str_eq p.name name) claims)

abbrev pub sources : StatefulSet → String → List Source
sources set = named_so set.template.volumes set.volume_claim_templates

-- Where the logs go: into the claim, or without one into a directory that goes with the pod.
abbrev pub data_source : Option PersistentVolumeClaim → Source
data_source none = volume empty_dir
data_source (some p) = claim (named_claim p)

-- The two names among the volumes of a cluster called `cluster` with the given claim.
Found : String → Option PersistentVolumeClaim → Type 0
Found cluster o =
    let named =
      named_so (record { name = config_volume; source = config_map cluster } ∷ data_volumes o)
        (claim_templates o) in
    (named (data_volume_name o) ≡ data_source o ∷ [])
    × (named config_volume ≡ volume (config_map cluster) ∷ [])

claim_apart :
    (p : PersistentVolumeClaim)
    → str_eq p.name "" ≡ false
    → data_volume_name (some p) ≢ config_volume
    → str_eq p.name config_volume ≡ false
unfolding data_volume_name
claim_apart p own apart = ground (arith, str_eq_iff p.name config_volume)

not_eq : (s t : String) → str_eq t s ≡ false → str_eq s t ≡ false
not_eq s t h = ground (arith, str_eq_iff s t, str_eq_iff t s)

names-Found :
    (cluster : String) (o : Option PersistentVolumeClaim)
    → data_volume_name o ≢ config_volume
    → Found cluster o
unfolding Found data_volume_name data_volumes claim_templates named_claim
names-Found cluster none apart = (refl, refl)
names-Found cluster (some p) apart = elim (Bool-cases (str_eq p.name "")) [
  | inl unnamed ↦ rw unnamed (refl, refl)
  | inr own ↦
      let other : str_eq p.name config_volume ≡ false = claim_apart p own apart in
      rw (own, other, str_eq_refl p.name, not_eq config_volume p.name other) (refl, refl)
]

module _ (env domain : String) (c : MultiRaftCluster) where
  -- Where no volume claim is called `config`, each of the two names that the container mounts stands for one thing:
  -- the one at the data path for the claim of the cluster, or an empty directory where it has none, the one at
  -- the configuration path for the config map of the cluster's name.
  pub mounts_found :
      data_volume_name c.spec.volume_claim_template ≢ config_volume
      → ((node_container env domain c).volume_mounts
          ≡ record { name = data_volume_name c.spec.volume_claim_template; mount_path = data_path }
            ∷ record { name = config_volume; mount_path = config_path }
            ∷ [])
        × (sources (stateful_set env domain c) (data_volume_name c.spec.volume_claim_template)
            ≡ data_source c.spec.volume_claim_template ∷ [])
        × (sources (stateful_set env domain c) config_volume ≡ volume (config_map c.meta.name) ∷ [])
  unfolding Found stateful_set pod_template node_container
  mounts_found apart =
      let (data_found, config_found) = names-Found c.meta.name c.spec.volume_claim_template apart in
      (refl, data_found, config_found)
