-- ===== src/Controller.antt =====
-- The Kubernetes controllers: controller/pkg/controller/consensus/v1beta1, over the resource types of
-- controller/pkg/apis/consensus/v1beta1.
pub mod Api
pub mod Kube
pub mod Placement
pub mod Labels
pub mod Statuses
pub mod Watcher
pub mod Client
pub mod Cluster
pub mod Store
pub mod Pods
