-- ===== src/Controller/Pods.antt =====
-- controller/pkg/controller/consensus/v1beta1/watcher.go: the reconciler of pods, which keeps one watch
-- for each pod of a store, and a finalizer on the pod while the watch may run. The table of watches maps
-- an address to whether its watch has been cancelled.
pub mod Watches
pub mod Deletion
use multi_raft_storage.Prelude.{
  String, Bool, true, false, not, List, [], ◌∷◌, ◌++◌, Option, none, some, Result, ok, err, Exec,
  pure, fail, attempt, ◌>>=◌, ◌>>◌, str_eq, string_Eq, keep, contains, if◌then◌else◌,
}
use multi_raft_storage.Prelude.Assoc.{lookup, insert, delete}
use multi_raft_storage.Prelude.Int.{pos}
use multi_raft_storage.Prelude.Text.{◌⊕◌, show_int}
use multi_raft_storage.Node.Events.{EventKind}
use multi_raft_storage.Controller.Api.{RaftMember, RaftGroup}
use multi_raft_storage.Controller.Labels.{multi_raft_store_key}
use multi_raft_storage.Controller.Placement.{get_pod_dns_name}
use multi_raft_storage.Controller.Client.{KubeError, not_found, Client, Pod}
use multi_raft_storage.Controller.Watcher.{group_name, member_name, update_group, update_member}

abbrev pub multi_raft_pod_finalizer : String
multi_raft_pod_finalizer = "multiraft.atomix.io/pod"

abbrev pub has_finalizer : List String → String → Bool
has_finalizer fs name = contains fs name

abbrev pub add_finalizer : List String → String → List String
add_finalizer fs name = fs ++ name ∷ []

abbrev pub remove_finalizer : List String → String → List String
remove_finalizer fs name = keep (λ f. not (str_eq f name)) fs

abbrev pub Watches : Type 0
Watches = List (String × Bool)

-- `watch`: the table, and whether a goroutine is started for the address.
unfoldable pub watch : String → Watches → Watches × Bool
watch address w = elim (lookup address w) [
  | some _ ↦ (w, false)
  | none ↦ (insert address false w, true)
]

-- `unwatch` cancels; the entry stays until the watch has ended.
unfoldable pub unwatch : String → Watches → Watches
unwatch address w = elim (lookup address w) [ some _ ↦ insert address true w | none ↦ w ]

-- The deferred function of a watch that ends.
unfoldable pub finish : String → Watches → Watches
finish address w = delete address w

module _ {S : Type 0} (client : Client S) (domain : String) where
  -- A call of the client, and a change of the table.
  abbrev pub call : {A : Type 0} → Exec S KubeError A → Exec (Watches × S) KubeError A
  call m (w, s) = let (r, s') = m s in (r, (w, s'))

  abbrev pub modify : (Watches → Watches) → Exec (Watches × S) KubeError (Unit {0})
  modify f (w, s) = (ok tt, (f w, s))

  -- The address of the pod's node, for a pod of that store.
  unfoldable pub pod_address : String → Pod → String
  unfolding get_pod_dns_name
  pod_address store pod =
      get_pod_dns_name domain pod.meta.namespace store pod.meta.name ⊕ ":" ⊕ show_int (pos 5678)

  unfoldable pub reconcile_create : Pod → Exec (Watches × S) KubeError (Unit {0})
  unfolding watch pod_address
  reconcile_create pod = elim (lookup multi_raft_store_key pod.meta.annotations) [
    | none ↦ pure tt
    | some store ↦
        if has_finalizer pod.finalizers multi_raft_pod_finalizer
        then modify (λ w. (watch (pod_address store pod) w).0)
        else call (
            client.update_pod
              (record pod { finalizers = add_finalizer pod.finalizers multi_raft_pod_finalizer }))
  ]

  unfoldable pub reconcile_delete : Pod → Exec (Watches × S) KubeError (Unit {0})
  unfolding unwatch pod_address
  reconcile_delete pod = elim (lookup multi_raft_store_key pod.meta.annotations) [
    | none ↦ pure tt
    | some store ↦
        if has_finalizer pod.finalizers multi_raft_pod_finalizer
        then (do
          modify (unwatch (pod_address store pod))
          call (
              client.update_pod (record pod {
                finalizers = remove_finalizer pod.finalizers multi_raft_pod_finalizer;
              })))
        else pure tt
  ]

  unfoldable pub reconcile_pod : Pod → Exec (Watches × S) KubeError (Unit {0})
  unfolding reconcile_create reconcile_delete
  reconcile_pod pod = if pod.deleting then reconcile_delete pod else reconcile_create pod

  unfoldable pub reconcile : String → String → Exec (Watches × S) KubeError (Unit {0})
  unfolding reconcile_pod
  reconcile namespace name = do
    found ← attempt (call (client.get_pod namespace name))
    elim found [ err not_found ↦ pure tt | err e ↦ fail e | ok pod ↦ reconcile_pod pod ]
