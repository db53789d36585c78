-- ===== src/Controller/Pods/Deletion.antt =====
-- The finalizer of a pod, and what becomes of its watch.
use multi_raft_storage.Prelude.{
  ◌≡◌, refl, ◌≢◌, inl, inr, String, true, false, not, ◌&&◌, List, some, arith, str_eq, str_eq_refl,
  string_Eq, Option-cases,
}
use multi_raft_storage.Prelude.Assoc.{lookup, lookup-insert}
use multi_raft_storage.Controller.Labels.{multi_raft_store_key}
use multi_raft_storage.Controller.Client.{Client, Pod}
use multi_raft_storage.Controller.Pods.{
  Watches, unwatch, multi_raft_pod_finalizer, has_finalizer, remove_finalizer, pod_address,
  reconcile_delete, reconcile_pod,
}
use multi_raft_storage.Controller.Watcher.Groups.{contains-keep}

remove_finalizer_lem :
    (name f : String) (fs : List String)
    → has_finalizer (remove_finalizer fs name) f ≡ (not (str_eq f name) && has_finalizer fs f)
remove_finalizer_lem name f fs = contains-keep name f fs

not-running : (a : String) (w : Watches) → lookup a (unwatch a w) ≢ some false
unfolding unwatch
not-running a w e = elim (Option-cases (lookup a w)) [
  | inl free ↦ absurd (ground arith)
  | inr (c, taken) ↦ absurd (ground (arith, lookup-insert a a true w, str_eq_refl a))
]

-- A pass over a deleted pod of a store that still has the finalizer leaves no watch of its address that
-- is not cancelled, and writes the pod without that finalizer and with every other that it had. The pass
-- fails exactly as the write does.
pub reconcile_pod_deleting :
    {S : Type 0} (client : Client S) (domain store : String) (pod : Pod) (w : Watches) (s : S)
    → pod.deleting ≡ true
    → lookup multi_raft_store_key pod.meta.annotations ≡ some store
    → has_finalizer pod.finalizers multi_raft_pod_finalizer ≡ true
    → let left = remove_finalizer pod.finalizers multi_raft_pod_finalizer in
      let (r, s') = client.update_pod (record pod { finalizers = left }) s in
      let w' = unwatch (pod_address client domain store pod) w in
      (reconcile_pod client domain pod (w, s) ≡ (r, (w', s')))
      × (lookup (pod_address client domain store pod) w' ≢ some false)
      × ((f : String)
          → has_finalizer left f
            ≡ (not (str_eq f multi_raft_pod_finalizer) && has_finalizer pod.finalizers f))
unfolding reconcile_pod reconcile_delete
reconcile_pod_deleting client domain store pod w s deleted owned guarded = (
  rw deleted (rw (owned, reconcile_delete) (rw (guarded, reconcile_delete) refl)),
  not-running (pod_address client domain store pod) w,
  λ f. remove_finalizer_lem multi_raft_pod_finalizer f pod.finalizers,
)
