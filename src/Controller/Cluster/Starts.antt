-- ===== src/Controller/Cluster/Starts.antt =====
-- When the version of a member's container is recorded.
use mathlib.Core.List.{Mem, mem-cons}
use mathlib.Core.Logic.Or
use multi_raft_storage.Prelude.{
  ◌≡◌, ◌≢◌, ◌⊎◌, subst, inl, inr, String, List, [], ◌∷◌, ◌++◌, none, some, refl, Result, ok, err,
  Exec, continue, Bool-cases,
}
use multi_raft_storage.Prelude.Int.{ℤ, pos}
use multi_raft_storage.Prelude.Text.{◌⊕◌, show_int}
use multi_raft_storage.Controller.Api.{MultiRaftCluster, RaftMember, not_ready, is_not_ready}
use multi_raft_storage.Controller.Client.{KubeError, Client, Pod}
use multi_raft_storage.Controller.Cluster.{
  start_member, follow_pod, bootstrap_request, same_pod, is_outdated, container_version,
}
use multi_raft_storage.Controller.Cluster.Logged.{Call, stored, booted, noted, logged}

module _ (v : ℤ) (call : Call) where
  -- In a log, latest call first, every member that is written with the version `v` is written after `call`.
  After : List Call → Type 0
  After [] = Unit
  After (stored m ∷ log) = ((m.status.version ≢ some v) ⊎ Mem call log) × After log
  After (booted a r ∷ log) = After log

  After-split :
      (later earlier : List Call) (m : RaftMember)
      → After (later ++ stored m ∷ earlier)
      → m.status.version ≡ some v
      → Mem call earlier
  unfolding After
  After-split [] earlier m (inl other, rest) h = absurd (other h)
  After-split [] earlier m (inr there, rest) h = there
  After-split (stored m' ∷ later) earlier m a h = After-split later earlier m a.1 h
  After-split (booted b r ∷ later) earlier m a h = After-split later earlier m a h

  -- A pass that leaves such a log.
  Leaves : {S B : Type 0} → Result KubeError B × (S × List Call) → Type 0
  Leaves o = After o.1.1

  After-Leaves :
      {S B : Type 0} (r : Result KubeError B) (s : S) (log : List Call)
      → After log
      → Leaves (r, (s, log))
  unfolding Leaves
  After-Leaves r s log h = h

  -- What follows a call that has returned `r`.
  continue-Leaves :
      {S A B : Type 0} (r : Result KubeError A) (s : S) (log : List Call)
      (f : A → Exec (S × List Call) KubeError B)
      → After log
      → ((a : A) → Leaves (f a (s, log)))
      → Leaves (continue r f (s, log))
  unfolding Leaves
  continue-Leaves (ok a) s log f now next = next a
  continue-Leaves (err e) s log f now next = now

  -- What follows that call.
  noted-Leaves :
      {S B : Type 0} (r : Result KubeError (Unit {0})) (s : S)
      (f : Unit {0} → Exec (S × List Call) KubeError B)
      → ((u : Unit {0}) → Leaves (f u (s, call ∷ [])))
      → Leaves (continue r f (s, noted call r []))
  unfolding Leaves After
  noted-Leaves (ok u) s f next = next u
  noted-Leaves (err e) s f next = tt

module _ {S : Type 0} (client : Client S) (domain : String) (c : MultiRaftCluster) (g m : ℤ)
    (pod : Pod) (member : RaftMember) where
  -- The call of `Bootstrap` on the pod's node, for this member.
  abbrev pub start_call : Call
  start_call =
      booted (pod.pod_ip ⊕ ":" ⊕ show_int (pos 5678))
        (bootstrap_request domain c g m member.spec.member_type)

  start_member-Leaves :
      (v version : ℤ) (s : S)
      → Leaves v start_call (start_member (logged client) domain c g m version pod member (s, []))
  unfolding start_member After
  start_member-Leaves v version s =
      let started : RaftMember = record member {
        status = record member.status { version = some version };
      } in
      let last : After v start_call (stored started ∷ start_call ∷ []) =
        (inr (mem-cons.1 (Or.inl refl)), tt) in
      let address = pod.pod_ip ⊕ ":" ⊕ show_int (pos 5678) in
      let request = bootstrap_request domain c g m member.spec.member_type in
      let (dialled, s1) = client.dial address s in
      let (booting, s2) = client.bootstrap address request s1 in
      let (storing, s3) = client.update_member_status started s2 in
      continue-Leaves v start_call dialled s1 [] _ tt (λ _.
        noted-Leaves v start_call booting s2 _ (λ _.
          continue-Leaves v start_call storing s3 (stored started ∷ start_call ∷ []) _ last
            (λ _. After-Leaves v start_call _ _ _ last)))

  follow_pod-Leaves :
      (v : ℤ) (s : S)
      → member.status.version ≢ some v
      → Leaves v start_call (follow_pod (logged client) domain c g m pod member (s, []))
  unfolding follow_pod After
  follow_pod-Leaves v s changed =
      let stopped : RaftMember = record member {
        status = record member.status { state = not_ready };
      } in
      let moved : RaftMember = record member {
        status = record member.status {
          pod_ref =
              some (record { namespace = pod.meta.namespace; name = pod.meta.name; uid = pod.uid });
          version = none;
        };
      } in
      let reset : After v start_call (stored moved ∷ []) = (inl (λ e. cc), tt) in
      let unchanged : After v start_call (stored stopped ∷ []) = (inl changed, tt) in
      elim (Bool-cases (same_pod member.status.pod_ref pod)) [
        | inr new ↦
            let (storing, s1) = client.update_member_status moved s in
            rw new (
              continue-Leaves v start_call storing s1 (stored moved ∷ []) _ reset
                (λ _. After-Leaves v start_call _ _ _ reset))
        | inl same ↦
            elim (Bool-cases
              (is_outdated member.status.version (container_version pod.container_statuses))) [
                | inr current ↦ rw (same, current) (After-Leaves v start_call _ _ [] tt)
                | inl old ↦ elim (Bool-cases (is_not_ready member.status.state)) [
                  | inr up ↦
                      let (storing, s1) = client.update_member_status stopped s in
                      let (recorded, s2) = client.record_event "StateChanged" s1 in
                      rw (same, old, up)
                        (continue-Leaves v start_call storing s1 (stored stopped ∷ []) _ unchanged
                          (λ _.
                            continue-Leaves v start_call recorded s2 (stored stopped ∷ []) _
                              unchanged (λ _. After-Leaves v start_call _ _ _ unchanged)))
                  | inl down ↦
                      rw (same, old, down)
                        (start_member-Leaves v (container_version pod.container_statuses) s)
                ]
              ]
      ]

  -- In every pass over a member that is there, one that fails included: where a status of a member is
  -- written with a version of the container that the member did not have before the pass, the pass has
  -- called `Bootstrap` on the pod's node before, with the group's members and this member's number and
  -- role, and the call has succeeded. The client's log has the latest call first.
  pub follow_pod_starts :
      (s : S) (later earlier : List Call) (m' : RaftMember) (v : ℤ)
      → (follow_pod (logged client) domain c g m pod member (s, [])).1.1
        ≡ later ++ stored m' ∷ earlier
      → m'.status.version ≡ some v
      → member.status.version ≢ some v
      → Mem start_call earlier
  unfolding Leaves
  follow_pod_starts s later earlier m' v log version changed =
      After-split v start_call later earlier m'
        (subst (After v start_call) log (follow_pod-Leaves v s changed)) version
