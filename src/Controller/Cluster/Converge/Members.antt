-- ===== src/Controller/Cluster/Converge/Members.antt =====
-- A pass over a member brings it nearer to its end, or finds it there.
use multi_raft_storage.Prelude.{
  ◌<◌, ◌≡◌, refl, ap, subst, ◌∙◌, inl, inr, String, true, none, some, arith, Result, ok, err,
  str_eq_refl, Bool-cases,
}
use multi_raft_storage.Prelude.Int.{ℤ}
use multi_raft_storage.Prelude.Text.{◌⊕◌, show_int}
use multi_raft_storage.Controller.Api.{
  MultiRaftCluster, RaftGroup, RaftMember, RaftMemberStatus, is_not_ready,
}
use multi_raft_storage.Controller.Client.{KubeError, not_found, other, Client, Pod}
use multi_raft_storage.Controller.Cluster.{
  create_member, start_member, follow_pod, follow_member, reconcile_member, same_pod, is_outdated,
  container_version,
}
use multi_raft_storage.Controller.Cluster.Converge.{
  Db, put_member, Holds, returns, fails, Finds, IsStored, stage, phase_of, phase,
}
use multi_raft_storage.Controller.Cluster.Converge.Stages.{
  Drop, step, MemberPost, put_member-Drop, stage_current, stage_marked, stage_old, stage_moved,
  stage_unversioned, missing_less, below, below_or_less, same_version,
}

module _ {S : Type 0} (client : Client S) (view : S → Db) (laws : IsStored client view)
    (domain : String) (c : MultiRaftCluster) (ns n : String) where
  create_member-MemberPost :
      (group : RaftGroup) (g m : ℤ) (s : S)
      → group.meta.namespace ≡ ns
      → group.meta.name ⊕ "-" ⊕ show_int m ≡ n
      → (view s).members ns n ≡ none
      → Holds (MemberPost view (view s) ns n) (create_member client domain c group g m s)
  unfolding create_member phase phase_of
  create_member-MemberPost group g m s same_ns same_n missing =
      step (laws.set_controller c.meta _ s) (λ owned s1 h1.
        step (laws.set_owner group.meta owned s1) (λ meta s2 h2.
          step (laws.create_member _ s2) (λ u s3 h3. returns _ _ refl (
            put_member-Drop _ (view s) (view s3) ns n (h3 ∙ ap (put_member _) (h2.2 ∙ h1.2))
              (h2.0 ∙ h1.0 ∙ same_ns) (h2.1 ∙ h1.1 ∙ same_n)
              (missing_less (view s) _ ns n missing)))))

  -- A member that is there, and its pod.
  module _ (member : RaftMember) (pod : Pod) (s : S) (same_ns : member.meta.namespace ≡ ns)
      (same_n : member.meta.name ≡ n) (there : (view s).members ns n ≡ some member)
      (runs : (view s).pods member.meta.namespace member.spec.pod ≡ some pod) where
    phase-stage : phase (view s) ns n ≡ stage (some pod) member
    unfolding phase phase_of
    phase-stage = rw (there, runs) refl

    -- The member with another status is stored.
    stored-Drop :
        (status : RaftMemberStatus) (s' : S)
        → view s' ≡ put_member (record member { status = status }) (view s)
        → stage (some pod) (record member { status = status }) < stage (some pod) member
        → Drop (view s) (view s') ns n
    unfolding phase_of
    stored-Drop status s' written less =
        put_member-Drop (record member { status = status }) (view s) (view s') ns n written same_ns
          same_n (rw (phase-stage, runs) less)

    start_member-MemberPost :
        (g m : ℤ)
        → same_pod member.status.pod_ref pod ≡ true
        → stage (some pod) member ≡ 1
        → Holds (MemberPost view (view s) ns n) (
            start_member client domain c g m
              (container_version pod.container_statuses)
              pod
              member
              s)
    unfolding start_member
    start_member-MemberPost g m same one = step (laws.dial _ s) (λ u s1 h1.
        step (laws.bootstrap _ _ s1) (λ u2 s2 h2. step (laws.update_member_status _ s2) (λ u3 s3 h3.
          returns _ _ refl (
            stored-Drop _ s3 (h3 ∙ ap (put_member _) (h2 ∙ h1)) (
              below 0 1
                (stage_current pod _ same (same_version (container_version pod.container_statuses)))
                one (omega arith))))))

    follow_pod-MemberPost :
        (g m : ℤ)
        → Holds (MemberPost view (view s) ns n) (follow_pod client domain c g m pod member s)
    unfolding follow_pod
    follow_pod-MemberPost g m = elim (Bool-cases (same_pod member.status.pod_ref pod)) [
      | inr new ↦ rw new (
          step (laws.update_member_status _ s) (λ u s1 h1. returns _ _ refl (
            stored-Drop _ s1 h1 (
              below_or_less 3 (stage_unversioned pod _ (str_eq_refl pod.uid) refl)
                (stage_moved pod member new)))))
      | inl same ↦
          elim (Bool-cases
            (is_outdated member.status.version (container_version pod.container_statuses))) [
              | inr current ↦
                  rw (same, current)
                    (returns _ _ refl
                      (refl, there, phase-stage ∙ stage_current pod member same current))
              | inl old ↦ elim (Bool-cases (is_not_ready member.status.state)) [
                | inr up ↦
                    rw (same, old, up)
                      (step (laws.update_member_status _ s) (λ u s1 h1.
                        step (laws.record_event _ s1) (λ u2 s2 h2. returns _ _ refl (
                          stored-Drop _ s2 (h2 ∙ h1) (
                            below 1 2 (stage_marked pod _ same old refl)
                              (stage_old pod member same old up) (omega arith))))))
                | inl down ↦
                    rw (same, old, down)
                      (start_member-MemberPost g m same (stage_marked pod member same old down))
              ]
            ]
    ]

  follow_member-MemberPost :
      (group : RaftGroup) (g m : ℤ) (found : Result KubeError RaftMember) (s s' : S)
      → group.meta.namespace ≡ ns
      → group.meta.name ⊕ "-" ⊕ show_int m ≡ n
      → Finds view (view s) (λ (o : RaftMember). o.meta) ((view s).members ns n) ns n (found, s')
      → Holds (MemberPost view (view s) ns n) (follow_member client domain c group g m found s')
  unfolding follow_member
  follow_member-MemberPost group g m (err not_found) s s' same_ns same_n h =
      rw (← h.1) (create_member-MemberPost group g m s' same_ns same_n (rw h.1 h.0))
  follow_member-MemberPost group g m (err (other e)) s s' same_ns same_n h = fails _ _ refl
  follow_member-MemberPost group g m (ok member) s s' same_ns same_n h =
      step (laws.get_pod _ _ s') (λ pod s2 h2.
        subst (λ db. Holds (MemberPost view db ns n) (follow_pod client domain c g m pod member s2))
          (h2.1 ∙ h.3)
          (follow_pod-MemberPost member pod s2 h.1 h.2 (rw (h2.1, h.3) h.0) (rw h2.1 h2.0) g m))

  pub reconcile_member-MemberPost :
      (group : RaftGroup) (g m : ℤ) (s : S)
      → group.meta.namespace ≡ ns
      → group.meta.name ⊕ "-" ⊕ show_int m ≡ n
      → Holds (MemberPost view (view s) ns n) (reconcile_member client domain c group g m s)
  unfolding reconcile_member
  reconcile_member-MemberPost group g m s same_ns same_n =
      let key = group.meta.name ⊕ "-" ⊕ show_int m in
      let found = client.get_member group.meta.namespace key s in
      follow_member-MemberPost group g m found.0 s found.1 same_ns same_n (
        subst (λ x. Finds view (view s) (λ o. o.meta) ((view s).members x n) x n found) same_ns
          (subst
            (λ y.
              Finds view (view s) (λ o. o.meta) ((view s).members group.meta.namespace y)
                group.meta.namespace y found)
            same_n (laws.get_member group.meta.namespace key s)))
