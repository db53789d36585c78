-- ===== src/Controller/Cluster/Converge/Rounds.antt =====
-- Passes in a row: each that writes leaves less to do, so they come to an end, and there nothing is left.
use multi_raft_storage.Prelude.{
  ℕ, zero, suc, ◌+◌, ◌*◌, ◌<◌, ◌≡◌, refl, ap, subst, ◌∙◌, inl, inr, String, Bool, true, false,
  Option, none, some, pure, Exec, ◌>>=◌, arith, Result, ok, err, Bool-cases,
}
use multi_raft_storage.Controller.Api.{State, ready, MultiRaftCluster}
use multi_raft_storage.Controller.Client.{KubeError, not_found, other, Client}
use multi_raft_storage.Controller.Cluster.{same_state}
use multi_raft_storage.Controller.Cluster.Groups.{settle_cluster, reconcile_groups}
use multi_raft_storage.Controller.Cluster.Converge.{
  Db, put_cluster, Holds, returns, fails, Finds, IsStored, num_groups, num_members, work_left,
}
use multi_raft_storage.Controller.Cluster.Converge.Stages.{step, put-same}
use multi_raft_storage.Controller.Cluster.Converge.Passes.{
  GroupsDrop-less, work_left_le, GroupsPost, groups_loop-GroupsPost,
}
use multi_raft_storage.Controller.Cluster.Converge.Settled.{with_state, settled_less, nothing_to_do}

-- A pass that has written leaves less to do for the cluster as it is then stored, one that has not
-- leaves everything as it was, with nothing to do.
abbrev pub PassPost :
    {S : Type 0} → (S → Db) → String → String → MultiRaftCluster → Db → Bool → S → Type 0
PassPost view ns name c db true s =
    (d : MultiRaftCluster) × ((view s).clusters ns name ≡ some d)
    × (work_left d (view s) < work_left c db)
PassPost view ns name c db false s = (view s ≡ db) × (work_left c db ≡ 0)

-- The reconciler's passes over the groups in a row, at most so many: each reads the cluster, and after
-- a write comes the next. The result is whether there would have been another.
unfoldable pub rounds :
    {S : Type 0} → Client S → String → String → String → ℕ → Exec S KubeError Bool
rounds client domain ns name zero = pure true
rounds client domain ns name (suc n) = do
  c ← client.get_cluster ns name
  written ← reconcile_groups client domain c
  elim written [ true ↦ rounds client domain ns name n | false ↦ pure false ]

-- Passes that have come to an end with nothing left to do.
abbrev pub AtEnd : {S : Type 0} → (S → Db) → String → String → Bool → S → Type 0
AtEnd view ns name more s =
    (more ≡ false)
    × (d : MultiRaftCluster) × ((view s).clusters ns name ≡ some d)
    × (work_left d (view s) ≡ 0)

module _ {S : Type 0} (client : Client S) (view : S → Db) (laws : IsStored client view)
    (domain ns name : String) where
  settle_cluster-PassPost :
      (c : MultiRaftCluster) (db : Db) (r : Option State) (s : S)
      → db.clusters ns name ≡ some c
      → c.meta.namespace ≡ ns
      → c.meta.name ≡ name
      → GroupsPost c view db ready (num_groups c) 1 r s
      → Holds (PassPost view ns name c db) (settle_cluster client domain c r s)
  unfolding settle_cluster with_state
  settle_cluster-PassPost c db none s stored same_ns same_n h =
      let (kept, less) = GroupsDrop-less c db (view s) h in
      returns true s refl (c, ap (λ f. f ns name) kept ∙ stored, less)
  settle_cluster-PassPost c db (some state) s stored same_ns same_n (same, all) =
      elim (Bool-cases (same_state c.status.state state)) [
        | inl settled ↦
            rw settled (returns false s refl (same, nothing_to_do c db state all settled))
        | inr open_still ↦ rw open_still (
            step (laws.update_cluster_status _ s) (λ u s1 h1.
              let written : view s1 ≡ put_cluster (with_state c db state) db =
                h1 ∙ ap (put_cluster (with_state c db state)) same in
              returns true s1 refl (
                with_state c db state,
                rw written (
                    put-same (λ r. r ≡ some (with_state c db state)) c.meta (with_state c db state)
                      db.clusters ns name same_ns same_n refl),
                rw written (settled_less c db state all.state_of open_still),
              )))
      ]

  reconcile_groups-PassPost :
      (c : MultiRaftCluster) (s : S)
      → (view s).clusters ns name ≡ some c
      → c.meta.namespace ≡ ns
      → c.meta.name ≡ name
      → Holds (PassPost view ns name c (view s)) (reconcile_groups client domain c s)
  unfolding reconcile_groups
  reconcile_groups-PassPost c s stored same_ns same_n =
      step (groups_loop-GroupsPost c client view laws domain ready (num_groups c) 1 s)
        (λ r s1 h. settle_cluster-PassPost c (view s) r s1 stored same_ns same_n h)

  find :
      (db : Db) (o : Result KubeError MultiRaftCluster × S)
      → Finds view db (λ (c : MultiRaftCluster). c.meta) (db.clusters ns name) ns name o
      → Holds
          (λ c s.
            (db.clusters ns name ≡ some c)
            × (c.meta.namespace ≡ ns)
            × (c.meta.name ≡ name)
            × (view s ≡ db))
          o
  find db (ok c, s) h = returns c s refl h
  find db (err not_found, s) h = fails _ _ refl
  find db (err (other e), s) h = fails _ _ refl

  after_pass :
      (n : ℕ) (c : MultiRaftCluster) (db : Db) (b : Bool) (s : S)
      → ((s' : S) (d : MultiRaftCluster)
          → (view s').clusters ns name ≡ some d
          → work_left d (view s') < n
          → Holds (AtEnd view ns name) (rounds client domain ns name n s'))
      → db.clusters ns name ≡ some c
      → work_left c db < suc n
      → PassPost view ns name c db b s
      → Holds (AtEnd view ns name) (
          elim b as (λ b. Exec S KubeError Bool) [
            | true ↦ rounds client domain ns name n
            | false ↦ pure false
          ]
            s)
  after_pass n c db true s rest stored enough (d, now, less) = rest s d now (omega arith)
  after_pass n c db false s rest stored enough (same, zero_left) =
      returns false s refl
        (refl, c, ap (λ v. v.clusters ns name) same ∙ stored, (rw same zero_left))

  enough_again :
      (n : ℕ) (s s1 : S) (c d : MultiRaftCluster)
      → (view s).clusters ns name ≡ some c
      → (view s).clusters ns name ≡ some d
      → view s1 ≡ view s
      → work_left c (view s) < suc n
      → work_left d (view s1) < suc n
  enough_again n s s1 c d stored read same enough =
      let one : c ≡ d = ground arith in
      rw same (subst (λ x. work_left x (view s) < suc n) one enough)

  rounds_from :
      (n : ℕ) (s : S) (c : MultiRaftCluster)
      → (view s).clusters ns name ≡ some c
      → work_left c (view s) < n
      → Holds (AtEnd view ns name) (rounds client domain ns name n s)
  unfolding rounds
  rounds_from zero s c stored enough = absurd (omega arith)
  rounds_from (suc n) s c stored enough =
      step (find (view s) (client.get_cluster ns name s) (laws.get_cluster ns name s))
        (λ c' s1 (read, same_ns, same_n, same).
          let now = ap (λ v. v.clusters ns name) same ∙ read in
          step (reconcile_groups-PassPost c' s1 now same_ns same_n) (λ b s2 h.
            after_pass n c' (view s1) b s2 (rounds_from n) now
              (enough_again n s s1 c c' stored read same enough) h))

  -- On an API server that keeps what is written and that nobody else writes to, passes over the groups and
  -- members of a cluster come to an end, from whatever is stored: of `n` passes in a row, for `n` above
  -- the bound given by the numbers of groups and of members of each, either a call fails or the last pass
  -- does not write, and then no work is left: each member is there, runs in its pod and at the version of the pod's
  -- container, and each group and the cluster is there in the state that its members or groups bring it to.
  pub rounds-AtEnd :
      (n : ℕ) (s : S) (c : MultiRaftCluster)
      → (view s).clusters ns name ≡ some c
      → num_groups c * (num_members c * 4) * (4 * num_groups c + 4) + (4 * num_groups c + 1) < n
      → Holds (AtEnd view ns name) (rounds client domain ns name n s)
  rounds-AtEnd n s c stored enough =
      rounds_from n s c stored (omega (arith, work_left_le c (view s)))
