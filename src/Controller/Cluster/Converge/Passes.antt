-- ===== src/Controller/Cluster/Converge/Passes.antt =====
-- A pass that writes leaves less to do, and one that does not write finds nothing to do.
use multi_raft_storage.Prelude.{
  ℕ, zero, suc, ◌+◌, ◌*◌, ◌≤◌, ◌<◌, ◌≡◌, refl, subst, ◌∙◌, inl, inr, String, Bool, true, false,
  Option, none, some, pure, Exec, arith, if◌then◌else◌,
}
use native.Mathlib.Decide.{dec_le}
use native.Mathlib.Nat.{mul-le-mul, le_refl}
use multi_raft_storage.Controller.Api.{
  State, not_ready, is_not_ready, MultiRaftCluster, RaftGroup, RaftMember,
}
use multi_raft_storage.Controller.Client.{KubeError, Client}
use multi_raft_storage.Controller.Cluster.Groups.{groups_loop}
use multi_raft_storage.Controller.Cluster.Converge.{
  Db, Holds, group_stage, returns, IsStored, phase, phase_of, child, groups_state, num_groups,
  num_members, members_left, groups_left, cluster_left, work_left,
}
use multi_raft_storage.Controller.Cluster.Converge.Sums.{
  sum_le, sum_lt, sum_bound, weight_lt, weight_le,
}
use multi_raft_storage.Controller.Cluster.Converge.Stages.{step, stage_le}
use multi_raft_storage.Controller.Cluster.Converge.Loops.{MemberDrop, weaken}
use multi_raft_storage.Controller.Cluster.Converge.Groups.{
  GroupDrop, GroupThere, Change, GroupPost, reconcile_group-GroupPost,
}

module _ (c : MultiRaftCluster) where
  -- One of the groups from number `i` on, or a member of it, has come nearer.
  pub record GroupsDrop (db after : Db) (rounds i : ℕ) : Type 0 where
    number : ℕ
    low : i ≤ number
    high : number < i + rounds
    change : Change c db after (child c.meta.name number)

  -- The groups from number `i` on are there, and bring the cluster to this state.
  pub record GroupsThere (db : Db) (state : State) (rounds i : ℕ) (reached : State) : Type 0 where
    pub state_of : groups_state db.groups c.meta.namespace c.meta.name state rounds i ≡ reached
    pub there_each : (j : ℕ) → i ≤ j → j < i + rounds → GroupThere c db (child c.meta.name j)

  abbrev pub GroupsPost : {S : Type 0} → (S → Db) → Db → State → ℕ → ℕ → Option State → S → Type 0
  GroupsPost view db state rounds i none s = GroupsDrop db (view s) rounds i
  GroupsPost view db state rounds i (some reached) s =
      (view s ≡ db) × GroupsThere db state rounds i reached

  GroupsPost-further :
      {S : Type 0} (view : S → Db) (db before : Db) (state : State) (rounds i : ℕ)
      (r : Option State) (s : S) (o : RaftGroup)
      → before ≡ db
      → db.groups c.meta.namespace (child c.meta.name i) ≡ some o
      → GroupThere c db (child c.meta.name i)
      → GroupsPost view before
          (if is_not_ready o.status.state then not_ready else state)
          rounds
          (suc i)
          r
          s
      → GroupsPost view db state (suc rounds) i r s
  unfolding groups_state
  GroupsPost-further view db before state rounds i none s o same there at_end h =
      let d = subst (λ d. GroupsDrop d (view s) rounds (suc i)) same h in
      record {
        number = d.number;
        low = omega (arith, d.low);
        high = omega (arith, d.high);
        change = d.change;
      }
  GroupsPost-further view db before state rounds i (some reached) s o same there at_end h =
      let d =
        subst
          (λ d.
            GroupsThere d (if is_not_ready o.status.state then not_ready else state) rounds (suc i)
              reached)
          same h.1 in
      (
        h.0 ∙ same,
        record {
          state_of = rw there d.state_of;
          there_each = λ j lo hi. elim (dec_le j i) [
            | yes first ↦
                (let number : i ≡ j = omega arith in
                  subst (λ k. GroupThere c db (child c.meta.name k)) number at_end)
            | no later ↦ d.there_each j (omega arith) (omega arith)
          ];
        },
      )

  group_stage_le : (o : Option RaftGroup) (target : State) → group_stage o target ≤ 2
  group_stage_le o target = ground arith

  groups_left_le : (db : Db) → groups_left c db ≤ num_groups c * 2
  unfolding groups_left
  groups_left_le db = sum_bound _ 2 (num_groups c) 1 (λ j. group_stage_le _ _)

  cluster_left_le : (db : Db) → cluster_left c db ≤ 1
  unfolding cluster_left
  cluster_left_le db = ground arith

  phase_of_le : (db : Db) (o : Option RaftMember) → phase_of db.pods o ≤ 4
  unfolding phase_of
  phase_of_le db none = omega arith
  phase_of_le db (some o) = omega (arith, stage_le (db.pods o.meta.namespace o.spec.pod) o)

  members_left_le : (db : Db) → members_left c db ≤ num_groups c * (num_members c * 4)
  unfolding members_left phase
  members_left_le db =
      sum_bound _ (num_members c * 4) (num_groups c) 1
        (λ g. sum_bound _ 4 (num_members c) 1 (λ m. phase_of_le db _))

  -- However far off the cluster is: four writes for each member and two for each group, by their weights, and one.
  pub work_left_le :
      (db : Db)
      → work_left c db
        ≤ num_groups c * (num_members c * 4) * (4 * num_groups c + 4) + (4 * num_groups c + 1)
  unfolding work_left
  work_left_le db = omega (
    arith,
    mul-le-mul (members_left_le db) (le_refl (4 * num_groups c + 4)),
    groups_left_le db,
    cluster_left_le db,
  )

  -- A member that comes nearer, whatever it does to the states of groups and cluster.
  member_less :
      (db after : Db) (k : ℕ)
      → 1 ≤ k
      → k < 1 + num_groups c
      → MemberDrop db after c.meta.namespace (child c.meta.name k) (num_members c) 1
      → members_left c after < members_left c db
  unfolding members_left
  member_less db after k lo hi d =
      sum_lt _ _ (num_groups c) 1 k
        (λ g. sum_le _ _ (num_members c) 1 (λ m. d.drop.others c.meta.namespace _)) lo hi
        (sum_lt _ _ (num_members c) 1 d.number (λ m. d.drop.others c.meta.namespace _) d.low d.high
          d.drop.down)

  group_less :
      (db after : Db) (k : ℕ)
      → 1 ≤ k
      → k < 1 + num_groups c
      → GroupDrop c db after (child c.meta.name k)
      → (members_left c after ≤ members_left c db) × (groups_left c after < groups_left c db)
  unfolding members_left groups_left phase
  group_less db after k lo hi d = (
    sum_le _ _ (num_groups c) 1
        (λ g. sum_le _ _ (num_members c) 1 (λ m. (rw (d.members, d.pods) (omega arith)))),
    sum_lt _ _ (num_groups c) 1 k (λ g. d.others _) lo hi d.down,
  )

  pub GroupsDrop-less :
      (db after : Db)
      → GroupsDrop db after (num_groups c) 1
      → (after.clusters ≡ db.clusters) × (work_left c after < work_left c db)
  unfolding work_left
  GroupsDrop-less db after d = elim d.change [
    | inl member ↦ (
      member.drop.clusters,
      (let less = member_less db after d.number d.low d.high member in
          let k = groups_left_le after in
          let x = cluster_left_le after in weight_lt _ _ _ _ _ less (omega (arith, k, x))),
    )
    | inr group ↦ (
      group.clusters,
      (let less = group_less db after d.number d.low d.high group in
          let x = cluster_left_le after in weight_le _ _ _ _ _ less.0 (omega (arith, less.1, x))),
    )
  ]

  module _ {S : Type 0} (client : Client S) (view : S → Db) (laws : IsStored client view)
      (domain : String) where
    after_group :
        (state : State) (rounds i : ℕ) (db : Db) (o : RaftGroup × Bool) (s : S)
        → ((state' : State)
            → Holds
                (GroupsPost view (view s) state' rounds (suc i))
                (groups_loop client domain c state' rounds (suc i) s))
        → GroupPost c view db (child c.meta.name i) o s
        → Holds (GroupsPost view db state (suc rounds) i) (
            elim o.1 as (λ b. Exec S KubeError (Option State)) [
              | true ↦ pure none
              | false ↦
                  groups_loop client domain c
                    (if is_not_ready o.0.status.state then not_ready else state)
                    rounds
                    (suc i)
            ]
              s)
    after_group state rounds i db (o, true) s rest h =
        returns none s refl
          (record { number = i; low = omega arith; high = omega arith; change = h })
    after_group state rounds i db (o, false) s rest (same, there, at_end) =
        weaken (λ r s'. GroupsPost-further view db _ state rounds i r s' o same there at_end)
          (rest _)

    pub groups_loop-GroupsPost :
        (state : State) (rounds i : ℕ) (s : S)
        → Holds
            (GroupsPost view (view s) state rounds i)
            (groups_loop client domain c state rounds i s)
    unfolding groups_loop groups_state
    groups_loop-GroupsPost state zero i s =
        returns (some state) s refl
          (refl, record { state_of = refl; there_each = λ j lo hi. absurd (omega arith) })
    groups_loop-GroupsPost state (suc rounds) i s =
        step (reconcile_group-GroupPost c client view laws domain i s) (λ o s1 h.
          after_group state rounds i (view s) o s1
            (λ state'. groups_loop-GroupsPost state' rounds (suc i) s1) h)
