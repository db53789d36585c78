-- ===== src/Controller/Cluster/Converge/Groups.antt =====
-- A pass over a group brings a member of it or the group itself nearer, or finds them there.
use multi_raft_storage.Prelude.{
  ℕ, ◌+◌, ◌≤◌, ◌<◌, ◌≡◌, refl, sym, ap, subst, ◌∙◌, inl, inr, ◌⊎◌, String, Bool, true, false,
  Option, none, some, arith, Result, ok, err, Bool-cases,
}
use multi_raft_storage.Prelude.Int.{ℤ, pos}
use multi_raft_storage.Controller.Api.{State, unset, not_ready, ready, MultiRaftCluster, RaftGroup}
use multi_raft_storage.Controller.Client.{KubeError, not_found, other, Client}
use multi_raft_storage.Controller.Cluster.{same_state}
use multi_raft_storage.Controller.Cluster.Groups.{
  settle_group, reconcile_members, create_group, follow_group, reconcile_group,
}
use multi_raft_storage.Controller.Cluster.Converge.{
  Db, put_group, Holds, returns, fails, Finds, IsStored, phase, child, group_stage, num_members,
  target, group_phase,
}
use multi_raft_storage.Controller.Cluster.Converge.Stages.{step, put-same, put-elim}
use multi_raft_storage.Controller.Cluster.Converge.Loops.{
  MemberDrop, LoopPost, members_loop-LoopPost,
}

pub same_state_refl : (s : State) → same_state s s ≡ true
same_state_refl unset = refl
same_state_refl not_ready = refl
same_state_refl ready = refl

module _ (c : MultiRaftCluster) where
  -- The group of this name comes nearer, no other goes back, and no member changes.
  pub record GroupDrop (db after : Db) (name : String) : Type 0 where
    pub members : after.members ≡ db.members
    pub pods : after.pods ≡ db.pods
    pub clusters : after.clusters ≡ db.clusters
    pub others : (n : String) → group_phase c after n ≤ group_phase c db n
    pub down : group_phase c after name < group_phase c db name

  -- The members of the group of this name and the group itself are there.
  pub record GroupThere (db : Db) (name : String) : Type 0 where
    pub members_there :
        (j : ℕ) → 1 ≤ j → j < 1 + num_members c → phase db c.meta.namespace (child name j) ≡ 0
    pub group_there : group_phase c db name ≡ 0

  abbrev pub Change : Db → Db → String → Type 0
  Change db after name =
      MemberDrop db after c.meta.namespace name (num_members c) 1 ⊎ GroupDrop db after name

  abbrev pub MembersPost : {S : Type 0} → (S → Db) → Db → String → Bool → S → Type 0
  MembersPost view db name true s = Change db (view s) name
  MembersPost view db name false s = (view s ≡ db) × GroupThere db name

  abbrev pub GroupPost : {S : Type 0} → (S → Db) → Db → String → RaftGroup × Bool → S → Type 0
  GroupPost view db name (o, true) s = Change db (view s) name
  GroupPost view db name (o, false) s =
      (view s ≡ db) × (db.groups c.meta.namespace name ≡ some o) × GroupThere db name

  put_group-GroupDrop :
      (o : RaftGroup) (db after : Db) (name : String)
      → after ≡ put_group o db
      → o.meta.namespace ≡ c.meta.namespace
      → o.meta.name ≡ name
      → group_stage (some o) (target c db name) < group_phase c db name
      → GroupDrop db after name
  put_group-GroupDrop o db after name written same_ns same_n less = rw written (record {
    members = refl;
    pods = refl;
    clusters = refl;
    others = λ n.
        put-elim (λ r. group_stage r (target c db n) ≤ group_phase c db n) o.meta o db.groups
          c.meta.namespace n
          (λ a b.
            (let key : name ≡ n = sym same_n ∙ b in
              subst (λ x. group_stage (some o) (target c db x) ≤ group_phase c db x) key
                (omega (arith, less))))
          (omega arith);
    down =
        put-same (λ r. group_stage r (target c db name) < group_phase c db name) o.meta o db.groups
          c.meta.namespace name same_ns same_n less;
  })

  created-GroupDrop :
      (o : RaftGroup) (db after : Db) (name : String)
      → after ≡ put_group o db
      → o.meta.namespace ≡ c.meta.namespace
      → o.meta.name ≡ name
      → db.groups c.meta.namespace name ≡ none
      → GroupDrop db after name
  created-GroupDrop o db after name written same_ns same_n missing =
      put_group-GroupDrop o db after name written same_ns same_n (rw missing (ground arith))

  module _ {S : Type 0} (client : Client S) (view : S → Db) (laws : IsStored client view)
      (domain : String) where
    settle_group-MembersPost :
        (group : RaftGroup) (db : Db) (name : String) (r : Option State) (s : S)
        → group.meta.namespace ≡ c.meta.namespace
        → group.meta.name ≡ name
        → db.groups c.meta.namespace name ≡ some group
        → LoopPost view db c.meta.namespace name ready (num_members c) 1 r s
        → Holds (MembersPost view db name) (settle_group client domain c group r s)
    unfolding settle_group
    settle_group-MembersPost group db name none s same_ns same_n there h =
        returns true s refl (inl h)
    settle_group-MembersPost group db name (some state) s same_ns same_n there (same, all) =
        elim (Bool-cases (same_state group.status.state state)) [
          | inl settled ↦ rw settled (
              returns false s refl (
                same,
                record {
                  members_there = all.zero_each;
                  group_there = rw (there, all.state_of, settled) refl;
                },
              ))
          | inr open_still ↦ rw open_still (
              step (laws.update_group_status _ s) (λ u s1 h1. returns true s1 refl (
                inr (
                  put_group-GroupDrop _ db (view s1) name (h1 ∙ ap (put_group _) same) same_ns
                    same_n
                    (rw (there, all.state_of, open_still, same_state_refl state) (omega arith))))))
        ]

    reconcile_members-MembersPost :
        (group : RaftGroup) (g : ℤ) (s : S) (name : String)
        → group.meta.namespace ≡ c.meta.namespace
        → group.meta.name ≡ name
        → (view s).groups c.meta.namespace name ≡ some group
        → Holds (MembersPost view (view s) name) (reconcile_members client domain c group g s)
    unfolding reconcile_members
    reconcile_members-MembersPost group g s name same_ns same_n there =
        step
          (members_loop-LoopPost client view laws domain c group g ready (num_members c) 1 s
            c.meta.namespace name same_ns same_n)
          (λ r s1 h. settle_group-MembersPost group (view s) name r s1 same_ns same_n there h)

    create_group-GroupPost :
        (g : ℕ) (s : S)
        → (view s).groups c.meta.namespace (child c.meta.name g) ≡ none
        → Holds
            (GroupPost view (view s) (child c.meta.name g))
            (create_group client domain c (pos g) s)
    unfolding create_group
    create_group-GroupPost g s missing = step (laws.set_controller c.meta _ s) (λ meta s1 h1.
        step (laws.create_group _ s1) (λ u s2 h2. returns _ _ refl (
          inr (
            created-GroupDrop _ (view s) (view s2) (child c.meta.name g)
              (h2 ∙ ap (put_group _) h1.2) h1.0 h1.1 missing))))

    after_members :
        (group : RaftGroup) (db : Db) (name : String) (b : Bool) (s : S)
        → db.groups c.meta.namespace name ≡ some group
        → MembersPost view db name b s
        → Holds (GroupPost view db name) (ok (group, b), s)
    after_members group db name true s there h = returns _ _ refl h
    after_members group db name false s there h = returns _ _ refl (h.0, there, h.1)

    follow_group-GroupPost :
        (g : ℕ) (found : Result KubeError RaftGroup) (s s' : S)
        → Finds view
            (view s)
            (λ (o : RaftGroup). o.meta)
            ((view s).groups c.meta.namespace (child c.meta.name g))
            c.meta.namespace
            (child c.meta.name g)
            (found, s')
        → Holds
            (GroupPost view (view s) (child c.meta.name g))
            (follow_group client domain c (pos g) found s')
    unfolding follow_group
    follow_group-GroupPost g (err not_found) s s' h =
        rw (← h.1) (create_group-GroupPost g s' (rw h.1 h.0))
    follow_group-GroupPost g (err (other e)) s s' h = fails _ _ refl
    follow_group-GroupPost g (ok group) s s' h =
        let name = child c.meta.name g in
        step {P = MembersPost view (view s) name}
          (subst
            (λ db.
              Holds (MembersPost view db name) (reconcile_members client domain c group (pos g) s'))
            h.3 (reconcile_members-MembersPost group (pos g) s' name h.1 h.2 (rw h.3 h.0)))
          (λ b s2 h2. after_members group (view s) name b s2 h.0 h2)

    pub reconcile_group-GroupPost :
        (g : ℕ) (s : S)
        → Holds
            (GroupPost view (view s) (child c.meta.name g))
            (reconcile_group client domain c (pos g) s)
    unfolding reconcile_group
    reconcile_group-GroupPost g s =
        follow_group-GroupPost g _ s _ (laws.get_group c.meta.namespace (child c.meta.name g) s)
