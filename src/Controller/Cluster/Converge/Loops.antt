-- ===== src/Controller/Cluster/Converge/Loops.antt =====
-- A pass over the members of a group ends at the first that it brings nearer, or finds all of them there.
use multi_raft_storage.Prelude.{
  ℕ, zero, suc, ◌+◌, ◌≤◌, ◌<◌, ◌≡◌, refl, ap, subst, ◌∙◌, String, Bool, true, false, Option, none,
  some, pure, arith, Exec, Result, if◌then◌else◌,
}
use native.Mathlib.Decide.{dec_le}
use multi_raft_storage.Prelude.Int.{ℤ, pos}
use multi_raft_storage.Controller.Api.{
  State, not_ready, is_not_ready, MultiRaftCluster, RaftGroup, RaftMember,
}
use multi_raft_storage.Controller.Client.{KubeError, Client}
use multi_raft_storage.Controller.Cluster.Groups.{members_loop}
use multi_raft_storage.Controller.Cluster.Converge.{
  Db, Holds, returns, fails, IsStored, phase, child, members_state,
}
use multi_raft_storage.Controller.Cluster.Converge.Stages.{step, Drop, MemberPost}
use multi_raft_storage.Controller.Cluster.Converge.Members.{reconcile_member-MemberPost}

-- One of the members from number `i` on has come nearer.
pub record MemberDrop (db after : Db) (ns name : String) (rounds i : ℕ) : Type 0 where
  pub number : ℕ
  pub low : i ≤ number
  pub high : number < i + rounds
  pub drop : Drop db after ns (child name number)

-- The members from number `i` on are there, and bring their group to this state.
pub record MembersThere (db : Db) (ns name : String) (state : State) (rounds i : ℕ)
    (reached : State) : Type 0 where
  pub state_of : members_state db.members ns name state rounds i ≡ reached
  pub zero_each : (j : ℕ) → i ≤ j → j < i + rounds → phase db ns (child name j) ≡ 0

abbrev pub LoopPost :
    {S : Type 0} → (S → Db) → Db → String → String → State → ℕ → ℕ → Option State → S → Type 0
LoopPost view db ns name state rounds i none s = MemberDrop db (view s) ns name rounds i
LoopPost view db ns name state rounds i (some reached) s =
    (view s ≡ db) × MembersThere db ns name state rounds i reached

wider :
    {db after : Db} {ns name : String} {rounds i : ℕ}
    → MemberDrop db after ns name rounds (suc i)
    → MemberDrop db after ns name (suc rounds) i
wider d = record {
  number = d.number;
  low = omega (arith, d.low);
  high = omega (arith, d.high);
  drop = d.drop;
}

further :
    {db : Db} {ns name : String} {state : State} {rounds i : ℕ} {reached : State} (o : RaftMember)
    → db.members ns (child name i) ≡ some o
    → phase db ns (child name i) ≡ 0
    → MembersThere db ns name
        (if is_not_ready o.status.state then not_ready else state)
        rounds
        (suc i)
        reached
    → MembersThere db ns name state (suc rounds) i reached
unfolding members_state
further {db} {ns} {name} {state} {rounds} {i} o there at_end m = record {
  state_of = rw there m.state_of;
  zero_each = λ j lo hi. elim (dec_le j i) [
    | yes first ↦ (let same : i ≡ j = omega arith in rw (← same) at_end)
    | no later ↦ m.zero_each j (omega arith) (omega arith)
  ];
}

pub weaken :
    {S A : Type 0} {P Q : A → S → Type 0} {o : Result KubeError A × S}
    → ((a : A) (s : S) → P a s → Q a s)
    → Holds P o
    → Holds Q o
weaken f (returns a s e h) = returns a s e (f a s h)
weaken f (fails e s h) = fails e s h

LoopPost-further :
    {S : Type 0} (view : S → Db) (db before : Db) (ns name : String) (state : State) (rounds i : ℕ)
    (r : Option State) (s : S) (o : RaftMember)
    → before ≡ db
    → db.members ns (child name i) ≡ some o
    → phase db ns (child name i) ≡ 0
    → LoopPost view before ns name
        (if is_not_ready o.status.state then not_ready else state)
        rounds
        (suc i)
        r
        s
    → LoopPost view db ns name state (suc rounds) i r s
LoopPost-further view db before ns name state rounds i none s o same there at_end h =
    wider (subst (λ d. MemberDrop d (view s) ns name rounds (suc i)) same h)
LoopPost-further view db before ns name state rounds i (some reached) s o same there at_end h = (
  h.0 ∙ same,
  further o there at_end (
      subst
        (λ d.
          MembersThere d ns name (if is_not_ready o.status.state then not_ready else state) rounds
            (suc i) reached)
        same h.1),
)

module _ {S : Type 0} (client : Client S) (view : S → Db) (laws : IsStored client view)
    (domain : String) (c : MultiRaftCluster) where
  -- After one member: the loop ends at a write, and goes on from a member that is there.
  after_member :
      (group : RaftGroup) (g : ℤ) (state : State) (rounds i : ℕ) (db : Db) (ns name : String)
      (o : RaftMember × Bool) (s : S)
      → ((state' : State)
          → Holds
              (LoopPost view (view s) ns name state' rounds (suc i))
              (members_loop client domain c group g state' rounds (suc i) s))
      → MemberPost view db ns (child name i) o s
      → Holds (LoopPost view db ns name state (suc rounds) i) (
          elim o.1 as (λ b. Exec S KubeError (Option State)) [
            | true ↦ pure none
            | false ↦
                members_loop client domain c group g
                  (if is_not_ready o.0.status.state then not_ready else state)
                  rounds
                  (suc i)
          ]
            s)
  after_member group g state rounds i db ns name (o, true) s rest h =
      returns none s refl (record { number = i; low = omega arith; high = omega arith; drop = h })
  after_member group g state rounds i db ns name (o, false) s rest (same, there, at_end) =
      weaken (λ r s'. LoopPost-further view db _ ns name state rounds i r s' o same there at_end)
        (rest _)

  pub members_loop-LoopPost :
      (group : RaftGroup) (g : ℤ) (state : State) (rounds i : ℕ) (s : S) (ns name : String)
      → group.meta.namespace ≡ ns
      → group.meta.name ≡ name
      → Holds
          (LoopPost view (view s) ns name state rounds i)
          (members_loop client domain c group g state rounds i s)
  unfolding members_loop members_state
  members_loop-LoopPost group g state zero i s ns name same_ns same_n =
      returns (some state) s refl
        (refl, record { state_of = refl; zero_each = λ j lo hi. absurd (omega arith) })
  members_loop-LoopPost group g state (suc rounds) i s ns name same_ns same_n =
      step
        (reconcile_member-MemberPost client view laws domain c ns (child name i) group g (pos i) s
          same_ns (ap (λ n. child n i) same_n))
        (λ o s1 h.
          after_member group g state rounds i (view s) ns name o s1
            (λ state'.
              members_loop-LoopPost group g state' rounds (suc i) s1 ns name same_ns same_n)
            h)
