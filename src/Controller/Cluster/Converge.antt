-- ===== src/Controller/Cluster/Converge.antt =====
-- How far a cluster is from what its reconciler makes of it: an API server that keeps what is written,
-- and a measure of the work that is left for controller/pkg/controller/consensus/v1beta1/cluster.go.
pub mod Sums
pub mod Stages
pub mod Members
pub mod Loops
pub mod Groups
pub mod Passes
pub mod Settled
pub mod Rounds
pub mod Statuses
use multi_raft_storage.Prelude.{
  ℕ, zero, suc, ◌+◌, ◌*◌, ◌≤◌, ◌≡◌, String, Bool, true, false, not, ◌&&◌, List, Option, none, some,
  Result, ok, err, str_eq, if◌then◌else◌,
}
use multi_raft_storage.Prelude.Int.{ℤ, pos, pos_part}
use multi_raft_storage.Prelude.Text.{◌⊕◌, show_int}
use multi_raft_storage.Controller.Api.{
  ObjectMeta, State, not_ready, ready, is_not_ready, MultiRaftCluster, RaftGroup, RaftMember,
}
use multi_raft_storage.Controller.Placement.{get_num_groups, get_num_members}
use multi_raft_storage.Controller.Client.{KubeError, not_found, other, Client, Pod}
use multi_raft_storage.Controller.Cluster.{same_state, same_pod, is_outdated, container_version}

-- What the API server stores, by namespace and name.
pub record Db : Type 0 where
  pub members : String → String → Option RaftMember
  pub groups : String → String → Option RaftGroup
  pub clusters : String → String → Option MultiRaftCluster
  pub pods : String → String → Option Pod

abbrev pub put :
    {A : Type 0} → ObjectMeta → A → (String → String → Option A) → String → String → Option A
put meta o f ns n = if str_eq meta.namespace ns && str_eq meta.name n then some o else f ns n

abbrev pub put_member : RaftMember → Db → Db
put_member o db = record db { members = put o.meta o db.members }

abbrev pub put_group : RaftGroup → Db → Db
put_group o db = record db { groups = put o.meta o db.groups }

abbrev pub put_cluster : MultiRaftCluster → Db → Db
put_cluster o db = record db { clusters = put o.meta o db.clusters }

-- What a call comes to: it returns a value for which `P` holds, or it fails.
pub data Holds {S A : Type 0} (P : A → S → Type 0) (o : Result KubeError A × S) : Type 0 where
  returns : (a : A) (s : S) → o ≡ (ok a, s) → P a s → Holds P o
  fails : (e : KubeError) (s : S) → o ≡ (err e, s) → Holds P o

-- What a look-up finds: the stored object, under its own name, or nothing where there is none.
abbrev pub Finds :
    {S A : Type 0}
    → (S → Db)
    → Db
    → (A → ObjectMeta)
    → Option A
    → String
    → String
    → Result KubeError A × S
    → Type 0
Finds view db meta stored ns n (ok o, s) =
    (stored ≡ some o) × ((meta o).namespace ≡ ns) × ((meta o).name ≡ n) × (view s ≡ db)
Finds view db meta stored ns n (err not_found, s) = (stored ≡ none) × (view s ≡ db)
Finds view db meta stored ns n (err (other e), s) = Unit

-- The client of an API server that nobody else writes to: a read that succeeds returns what is stored, a
-- write that succeeds is stored, and the other calls store nothing. Any call may fail at any time.
pub record IsStored {S : Type 0} (client : Client S) (view : S → Db) : Type 0 where
  pub get_member :
      (ns n : String) (s : S)
      → Finds view (view s) (λ o. o.meta) ((view s).members ns n) ns n (client.get_member ns n s)
  pub get_group :
      (ns n : String) (s : S)
      → Finds view (view s) (λ o. o.meta) ((view s).groups ns n) ns n (client.get_group ns n s)
  pub get_cluster :
      (ns n : String) (s : S)
      → Finds view (view s) (λ o. o.meta) ((view s).clusters ns n) ns n (client.get_cluster ns n s)
  pub get_pod :
      (ns n : String) (s : S)
      → Holds (λ o s'. ((view s).pods ns n ≡ some o) × (view s' ≡ view s)) (client.get_pod ns n s)
  pub create_member :
      (o : RaftMember) (s : S)
      → Holds (λ u s'. view s' ≡ put_member o (view s)) (client.create_member o s)
  pub update_member_status :
      (o : RaftMember) (s : S)
      → Holds (λ u s'. view s' ≡ put_member o (view s)) (client.update_member_status o s)
  pub create_group :
      (o : RaftGroup) (s : S)
      → Holds (λ u s'. view s' ≡ put_group o (view s)) (client.create_group o s)
  pub update_group_status :
      (o : RaftGroup) (s : S)
      → Holds (λ u s'. view s' ≡ put_group o (view s)) (client.update_group_status o s)
  pub update_cluster_status :
      (o : MultiRaftCluster) (s : S)
      → Holds (λ u s'. view s' ≡ put_cluster o (view s)) (client.update_cluster_status o s)
  pub set_controller :
      (owner meta : ObjectMeta) (s : S)
      → Holds
          (λ m s'. (m.namespace ≡ meta.namespace) × (m.name ≡ meta.name) × (view s' ≡ view s))
          (client.set_controller owner meta s)
  pub set_owner :
      (owner meta : ObjectMeta) (s : S)
      → Holds
          (λ m s'. (m.namespace ≡ meta.namespace) × (m.name ≡ meta.name) × (view s' ≡ view s))
          (client.set_owner owner meta s)
  pub dial : (address : String) (s : S) → Holds (λ u s'. view s' ≡ view s) (client.dial address s)
  pub bootstrap :
      (address : String) (config : _) (s : S)
      → Holds (λ u s'. view s' ≡ view s) (client.bootstrap address config s)
  pub record_event :
      (reason : String) (s : S) → Holds (λ u s'. view s' ≡ view s) (client.record_event reason s)

-- How many writes a member may still need: it is missing, it has another pod, its node runs an old
-- version and it is not marked, or it is marked and not started yet.
unfoldable pub stage : Option Pod → RaftMember → ℕ
stage none o = 3
stage (some pod) o =
    if not (same_pod o.status.pod_ref pod)
    then 3
    else if not (is_outdated o.status.version (container_version pod.container_statuses))
    then 0
    else if not (is_not_ready o.status.state)
    then 2
    else 1

unfoldable pub phase_of : (String → String → Option Pod) → Option RaftMember → ℕ
phase_of pods none = 4
phase_of pods (some o) = stage (pods o.meta.namespace o.spec.pod) o

unfoldable pub phase : Db → String → String → ℕ
unfolding phase_of stage
phase db ns n = phase_of db.pods (db.members ns n)

-- `f i + f (i + 1) + …`, of so many summands.
unfoldable pub sum : (ℕ → ℕ) → ℕ → ℕ → ℕ
sum f zero i = 0
sum f (suc rounds) i = f i + sum f rounds (suc i)

abbrev pub child : String → ℕ → String
child name i = name ⊕ "-" ⊕ show_int (pos i)

abbrev pub member_state : Option RaftMember → State
member_state none = ready
member_state (some o) = o.status.state

-- The state that the members of a group, by its name, bring it to.
unfoldable pub members_state :
    (String → String → Option RaftMember) → String → String → State → ℕ → ℕ → State
members_state members ns name state zero m = state
members_state members ns name state (suc rounds) m =
    members_state members ns name
      (if is_not_ready (member_state (members ns (child name m))) then not_ready else state) rounds
      (suc m)

-- A group is missing, or its state is not what its members bring it to.
abbrev pub group_stage : Option RaftGroup → State → ℕ
group_stage none target = 2
group_stage (some o) target = if same_state o.status.state target then 0 else 1

abbrev pub group_state : Option RaftGroup → State
group_state none = ready
group_state (some o) = o.status.state

unfoldable pub groups_state :
    (String → String → Option RaftGroup) → String → String → State → ℕ → ℕ → State
groups_state groups ns name state zero g = state
groups_state groups ns name state (suc rounds) g =
    groups_state groups ns name
      (if is_not_ready (group_state (groups ns (child name g))) then not_ready else state) rounds
      (suc g)

-- The names and the counts of a cluster.
module _ (c : MultiRaftCluster) where
  abbrev pub num_groups : ℕ
  num_groups = pos_part (get_num_groups c)

  abbrev pub num_members : ℕ
  num_members = pos_part (get_num_members c)

  unfoldable pub members_left : Db → ℕ
  unfolding sum phase
  members_left db =
      sum (λ g. sum (λ m. phase db c.meta.namespace (child (child c.meta.name g) m)) num_members 1)
        num_groups 1

  -- What the members of the group of that name bring it to, and how far off it is.
  abbrev pub target : Db → String → State
  target db name = members_state db.members c.meta.namespace name ready num_members 1

  abbrev pub group_phase : Db → String → ℕ
  group_phase db name = group_stage (db.groups c.meta.namespace name) (target db name)

  unfoldable pub groups_left : Db → ℕ
  unfolding sum members_state
  groups_left db = sum (λ g. group_phase db (child c.meta.name g)) num_groups 1

  unfoldable pub cluster_left : Db → ℕ
  unfolding groups_state
  cluster_left db =
      if same_state c.status.state
        (groups_state db.groups c.meta.namespace c.meta.name ready num_groups 1)
      then 0
      else 1

  -- A write to a member may change what every group comes to, and one to a group what the cluster does.
  unfoldable pub work_left : Db → ℕ
  unfolding members_left groups_left cluster_left
  work_left db = members_left db * (4 * num_groups + 4) + (groups_left db * 2 + cluster_left db)
