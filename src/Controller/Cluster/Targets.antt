-- ===== src/Controller/Cluster/Targets.antt =====
-- Where the node that is started finds the members of its group: the bootstrap request of the
-- controller as the node's `Bootstrap` reads it.
use multi_raft_storage.Prelude.{
  ℕ, zero, suc, ◌+◌, ◌^◌, ◌≤◌, ◌<◌, ◌≡◌, ◌≢◌, ◌∙◌, ap, subst, String, some, arith, All, nat_Eq,
}
use native.Mathlib.Decide.{dec_le}
use multi_raft_storage.Prelude.Assoc.{lookup}
use multi_raft_storage.Prelude.Int.{u32, ℤ, pos, pos_part}
use multi_raft_storage.Prelude.Text.{◌⊕◌, show_int}
use multi_raft_storage.Node.Group.{MemberConfig, targets, address}
use multi_raft_storage.Node.Group.Laws.{Distinct, lookup-targets}
use multi_raft_storage.Controller.Api.{MultiRaftCluster, MemberType}
use multi_raft_storage.Controller.Placement.{get_num_members, get_pod_name, get_pod_dns_name}
use multi_raft_storage.Controller.Cluster.{members_from, bootstrap_request}

module _ (domain : String) (c : MultiRaftCluster) (g : ℤ) where
  -- The address of member `i`: the DNS name of its pod, and the protocol port.
  unfoldable pub member_host : ℕ → String
  member_host i =
      get_pod_dns_name domain c.meta.namespace c.meta.name (get_pod_name c g (pos i))
      ⊕ ":"
      ⊕ show_int (pos 5679)

  members_from_later :
      (rounds i j : ℕ)
      → i + rounds ≤ 2 ^ 32
      → j < i
      → All (λ m. m.member_id ≢ j) (members_from domain c g rounds i)
  unfolding members_from
  members_from_later zero i j small lt = tt
  members_from_later (suc rounds) i j small lt =
      ((λ e. absurd (omega arith)), members_from_later rounds (suc i) j (omega arith) (omega arith))

  members_from-Distinct :
      (rounds i : ℕ) → i + rounds ≤ 2 ^ 32 → Distinct (members_from domain c g rounds i)
  unfolding members_from
  members_from-Distinct zero i small = tt
  members_from-Distinct (suc rounds) i small = (
    members_from_later rounds (suc i) (u32 i) (omega arith) (omega arith),
    members_from-Distinct rounds (suc i) (omega arith),
  )

  All-members_from :
      (P : MemberConfig → Type 0) (rounds i j : ℕ)
      → All P (members_from domain c g rounds i)
      → i + rounds ≤ 2 ^ 32
      → i ≤ j
      → j < i + rounds
      → (m : MemberConfig) × (m.member_id ≡ j) × (address m ≡ member_host j) × P m
  unfolding members_from member_host
  All-members_from P zero i j all small lo hi = absurd (omega arith)
  All-members_from P (suc rounds) i j all small lo hi = elim (dec_le j i) [
    | yes le ↦
        let same : i ≡ j = omega arith in
        let number : u32 i ≡ j = omega arith in (_, number, ap member_host same, all.0)
    | no gt ↦ All-members_from P rounds (suc i) j all.1 (omega arith) (omega arith) (omega arith)
  ]

  -- For every member of a group of fewer than 2^32, numbered from 1, the map that the node starts the group with has the
  -- DNS name of the pod that `getPodName` places the member in, and the protocol port.
  pub lookup-bootstrap_request :
      (m : ℤ) (t : MemberType) (j : ℕ)
      → pos_part (get_num_members c) < 2 ^ 32
      → 1 ≤ j
      → j ≤ pos_part (get_num_members c)
      → lookup j (targets (bootstrap_request domain c g m t).members) ≡ some (member_host j)
  unfolding bootstrap_request
  lookup-bootstrap_request m t j few lo hi =
      let rounds = pos_part (get_num_members c) in
      let ms = members_from domain c g rounds 1 in
      let (k, number, place, found) =
        All-members_from (λ k. lookup k.member_id (targets ms) ≡ some (address k)) rounds 1 j
          (lookup-targets ms (members_from-Distinct rounds 1 (omega arith))) (omega arith) lo
          (omega arith) in
      subst (λ i. lookup i (targets ms) ≡ some (member_host j)) number (found ∙ ap some place)
