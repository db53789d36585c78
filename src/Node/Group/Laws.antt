-- ===== src/Node/Group/Laws.antt =====
-- The configuration that a member starts with, and starting it twice.
use multi_raft_storage.Prelude.{
  ℕ, zero, suc, ◌≡◌, refl, ◌≢◌, ◌↔◌, inl, inr, String, Bool, false, List, [], ◌∷◌, none, some,
  arith, All, ok, err, Option-cases, nat_eq_iff, nat_Eq, sym, ◌∙◌,
}
use multi_raft_storage.Prelude.Assoc.{lookup, insert, lookup-insert}
use multi_raft_storage.Prelude.Int.{ℤ, pos, negsuc}
use multi_raft_storage.Node.Config.{milliseconds, RaftConfig, get_heartbeat_period}
use multi_raft_storage.Node.Errors.{cluster_already_exist}
use multi_raft_storage.Node.Group.{
  MemberConfig, GroupConfig, HostConfig, host_config, divide, election_rtt, get_raft_config,
  address, targets_from, targets, ClusterHost, start, bootstrap,
}

divide-none : (a b : ℤ) → divide a b ≡ none → b ≡ pos 0
divide-none a (pos zero) h = refl
divide-none a (pos (suc n)) h = absurd (ground arith)
divide-none a (negsuc n) h = absurd (ground arith)

-- Starting a member panics exactly when an election timeout is set and the heartbeat period, in
-- whole milliseconds, is zero.
pub get_raft_config_panics :
    (c : RaftConfig) (g : GroupConfig)
    → (get_raft_config c g ≡ none)
      ↔ ((c.election_timeout ≢ none) × (milliseconds (get_heartbeat_period c) ≡ pos 0))
unfolding get_raft_config election_rtt
get_raft_config_panics c g = elim (Option-cases c.election_timeout) [
  | inl e ↦ (λ h. absurd (ground arith), λ h. absurd (h.0 e))
  | inr (t, e) ↦ (
    λ h. (
      λ f. ground arith,
      ground (arith, divide-none (milliseconds t) (milliseconds (get_heartbeat_period c))),
    ),
    λ h. rw (e, get_raft_config, election_rtt) (rw h.1),
  )
]

get_raft_config_group :
    (c : RaftConfig) (g g' : GroupConfig) (rc : HostConfig)
    → get_raft_config c g ≡ some rc
    → (rc.cluster_id ≡ g.group_id)
      × (rc' : HostConfig) × (get_raft_config c g' ≡ some rc')
      × (rc'.cluster_id ≡ g'.group_id)
unfolding get_raft_config
get_raft_config_group c g g' rc h = elim (Option-cases (election_rtt c)) [
  | inl e ↦ absurd (ground arith)
  | inr (n, e) ↦ (ground arith, host_config c g' n, rw (e, get_raft_config), refl)
]

-- Every member of the list stands in the map under its number with its own address, where the
-- numbers are distinct.
abbrev pub Distinct : List MemberConfig → Type 0
Distinct [] = Unit
Distinct (m ∷ ms) = All (λ k. k.member_id ≢ m.member_id) ms × Distinct ms

lookup-targets_from_ne :
    (i : ℕ) (acc : List (ℕ × String)) (ms : List MemberConfig)
    → All (λ k. k.member_id ≢ i) ms
    → lookup i (targets_from acc ms) ≡ lookup i acc
unfolding targets_from
lookup-targets_from_ne i acc [] h = refl
lookup-targets_from_ne i acc (m ∷ ms) h =
    lookup-targets_from_ne i (insert m.member_id (address m) acc) ms h.1
    ∙ (rw lookup-insert (ground (arith, nat_eq_iff m.member_id i, h.0)))

lookup-targets_from :
    (acc : List (ℕ × String)) (ms : List MemberConfig)
    → Distinct ms
    → All (λ m. lookup m.member_id (targets_from acc ms) ≡ some (address m)) ms
unfolding targets_from
lookup-targets_from acc [] h = tt
lookup-targets_from acc (m ∷ ms) h = (
  lookup-targets_from_ne m.member_id (insert m.member_id (address m) acc) ms h.0
      ∙ (rw lookup-insert (ground (arith, nat_eq_iff m.member_id m.member_id))),
  lookup-targets_from (insert m.member_id (address m) acc) ms h.1,
)

-- Where the members' numbers are distinct, the map that `Bootstrap` and `Join` start the group with
-- has each member under its number, with its own host and port.
pub lookup-targets :
    (ms : List MemberConfig)
    → Distinct ms
    → All (λ m. lookup m.member_id (targets ms) ≡ some (address m)) ms
unfolding targets
lookup-targets ms h = lookup-targets_from [] ms h

module _ {S : Type 0} (host : ClusterHost S) where
  -- A host that refuses to start a group twice, and stays as it is when it does.
  pub record RefusesTwice : Type 0 where
    pub refuses :
        (ts ts' : List (ℕ × String)) (j j' : Bool) (c c' : HostConfig) (s s' : S)
        → c.cluster_id ≡ c'.cluster_id
        → host.start_cluster ts j c s ≡ (ok tt, s')
        → host.start_cluster ts' j' c' s' ≡ (err cluster_already_exist, s')

  -- `Bootstrap` may be repeated: after one that succeeded by starting the group, another for the
  -- same group succeeds and changes nothing, under a host that refuses to start a group twice.
  pub bootstrap_twice :
      (c : RaftConfig) (g g' : GroupConfig) (rc : HostConfig) (s s' : S)
      → RefusesTwice
      → g.group_id ≡ g'.group_id
      → get_raft_config c g ≡ some rc
      → host.start_cluster (targets g.members) false rc s ≡ (ok tt, s')
      → (bootstrap host c g s ≡ some (ok tt, s')) × (bootstrap host c g' s' ≡ some (ok tt, s'))
  unfolding bootstrap
  bootstrap_twice c g g' rc s s' refuse same config started =
      let (own, rc', config', own') = get_raft_config_group c g g' rc config in
      let again : host.start_cluster (targets g'.members) false rc' s'
          ≡ (err cluster_already_exist, s') =
        refuse.refuses (targets g.members) _ false false rc rc' s s' (own ∙ same ∙ sym own')
          started in
      (rw (config, start) (rw started), rw (config', start) (rw again))
