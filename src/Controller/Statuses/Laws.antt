-- ===== src/Controller/Statuses/Laws.antt =====
-- The comparisons decide that nothing has changed, for the lists that the controllers build:
-- partitions numbered in order, followers without duplicates.
use mathlib.Core.List.{Nodup, Perm}
use multi_raft_storage.Prelude.{
  ℕ, suc, ◌<◌, ◌≡◌, refl, ap, ◌↔◌, ◌≢◌, String, Bool, true, not, ◌&&◌, List, [], ◌∷◌, Option, none,
  some, arith, All, every, str_eq_iff,
}
use multi_raft_storage.Prelude.Int.{pos, int_eq, int_eq_iff}
use multi_raft_storage.Controller.Api.{RaftPartitionStatus}
use multi_raft_storage.Controller.Statuses.{
  same_leader, is_partition_status_equal, is_partition_statuses_equal,
}
use multi_raft_storage.Controller.Statuses.Followers.{same_followers_iff}

-- The same partition: same number, same leader, the same followers in some order.
pub record IsSame (p q : RaftPartitionStatus) : Type 0 where
  pub number : p.partition_id ≡ q.partition_id
  pub leader : p.leader ≡ q.leader
  pub followers : Perm p.followers q.followers

abbrev pub Agree : List RaftPartitionStatus → List RaftPartitionStatus → Type 0
Agree [] [] = Unit
Agree (p ∷ ps) (q ∷ qs) = IsSame p q × Agree ps qs
Agree _ _ = ⊥

-- Numbered in order from `i`.
abbrev pub Numbered : ℕ → List RaftPartitionStatus → Type 0
Numbered i [] = Unit
Numbered i (p ∷ ps) = (p.partition_id ≡ pos i) × Numbered (suc i) ps

same_leader_iff : (a b : Option String) → (same_leader a b ≡ true) ↔ (a ≡ b)
same_leader_iff none none = (λ _. refl, λ _. refl)
same_leader_iff none (some b) = (λ h. cc, λ h. cc)
same_leader_iff (some a) none = (λ h. cc, λ h. cc)
same_leader_iff (some a) (some b) =
    (λ h. ap some ((str_eq_iff a b).0 h), λ h. ground (arith, str_eq_iff a b))

status_equal_iff :
    (p q : RaftPartitionStatus)
    → Nodup p.followers
    → (is_partition_status_equal p q ≡ true) ↔ IsSame p q
unfolding is_partition_status_equal
status_equal_iff p q nodup = (
  λ h. record {
    number = (int_eq_iff p.partition_id q.partition_id).0 (ground arith);
    leader = (same_leader_iff p.leader q.leader).0 (ground arith);
    followers = (same_followers_iff p.followers q.followers nodup).0 (ground arith);
  },
  λ s.
      rw
        (
          (int_eq_iff p.partition_id q.partition_id).1 s.number,
          (same_leader_iff p.leader q.leader).1 s.leader,
        )
        ((same_followers_iff p.followers q.followers nodup).1 s.followers),
)

-- The test of one pair in the nested loops.
abbrev agrees : RaftPartitionStatus → RaftPartitionStatus → Bool
agrees p q = not (int_eq p.partition_id q.partition_id && not (is_partition_status_equal p q))

agrees_ne : (p q : RaftPartitionStatus) → p.partition_id ≢ q.partition_id → agrees p q ≡ true
agrees_ne p q ne = ground (arith, int_eq_iff p.partition_id q.partition_id)

agrees_later :
    (i j : ℕ) (p : RaftPartitionStatus) (qs : List RaftPartitionStatus)
    → p.partition_id ≡ pos i
    → i < j
    → Numbered j qs
    → every (agrees p) qs ≡ true
agrees_later i j p [] e lt n = refl
agrees_later i j p (q ∷ qs) e lt n =
    rw (agrees_ne p q (λ k. ground arith)) (agrees_later i (suc j) p qs e (omega arith) n.1)

earlier_agrees :
    (i j : ℕ) (q : RaftPartitionStatus) (ps qs : List RaftPartitionStatus)
    → q.partition_id ≡ pos i
    → i < j
    → Numbered j ps
    → every (λ p. every (agrees p) (q ∷ qs)) ps ≡ every (λ p. every (agrees p) qs) ps
earlier_agrees i j q [] qs e lt n = refl
earlier_agrees i j q (p ∷ ps) qs e lt n =
    rw (agrees_ne p q (λ k. ground arith), earlier_agrees i (suc j) q ps qs e (omega arith) n.1)
      refl

-- One step of the nested loops over two lists that are numbered alike.
loops_step :
    (i : ℕ) (p q : RaftPartitionStatus) (ps qs : List RaftPartitionStatus)
    → Numbered i (p ∷ ps)
    → Numbered i (q ∷ qs)
    → every (λ p. every (agrees p) (q ∷ qs)) (p ∷ ps)
      ≡ (is_partition_status_equal p q && every (λ p. every (agrees p) qs) ps)
loops_step i p q ps qs n m =
    rw
      (
        earlier_agrees i (suc i) q ps qs m.0 (omega arith) n.1,
        agrees_later i (suc i) p qs n.0 (omega arith) m.1,
      )
      (ground (arith, int_eq_iff p.partition_id q.partition_id))

-- For partitions that are numbered alike and whose followers have no duplicates, the controller
-- takes two statuses for equal exactly when they have the same partitions, each with the same leader
-- and the same followers up to order.
pub statuses_equal_iff :
    (i : ℕ) (ps qs : List RaftPartitionStatus)
    → Numbered i ps
    → Numbered i qs
    → All (λ p. Nodup p.followers) ps
    → (is_partition_statuses_equal ps qs ≡ true) ↔ Agree ps qs
unfolding is_partition_statuses_equal
statuses_equal_iff i [] [] n m d = (λ _. tt, λ _. refl)
statuses_equal_iff i [] (q ∷ qs) n m d = (λ h. absurd (ground arith), λ h. absurd h)
statuses_equal_iff i (p ∷ ps) [] n m d = (λ h. absurd (ground arith), λ h. absurd h)
statuses_equal_iff i (p ∷ ps) (q ∷ qs) n m d =
    let rest = statuses_equal_iff (suc i) ps qs n.1 m.1 d.1 in
    let one = status_equal_iff p q d.0 in
    let step = loops_step i p q ps qs n m in
    (λ h. (one.0 (ground arith), rest.0 (ground arith)), λ a. ground (arith, one.1 a.0, rest.1 a.1))
