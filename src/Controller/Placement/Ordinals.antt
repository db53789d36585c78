-- ===== src/Controller/Placement/Ordinals.antt =====
-- Where the members of a group run.
use native.Mathlib.Nat.{mod-lt, mul-le-mul, mul-suc, le_refl, div-add-mod, add-mod_right, add_assoc}
use native.Mathlib.Decide.{dec_lt, dec_le}
use multi_raft_storage.Prelude.{
  ℕ, suc, ◌+◌, ◌-◌, ◌*◌, ◌/◌, ◌%◌, ◌^◌, ◌≤◌, ◌<◌, ◌≡◌, sym, ap, ◌∙◌, ◌≢◌, arith,
}
use multi_raft_storage.Prelude.Int.{pos, pos_part, *ℤ-pos, +ℤ-pos, pred-pos, int64_fits}
use multi_raft_storage.Controller.Api.{MultiRaftCluster}
use multi_raft_storage.Controller.Placement.{get_num_members, get_num_replicas, pod_ordinal}

-- A cluster of `n` replicas and groups of `k` members, within the range of `int32` fields.
pub record IsSized (c : MultiRaftCluster) (n k : ℕ) : Type 0 where
  pub replicas : get_num_replicas c ≡ pos n
  pub members : get_num_members c ≡ pos k
  pub some_replica : 0 < n
  pub few_members : k < 2 ^ 32

module _ (c : MultiRaftCluster) (n k g m : ℕ) (sized : IsSized c n k) (group : g < 2 ^ 31) where
  product_fits : k * g < 2 ^ 63 - 2 ^ 32
  product_fits =
      let few : k ≤ 2 ^ 32 - 1 = omega (arith, sized.few_members) in
      let small : g ≤ 2 ^ 31 - 1 = omega arith in omega (arith, mul-le-mul few small)

  -- For `n` replicas and `k` members a group, `k` below 2^32, a group `g` below 2^31 and `m` below 2^32,
  -- the pod of member `m + 1` has number `(k * g + m) % n`: no 64-bit operation wraps around.
  pub pod_ordinal_lem : m < 2 ^ 32 → pod_ordinal c (pos g) (pos (suc m)) ≡ pos ((k * g + m) % n)
  unfolding pod_ordinal
  pod_ordinal_lem fits =
      rw (sized.members, sized.replicas, *ℤ-pos k g, pred-pos m)
        (rw (int64_fits (k * g) (omega (arith, product_fits)), int64_fits m (omega arith))
          (rw +ℤ-pos (rw (int64_fits (k * g + m) (omega (arith, product_fits))))))

residue_gap : (n p q d : ℕ) → n * q ≡ n * p + d → 0 < d → d < n → ⊥
residue_gap n p q d e lo hi = elim (dec_le q p) [
  | yes h ↦ absurd (omega (arith, mul-le-mul (le_refl n) h))
  | no h ↦
      absurd
        (omega (arith, mul-le-mul (le_refl n) (let k : suc p ≤ q = omega arith in k), mul-suc n p))
]

residues_differ : (x n a b : ℕ) → a < b → b < n → (x + a) % n ≢ (x + b) % n
residues_differ x n a b lt hi same =
    residue_gap n ((x + a) / n) ((x + b) / n) (b - a)
      (omega (arith, div-add-mod (x + a) n, div-add-mod (x + b) n)) (omega arith) (omega arith)

module _ (c : MultiRaftCluster) (n k g : ℕ) (sized : IsSized c n k) (group : g < 2 ^ 31) where
  ordinals_differ :
      (a b : ℕ)
      → k ≤ n
      → a < b
      → b < k
      → pod_ordinal c (pos g) (pos (suc a)) ≢ pod_ordinal c (pos g) (pos (suc b))
  ordinals_differ a b fits lt hi same = residues_differ (k * g) n a b lt (omega arith) (
      ap pos_part (
        sym (pod_ordinal_lem c n k g a sized group (omega (arith, sized.few_members)))
        ∙ same
        ∙ pod_ordinal_lem c n k g b sized group (omega (arith, sized.few_members))))

  -- In a group numbered below 2^31 of at most as many members as the cluster has replicas, fewer than
  -- 2^32, two members never run in the same pod, and each runs in a pod of the stateful set.
  pub members_spread :
      (a b : ℕ)
      → k ≤ n
      → a < k
      → b < k
      → a ≢ b
      → (pod_ordinal c (pos g) (pos (suc a)) ≢ pod_ordinal c (pos g) (pos (suc b)))
        × (pos_part (pod_ordinal c (pos g) (pos (suc a))) < n)
  members_spread a b fits ha hb ne = (
    λ same. elim (dec_lt a b) [
      | yes lt ↦ ordinals_differ a b fits lt hb same
      | no ge ↦ ordinals_differ b a fits (omega arith) ha (sym same)
    ],
    rw (pod_ordinal_lem c n k g a sized group (omega (arith, sized.few_members)))
        (mod-lt _ sized.some_replica),
  )

  -- A group numbered below 2^31 of more members than replicas, fewer than 2^32, puts two of its
  -- members into one pod: every member and the one that follows it by the number of replicas.
  pub members_collide :
      (a : ℕ)
      → a + n < k
      → pod_ordinal c (pos g) (pos (suc a)) ≡ pod_ordinal c (pos g) (pos (suc (a + n)))
  members_collide a more =
      pod_ordinal_lem c n k g a sized group (omega (arith, sized.few_members))
      ∙ ap pos (sym (add-mod_right (k * g + a) n) ∙ ap (λ (t : ℕ). t % n) (add_assoc (k * g) a n))
      ∙ sym (pod_ordinal_lem c n k g (a + n) sized group (omega (arith, sized.few_members)))
