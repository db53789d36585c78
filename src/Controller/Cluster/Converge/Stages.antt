-- ===== src/Controller/Cluster/Converge/Stages.antt =====
-- The stages of a member, and what is stored under its name.
use multi_raft_storage.Prelude.{
  ℕ, ◌≤◌, ◌<◌, ◌≡◌, refl, sym, ◌∙◌, inl, inr, String, Bool, true, false, ◌&&◌, Option, none, some,
  arith, Result, continue, Exec, str_eq, str_eq_iff, str_eq_refl, Bool-cases,
}
use multi_raft_storage.Prelude.Int.{ℤ}
use multi_raft_storage.Controller.Api.{ObjectMeta, RaftMember, is_not_ready}
use multi_raft_storage.Controller.Client.{KubeError, Pod}
use multi_raft_storage.Controller.Cluster.{same_pod, is_outdated, container_version}
use multi_raft_storage.Controller.Cluster.Converge.{
  Db, put, put_member, Holds, returns, fails, stage, phase_of, phase,
}

-- A call and what follows it.
pub step :
    {S A B : Type 0} {P : A → S → Type 0} {Q : B → S → Type 0} {o : Result KubeError A × S}
    {f : A → Exec S KubeError B}
    → Holds P o
    → ((a : A) (s : S) → P a s → Holds Q (f a s))
    → Holds Q (continue o.0 f o.1)
step (returns a s same h) go = rw same (go a s h)
step (fails e s same) go = rw same (fails e s refl)

-- The member under this name comes nearer, and no other goes back.
pub record Drop (db after : Db) (ns n : String) : Type 0 where
  pub clusters : after.clusters ≡ db.clusters
  pub others : (ns' n' : String) → phase after ns' n' ≤ phase db ns' n'
  pub down : phase after ns n < phase db ns n

-- What a pass over a member does: it has written and the member is nearer, or it has not and it is there.
abbrev pub MemberPost :
    {S : Type 0} → (S → Db) → Db → String → String → RaftMember × Bool → S → Type 0
MemberPost view db ns n (o, true) s = Drop db (view s) ns n
MemberPost view db ns n (o, false) s =
    (view s ≡ db) × (db.members ns n ≡ some o) × (phase db ns n ≡ 0)

pub both_eq : (a b x y : String) → str_eq a b && str_eq x y ≡ true → (a ≡ b) × (x ≡ y)
both_eq a b x y h = (ground (arith, str_eq_iff a b), ground (arith, str_eq_iff x y))

pub put-same :
    {A : Type 0} (P : Option A → Type 0) (meta : ObjectMeta) (o : A)
    (f : String → String → Option A) (ns n : String)
    → meta.namespace ≡ ns
    → meta.name ≡ n
    → P (some o)
    → P (put meta o f ns n)
put-same P meta o f ns n same_ns same_n h =
    rw (← same_ns, ← same_n, str_eq_refl meta.namespace, str_eq_refl meta.name) h

-- Under its own name the object that was put, under any other what was there.
pub put-elim :
    {A : Type 0} (P : Option A → Type 0) (meta : ObjectMeta) (o : A)
    (f : String → String → Option A) (ns n : String)
    → (meta.namespace ≡ ns → meta.name ≡ n → P (some o))
    → P (f ns n)
    → P (put meta o f ns n)
put-elim P meta o f ns n there elsewhere =
    elim (Bool-cases (str_eq meta.namespace ns && str_eq meta.name n)) [
      | inl e ↦ (let (a, b) = both_eq meta.namespace ns meta.name n e in rw e (there a b))
      | inr e ↦ rw e elsewhere
    ]

pub put_member-Drop :
    (o : RaftMember) (db after : Db) (ns n : String)
    → after ≡ put_member o db
    → o.meta.namespace ≡ ns
    → o.meta.name ≡ n
    → phase_of db.pods (some o) < phase db ns n
    → Drop db after ns n
unfolding phase phase_of
put_member-Drop o db after ns n written same_ns same_n less = rw written (record {
  clusters = refl;
  others = λ ns' n'.
      put-elim (λ r. phase_of db.pods r ≤ phase db ns' n') o.meta o db.members ns' n'
        (λ a b.
          (let key_ns : ns ≡ ns' = sym same_ns ∙ a in
            let key_n : n ≡ n' = sym same_n ∙ b in rw (← key_ns, ← key_n) (omega arith)))
        (omega arith);
  down =
      put-same (λ r. phase_of db.pods r < phase db ns n) o.meta o db.members ns n same_ns same_n
        less;
})

pub stage_le : (pod : Option Pod) (o : RaftMember) → stage pod o ≤ 3
unfolding stage
stage_le none o = omega arith
stage_le (some pod) o = ground arith

-- A member whose node runs the version that it records is there.
pub stage_current :
    (pod : Pod) (o : RaftMember)
    → same_pod o.status.pod_ref pod ≡ true
    → is_outdated o.status.version (container_version pod.container_statuses) ≡ false
    → stage (some pod) o ≡ 0
unfolding stage
stage_current pod o same current = rw (same, current) refl

pub stage_marked :
    (pod : Pod) (o : RaftMember)
    → same_pod o.status.pod_ref pod ≡ true
    → is_outdated o.status.version (container_version pod.container_statuses) ≡ true
    → is_not_ready o.status.state ≡ true
    → stage (some pod) o ≡ 1
unfolding stage
stage_marked pod o same old down = rw (same, old, down) refl

pub stage_old :
    (pod : Pod) (o : RaftMember)
    → same_pod o.status.pod_ref pod ≡ true
    → is_outdated o.status.version (container_version pod.container_statuses) ≡ true
    → is_not_ready o.status.state ≡ false
    → stage (some pod) o ≡ 2
unfolding stage
stage_old pod o same old up = rw (same, old, up) refl

pub stage_moved :
    (pod : Pod) (o : RaftMember) → same_pod o.status.pod_ref pod ≡ false → stage (some pod) o ≡ 3
unfolding stage
stage_moved pod o new = rw new refl

-- A member without a version has writes to come, but is not as far off as one of another pod.
pub stage_unversioned :
    (pod : Pod) (o : RaftMember)
    → same_pod o.status.pod_ref pod ≡ true
    → o.status.version ≡ none
    → stage (some pod) o < 3
unfolding stage
stage_unversioned pod o same fresh = rw (same, fresh) (ground arith)

pub missing_less :
    (db : Db) (o : RaftMember) (ns n : String)
    → db.members ns n ≡ none
    → phase_of db.pods (some o) < phase db ns n
unfolding phase phase_of
missing_less db o ns n missing =
    rw missing (let small = stage_le (db.pods o.meta.namespace o.spec.pod) o in omega arith)

pub below : {a b : ℕ} (x y : ℕ) → a ≡ x → b ≡ y → x < y → a < b
below x y h k lt = omega arith

pub below_or_less : {a b : ℕ} (y : ℕ) → a < y → b ≡ y → a < b
below_or_less y lt k = omega arith

pub same_version : (v : ℤ) → is_outdated (some v) v ≡ false
same_version v = ground arith
