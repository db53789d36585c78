-- ===== src/Controller/Cluster/Writes.antt =====
-- How often one pass of the reconciler writes to the API: a client that counts, and the bounds.
use multi_raft_storage.Prelude.{
  ℕ, suc, ◌≤◌, ◌≡◌, refl, inl, inr, String, Bool, true, false, arith, Result, ok, err, Bool-cases,
  Exec, continue, if◌then◌else◌,
}
use multi_raft_storage.Prelude.Int.{ℤ}
use multi_raft_storage.Controller.Api.{MultiRaftCluster, RaftGroup, RaftMember, is_not_ready}
use multi_raft_storage.Controller.Client.{KubeError, not_found, other, Client, Pod}
use multi_raft_storage.Controller.Cluster.{
  create_member, start_member, follow_pod, follow_member, reconcile_member, is_outdated, same_pod,
  container_version,
}

module _ {S : Type 0} {A : Type 0} where
  -- A call that is not counted, and one that is.
  abbrev pub quiet : Exec S KubeError A → Exec (S × ℕ) KubeError A
  quiet m σ = let (r, s') = m σ.0 in (r, (s', σ.1))

  abbrev pub count : Exec S KubeError A → Exec (S × ℕ) KubeError A
  count m σ = let (r, s') = m σ.0 in (r, (s', suc σ.1))

-- The client that counts each `Create`, `Update` and `Status().Update`, as it is called.
abbrev pub counted : {S : Type 0} → Client S → Client (S × ℕ)
counted client = record {
  get_store = λ namespace name. quiet (client.get_store namespace name);
  update_store_status = λ store. count (client.update_store_status store);
  get_cluster = λ namespace name. quiet (client.get_cluster namespace name);
  create_cluster = λ c. count (client.create_cluster c);
  update_cluster_status = λ c. count (client.update_cluster_status c);
  get_group = λ namespace name. quiet (client.get_group namespace name);
  create_group = λ group. count (client.create_group group);
  update_group_status = λ group. count (client.update_group_status group);
  get_member = λ namespace name. quiet (client.get_member namespace name);
  create_member = λ member. count (client.create_member member);
  update_member_status = λ member. count (client.update_member_status member);
  get_data_store = λ namespace name. quiet (client.get_data_store namespace name);
  create_data_store = λ d. count (client.create_data_store d);
  update_data_store = λ d. count (client.update_data_store d);
  get_pod = λ namespace name. quiet (client.get_pod namespace name);
  update_pod = λ pod. count (client.update_pod pod);
  get_resource = λ kind namespace name. quiet (client.get_resource kind namespace name);
  create_stateful_set = λ set. count (client.create_stateful_set set);
  create_service = λ service. count (client.create_service service);
  marshal_yaml = λ config. quiet (client.marshal_yaml config);
  marshal_logging = λ config. quiet (client.marshal_logging config);
  create_config_map = λ meta files. count (client.create_config_map meta files);
  set_controller = λ owner meta. quiet (client.set_controller owner meta);
  set_owner = λ owner meta. quiet (client.set_owner owner meta);
  dial = λ address. quiet (client.dial address);
  bootstrap = λ address config. quiet (client.bootstrap address config);
  record_event = λ reason. quiet (client.record_event reason);
}

module _ {S : Type 0} {A : Type 0} where
  -- From `n` calls: one more where the result says that something was written, none where it says
  -- that nothing was, at most one where the pass failed.
  unfoldable pub AtMostOne : (A → Bool) → ℕ → Result KubeError A × (S × ℕ) → Type 0
  AtMostOne written n (ok a, (s, k)) = k ≡ (if written a then suc n else n)
  AtMostOne written n (err e, (s, k)) = k ≤ suc n

  -- A pass that has written: whatever else it does, it says so.
  unfoldable pub Written : (A → Bool) → ℕ → Result KubeError A × (S × ℕ) → Type 0
  Written written n (ok a, (s, k)) = (k ≡ suc n) × (written a ≡ true)
  Written written n (err e, (s, k)) = k ≤ suc n

  Written-AtMostOne :
      (written : A → Bool) (n : ℕ) (o : Result KubeError A × (S × ℕ))
      → Written written n o
      → AtMostOne written n o
  unfolding Written AtMostOne
  Written-AtMostOne written n (ok a, (s, k)) h = rw h.1 h.0
  Written-AtMostOne written n (err e, (s, k)) h = h

-- What follows a call that is not counted, a call that is, and one whose error is looked at; `r`
-- is what the call returned.
module _ {S : Type 0} {A B : Type 0} (written : B → Bool) where
  pub quiet-bind :
      (r : Result KubeError A) (s : S) (f : A → Exec (S × ℕ) KubeError B) (n : ℕ)
      → ((a : A) → AtMostOne written n (f a (s, n)))
      → AtMostOne written n (continue r f (s, n))
  unfolding AtMostOne
  quiet-bind (ok a) s f n h = h a
  quiet-bind (err e) s f n h = omega arith

  pub count-bind :
      (r : Result KubeError A) (s : S) (f : A → Exec (S × ℕ) KubeError B) (n : ℕ)
      → ((a : A) → Written written n (f a (s, suc n)))
      → AtMostOne written n (continue r f (s, suc n))
  unfolding AtMostOne
  count-bind (ok a) s f n h = Written-AtMostOne written n _ (h a)
  count-bind (err e) s f n h = omega arith

  pub Written-bind :
      (r : Result KubeError A) (s : S) (f : A → Exec (S × ℕ) KubeError B) (n : ℕ)
      → ((a : A) → Written written n (f a (s, suc n)))
      → Written written n (continue r f (s, suc n))
  unfolding Written
  Written-bind (ok a) s f n h = h a
  Written-bind (err e) s f n h = omega arith

-- What follows a part of the pass: where the part has written, nothing more is.
module _ {S : Type 0} {A B : Type 0} (before : A → Bool) (written : B → Bool) where
  pub part-bind :
      (o : Result KubeError A × (S × ℕ)) (f : A → Exec (S × ℕ) KubeError B) (n : ℕ)
      → AtMostOne before n o
      → ((a : A) (s : S) → before a ≡ true → Written written n (f a (s, suc n)))
      → ((a : A) (s : S) → before a ≡ false → AtMostOne written n (f a (s, n)))
      → AtMostOne written n (continue o.0 f o.1)
  unfolding AtMostOne
  part-bind (ok a, (s, k)) f n h stop go = elim (Bool-cases (before a)) [
    | inl e ↦
        let same : k ≡ suc n = ground arith in rw same (Written-AtMostOne written n _ (stop a s e))
    | inr e ↦ let same : k ≡ n = ground arith in rw same (go a s e)
  ]
  part-bind (err e, (s, k)) f n h stop go = h

abbrev pub written_of : {A : Type 0} → A × Bool → Bool
written_of o = o.1

pub ruleset once = (quiet-bind, count-bind, Written-bind)

module _ {S : Type 0} (client : Client S) (domain : String) (c : MultiRaftCluster) where
  create_member_writes :
      (group : RaftGroup) (g m : ℤ) (s : S) (n : ℕ)
      → AtMostOne written_of n (create_member (counted client) domain c group g m (s, n))
  unfolding create_member Written
  create_member_writes group g m s n = search once

  start_member_writes :
      (g m version : ℤ) (pod : Pod) (member : RaftMember) (s : S) (n : ℕ)
      → AtMostOne written_of n
          (start_member (counted client) domain c g m version pod member (s, n))
  unfolding start_member Written
  start_member_writes g m version pod member s n = search once

  follow_pod_writes :
      (g m : ℤ) (pod : Pod) (member : RaftMember) (s : S) (n : ℕ)
      → AtMostOne written_of n (follow_pod (counted client) domain c g m pod member (s, n))
  unfolding follow_pod AtMostOne Written
  follow_pod_writes g m pod member s n = elim (Bool-cases (same_pod member.status.pod_ref pod)) [
    | inr new ↦ rw new (search once)
    | inl same ↦
        elim (Bool-cases
          (is_outdated member.status.version (container_version pod.container_statuses))) [
            | inr current ↦ rw (same, current) refl
            | inl old ↦ elim (Bool-cases (is_not_ready member.status.state)) [
              | inr up ↦ rw (same, old, up) (search once)
              | inl down ↦ rw (same, old, down) (search start_member_writes)
            ]
          ]
  ]

  follow_member_writes :
      (group : RaftGroup) (g m : ℤ) (found : Result KubeError RaftMember) (s : S) (n : ℕ)
      → AtMostOne written_of n (follow_member (counted client) domain c group g m found (s, n))
  unfolding follow_member AtMostOne
  follow_member_writes group g m (err not_found) s n = create_member_writes group g m s n
  follow_member_writes group g m (err (other e)) s n = omega arith
  follow_member_writes group g m (ok member) s n = search (once, follow_pod_writes)

  pub reconcile_member_writes :
      (group : RaftGroup) (g m : ℤ) (s : S) (n : ℕ)
      → AtMostOne written_of n (reconcile_member (counted client) domain c group g m (s, n))
  unfolding reconcile_member
  reconcile_member_writes group g m s n = follow_member_writes group g m _ _ n
