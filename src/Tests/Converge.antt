-- ===== src/Tests/Converge.antt =====
-- The end of the reconciler's passes on an API server in memory.
use multi_raft_storage.Prelude.{
  ◌≡◌, refl, inl, inr, [], String, ◌&&◌, Option, none, some, arith, Result, ok, err, Exec, str_eq,
  Bool-cases, if◌then◌else◌,
}
use multi_raft_storage.Prelude.Int.{int64, ◌+ℤ◌}
use multi_raft_storage.Controller.Api.{ready, ObjectMeta}
use multi_raft_storage.Controller.Placement.{get_num_groups, get_num_members}
use multi_raft_storage.Controller.Client.{KubeError, not_found, other, Client, Pod}
use multi_raft_storage.Controller.Cluster.Converge.{
  Db, put_member, put_group, put_cluster, Holds, returns, fails, Finds, IsStored,
}
use multi_raft_storage.Controller.Cluster.Converge.Stages.{both_eq}
use multi_raft_storage.Controller.Cluster.Converge.Rounds.{AtEnd, rounds, rounds-AtEnd}
use multi_raft_storage.Controller.Cluster.Groups.{reconcile_status}
use multi_raft_storage.Controller.Cluster.Converge.Statuses.{
  StatusPost, reconcile_status-StatusPost,
}
use multi_raft_storage.Tests.Fixtures.{cluster, running_pod, stopped_member, raft}

abbrev pub look : {A : Type 0} → (A → ObjectMeta) → String → String → Option A → Exec Db KubeError A
look meta ns n none db = (err not_found, db)
look meta ns n (some o) db =
    if str_eq (meta o).namespace ns && str_eq (meta o).name n
    then (ok o, db)
    else (err (other "another object"), db)

-- An API server whose state is what it stores; the rest is as in the other tests.
abbrev pub memory : Client Db
memory = record {
  get_store = λ ns n db. (err not_found, db);
  update_store_status = λ o db. (ok tt, db);
  get_cluster = λ ns n db. look (λ c. c.meta) ns n (db.clusters ns n) db;
  create_cluster = λ o db. (ok tt, put_cluster o db);
  update_cluster_status = λ o db. (ok tt, put_cluster o db);
  get_group = λ ns n db. look (λ g. g.meta) ns n (db.groups ns n) db;
  create_group = λ o db. (ok tt, put_group o db);
  update_group_status = λ o db. (ok tt, put_group o db);
  get_member = λ ns n db. look (λ m. m.meta) ns n (db.members ns n) db;
  create_member = λ o db. (ok tt, put_member o db);
  update_member_status = λ o db. (ok tt, put_member o db);
  get_data_store = λ ns n db. (err not_found, db);
  create_data_store = λ o db. (ok tt, db);
  update_data_store = λ o db. (ok tt, db);
  get_pod = λ ns n db. (elim (db.pods ns n) [ none ↦ err not_found | some p ↦ ok p ], db);
  update_pod = λ o db. (ok tt, db);
  get_resource = λ kind ns n db. (ok tt, db);
  create_stateful_set = λ o db. (ok tt, db);
  create_service = λ o db. (ok tt, db);
  marshal_yaml = λ config db. (ok "", db);
  marshal_logging = λ config db. (ok "", db);
  create_config_map = λ meta config db. (ok tt, db);
  set_controller = λ owner meta db. (ok meta, db);
  set_owner = λ owner meta db. (ok meta, db);
  dial = λ address db. (ok tt, db);
  bootstrap = λ address config db. (ok tt, db);
  record_event = λ reason db. (ok tt, db);
}

abbrev pub itself : Db → Db
itself db = db

pub look-Finds :
    {A : Type 0} (meta : A → ObjectMeta) (ns n : String) (stored : Option A) (db : Db)
    → Finds itself db meta stored ns n (look meta ns n stored db)
look-Finds meta ns n none db = (refl, refl)
look-Finds meta ns n (some o) db =
    elim (Bool-cases (str_eq (meta o).namespace ns && str_eq (meta o).name n)) [
      | inl e ↦
          (let (same_ns, same_n) = both_eq (meta o).namespace ns (meta o).name n e in
            rw e (refl, same_ns, same_n, refl))
      | inr e ↦ rw e tt
    ]

pod-Holds :
    (stored : Option Pod) (db : Db)
    → Holds
        (λ o after. (stored ≡ some o) × (after ≡ db))
        (elim stored as (λ o. Result KubeError Pod) [ none ↦ err not_found | some p ↦ ok p ], db)
pod-Holds none db = fails _ _ refl
pod-Holds (some p) db = returns _ _ refl (refl, refl)

memory-IsStored : IsStored memory itself
memory-IsStored = record {
  get_member = λ ns n db. look-Finds (λ m. m.meta) ns n (db.members ns n) db;
  get_group = λ ns n db. look-Finds (λ g. g.meta) ns n (db.groups ns n) db;
  get_cluster = λ ns n db. look-Finds (λ c. c.meta) ns n (db.clusters ns n) db;
  get_pod = λ ns n db. pod-Holds (db.pods ns n) db;
  create_member = λ o s. returns _ _ refl refl;
  update_member_status = λ o s. returns _ _ refl refl;
  create_group = λ o s. returns _ _ refl refl;
  update_group_status = λ o s. returns _ _ refl refl;
  update_cluster_status = λ o s. returns _ _ refl refl;
  set_controller = λ owner meta s. returns _ _ refl (refl, refl, refl);
  set_owner = λ owner meta s. returns _ _ refl (refl, refl, refl);
  dial = λ address s. returns _ _ refl refl;
  bootstrap = λ address config s. returns _ _ refl refl;
  record_event = λ reason s. returns _ _ refl refl;
}

-- Only the cluster is stored, of two groups of three members each, and every pod runs.
abbrev at_first : Db
at_first = record {
  members = λ ns n. none;
  groups = λ ns n. none;
  clusters = λ ns n. some (cluster none);
  pods = λ ns n. some running_pod;
}

rounds-AtEnd_example :
    Holds
      (AtEnd itself "default" "raft")
      (rounds memory "cluster.local" "default" "raft" 298 at_first)
unfolding get_num_groups get_num_members int64 ◌+ℤ◌
rounds-AtEnd_example =
    rounds-AtEnd memory itself memory-IsStored "cluster.local" "default" "raft" 298 at_first
      (cluster none) refl (omega arith)

-- Every group and member is stored, and the first member leads.
abbrev served : Db
served = record at_first {
  members = λ ns n. some (record stopped_member {
    meta = record { namespace = ns; name = n; labels = []; annotations = [] };
  });
  groups = λ ns n. some (record {
    meta = record { namespace = ns; name = n; labels = []; annotations = [] };
    spec = raft none;
    status = record { state = ready; term = some 2; leader = some "raft-1-1"; followers = [] };
  });
}

reconcile_status-StatusPost_example :
    Holds
      (StatusPost "cluster.local" (cluster none) memory itself memory-IsStored served)
      (reconcile_status memory "cluster.local" (cluster none) served)
reconcile_status-StatusPost_example =
    reconcile_status-StatusPost "cluster.local" (cluster none) memory itself memory-IsStored served
