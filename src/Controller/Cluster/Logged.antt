-- ===== src/Controller/Cluster/Logged.antt =====
-- A client that keeps, latest first, the members whose statuses are written, as the calls are made, and the
-- calls of a node's `Bootstrap` that have succeeded.
use multi_raft_storage.Prelude.{String, List, ◌∷◌, Result, ok, err, Exec}
use multi_raft_storage.Node.Group.{GroupConfig}
use multi_raft_storage.Controller.Api.{RaftMember}
use multi_raft_storage.Controller.Client.{KubeError, Client}

pub data Call : Type 0 where
  stored : RaftMember → Call
  booted : String → GroupConfig → Call

abbrev pub beside : {S A : Type 0} → Exec S KubeError A → Exec (S × List Call) KubeError A
beside m σ = let (r, s') = m σ.0 in (r, (s', σ.1))

-- The log behind a call of `Bootstrap`, by what the call returned.
abbrev pub noted : Call → Result KubeError (Unit {0}) → List Call → List Call
noted c (ok u) log = c ∷ log
noted c (err e) log = log

abbrev pub logged : {S : Type 0} → Client S → Client (S × List Call)
logged client = record {
  get_store = λ namespace name. beside (client.get_store namespace name);
  update_store_status = λ o. beside (client.update_store_status o);
  get_cluster = λ namespace name. beside (client.get_cluster namespace name);
  create_cluster = λ o. beside (client.create_cluster o);
  update_cluster_status = λ o. beside (client.update_cluster_status o);
  get_group = λ namespace name. beside (client.get_group namespace name);
  create_group = λ o. beside (client.create_group o);
  update_group_status = λ o. beside (client.update_group_status o);
  get_member = λ namespace name. beside (client.get_member namespace name);
  create_member = λ o. beside (client.create_member o);
  get_data_store = λ namespace name. beside (client.get_data_store namespace name);
  create_data_store = λ o. beside (client.create_data_store o);
  update_data_store = λ o. beside (client.update_data_store o);
  get_pod = λ namespace name. beside (client.get_pod namespace name);
  update_pod = λ o. beside (client.update_pod o);
  get_resource = λ kind namespace name. beside (client.get_resource kind namespace name);
  create_stateful_set = λ o. beside (client.create_stateful_set o);
  create_service = λ o. beside (client.create_service o);
  marshal_yaml = λ config. beside (client.marshal_yaml config);
  marshal_logging = λ config. beside (client.marshal_logging config);
  create_config_map = λ meta files. beside (client.create_config_map meta files);
  set_controller = λ owner meta. beside (client.set_controller owner meta);
  set_owner = λ owner meta. beside (client.set_owner owner meta);
  dial = λ address. beside (client.dial address);
  record_event = λ reason. beside (client.record_event reason);
  update_member_status = λ member σ.
      let (r, s') = client.update_member_status member σ.0 in (r, (s', stored member ∷ σ.1));
  bootstrap = λ address config σ.
      let (r, s') = client.bootstrap address config σ.0 in
      (r, (s', noted (booted address config) r σ.1));
}
