-- ===== src/Controller/Store/Errors.antt =====
-- What a pass over a consensus store does when the cluster cannot be read.
use multi_raft_storage.Prelude.{◌≡◌, refl, String, false, ok, err}
use multi_raft_storage.Controller.Api.{ConsensusStore}
use multi_raft_storage.Controller.Client.{other, Client}
use multi_raft_storage.Controller.Store.{follow, reconcile_store, reconcile}

module _ {S : Type 0} (client : Client S) (namespace name : String) (store : ConsensusStore) where
  -- Where the store is found and the look-up of its cluster fails with an error other than `NotFound`,
  -- the pass reports success, asks for no other pass, and makes no further call.
  pub reconcile_swallows :
      (message : String) (s s' s'' : S)
      → client.get_store namespace name s ≡ (ok store, s')
      → client.get_cluster store.meta.namespace store.meta.name s' ≡ (err (other message), s'')
      → reconcile client namespace name s ≡ (ok false, s'')
  unfolding reconcile reconcile_store follow
  reconcile_swallows message s s' s'' found failed = rw found (rw failed refl)
