-- ===== src/Controller/Labels/Laws.antt =====
-- What a created object's labels and annotations hold.
use multi_raft_storage.Prelude.{
  ◌||◌, String, ◌≡◌, refl, ◌∙◌, List, [], ◌∷◌, Option, none, some, arith, str_eq, str_eq_iff,
  string_Eq, if◌then◌else◌,
}
use multi_raft_storage.Prelude.Assoc.{lookup, insert, lookup-insert}
use multi_raft_storage.Prelude.Int.{ℤ}
use multi_raft_storage.Controller.Api.{ConsensusStore, MultiRaftCluster}
use multi_raft_storage.Controller.Labels.{
  store_key, multi_raft_store_key, multi_raft_cluster_key, raft_partition_key, copy_into, copied,
  new_cluster_annotations, new_group_labels, new_group_annotations,
}
use multi_raft_storage.Prelude.Text.{show_int}

-- A Go map has one value for a key.
abbrev pub OneEach : List (String × String) → Type 0
OneEach [] = Unit
OneEach ((k, v) ∷ m) = (lookup k m ≡ none) × OneEach m

abbrev or_first : Option String → Option String → Option String
or_first (some v) d = some v
or_first none d = d

lookup-copy_into :
    (k : String) (to from : List (String × String))
    → OneEach from
    → lookup k (copy_into to from) ≡ or_first (lookup k from) (lookup k to)
unfolding copy_into lookup
lookup-copy_into k to [] h = refl
lookup-copy_into k to ((j, v) ∷ from) h =
    lookup-copy_into k (insert j v to) from h.1
    ∙ (ground (arith, h.0, str_eq_iff j k, lookup-insert j k v to))

lookup-copied :
    (k : String) (m : List (String × String)) → OneEach m → lookup k (copied m) ≡ lookup k m
unfolding copied lookup
lookup-copied k m h = lookup-copy_into k [] m h ∙ (ground arith)

-- A created cluster carries the store's name under the two store keys, and the store's annotations
-- under every other key. The store has one annotation for a key.
pub lookup-new_cluster_annotations :
    (s : ConsensusStore) (k : String)
    → OneEach s.meta.annotations
    → lookup k (new_cluster_annotations s) ≡ (
        if str_eq multi_raft_store_key k || str_eq store_key k
        then some s.meta.name
        else lookup k s.meta.annotations)
unfolding new_cluster_annotations
lookup-new_cluster_annotations s k one =
    rw (lookup-insert, lookup-insert, lookup-copied k s.meta.annotations one) (ground arith)

-- A created group carries its own number and its cluster's name, and under every other key the
-- cluster's label, in its annotations as in its labels: the annotations of the cluster do not pass
-- to its groups. The cluster has one label for a key.
pub lookup-new_group_annotations :
    (c : MultiRaftCluster) (g : ℤ) (k : String)
    → OneEach c.meta.labels
    → (lookup k (new_group_annotations c g) ≡ (
        if str_eq raft_partition_key k
        then some (show_int g)
        else if str_eq multi_raft_cluster_key k
        then some c.meta.name
        else lookup k c.meta.labels))
      × (new_group_annotations c g ≡ new_group_labels c g)
unfolding new_group_annotations new_group_labels
lookup-new_group_annotations c g k one =
    (rw (lookup-insert, lookup-insert, lookup-copied k c.meta.labels one) refl, refl)
