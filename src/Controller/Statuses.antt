-- ===== src/Controller/Statuses.antt =====
-- How the controllers compare what they observe with what they have written: partition statuses in
-- controller/pkg/controller/consensus/v1beta1/cluster.go, protocol configurations in store.go.
pub mod Followers
pub mod Laws
use multi_raft_storage.Prelude.{
  ℕ, String, Bool, true, false, not, ◌&&◌, ◌||◌, List, [], ◌∷◌, Option, none, some, length, every,
  contains, nat_eq, str_eq, string_Eq, if◌then◌else◌,
}
use multi_raft_storage.Prelude.Int.{ℤ, int_eq}
use multi_raft_storage.Controller.Api.{RaftPartitionStatus}

-- The three tests of two pointers to a leader's address.
abbrev pub same_leader : Option String → Option String → Bool
same_leader none (some b) = false
same_leader (some a) none = false
same_leader (some a) (some b) = str_eq a b
same_leader none none = true

-- As many followers, and each of the first among the second.
unfoldable pub same_followers : List String → List String → Bool
same_followers xs ys = nat_eq (length xs) (length ys) && every (contains ys) xs

unfoldable pub is_partition_status_equal : RaftPartitionStatus → RaftPartitionStatus → Bool
unfolding same_followers
is_partition_status_equal p q =
    int_eq p.partition_id q.partition_id
    && same_leader p.leader q.leader
    && same_followers p.followers q.followers

-- The nested loops return false at two partitions of one number that differ.
unfoldable pub is_partition_statuses_equal :
    List RaftPartitionStatus → List RaftPartitionStatus → Bool
unfolding is_partition_status_equal
is_partition_statuses_equal ps qs =
    nat_eq (length ps) (length qs)
    && every
        (λ p.
          every
            (λ q. not (int_eq p.partition_id q.partition_id && not (is_partition_status_equal p q)))
            qs)
        ps

-- `protocol.PartitionConfig`: no leader is the empty text.
pub record PartitionConfig : Type 0 where
  pub partition_id : ℤ
  pub leader : String
  pub followers : List String

abbrev pub address_or_empty : Option String → String
address_or_empty none = ""
address_or_empty (some a) = a

unfoldable pub get_protocol_config : List RaftPartitionStatus → List PartitionConfig
get_protocol_config [] = []
get_protocol_config (p ∷ ps) =
    record {
      partition_id = p.partition_id;
      leader = address_or_empty p.leader;
      followers = p.followers;
    }
    ∷ get_protocol_config ps

-- The leaders' three tests come to the equality of the two texts.
unfoldable pub is_partition_config_equal : PartitionConfig → PartitionConfig → Bool
unfolding same_followers
is_partition_config_equal p q =
    if str_eq p.leader "" && not (str_eq q.leader "")
    then false
    else if not (str_eq p.leader "") && str_eq q.leader ""
    then false
    else if not (str_eq p.leader "") && not (str_eq q.leader "") && not (str_eq p.leader q.leader)
    then false
    else same_followers p.followers q.followers

unfoldable pub is_protocol_config_equal : List PartitionConfig → List PartitionConfig → Bool
unfolding is_partition_config_equal
is_protocol_config_equal ps qs =
    nat_eq (length ps) (length qs)
    && every
        (λ p.
          every
            (λ q. not (int_eq p.partition_id q.partition_id && not (is_partition_config_equal p q)))
            qs)
        ps
