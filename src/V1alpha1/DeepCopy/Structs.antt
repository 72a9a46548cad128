-- ===== src/V1alpha1/DeepCopy/Structs.antt =====
-- The structs of cluster.go, partitiongroup.go and benchmark.go as they lie in memory. The parameters
-- of a record are the types of its pointers and slices, and of its vendored fields: addresses and
-- vendored structs in memory, and what these stand for in a value.
use atomix_operator.Base.{ℤ, String, Bool, Option}
use atomix_operator.V1alpha1.Types.{Compaction}

pub record TypeMeta : Type 0 where
  pub kind : String
  pub api_version : String

pub record ListMeta : Type 0 where
  pub self_link : String
  pub resource_version : String
  pub continue_token : String

pub record StorageOf (Str : Type 0) : Type 0 where
  pub size : String
  pub class_name : Option Str
  pub segment_size : String
  pub entry_size : String
  pub level : String
  pub flush_on_commit : Bool

pub record PersistentPartitionGroupOf (Str : Type 0) : Type 0 where
  pub storage : StorageOf Str
  pub compaction : Compaction

pub record RaftPartitionGroupOf (Str : Type 0) : Type 0 where
  pub persistent : PersistentPartitionGroupOf Str
  pub partition_size : ℤ

pub record LogPartitionGroupOf (Str : Type 0) : Type 0 where
  pub persistent : PersistentPartitionGroupOf Str
  pub member_group_strategy : String

pub record ClusterSpecOf (Str Envs Resources : Type 0) : Type 0 where
  pub version : String
  pub size : ℤ
  pub env : Option Envs
  pub resources : Resources
  pub storage : StorageOf Str

pub record PartitionGroupSpecOf (Envs Resources Raft Backup Log : Type 0) : Type 0 where
  pub cluster : String
  pub version : String
  pub size : ℤ
  pub partitions : ℤ
  pub env : Option Envs
  pub resources : Resources
  pub raft : Option Raft
  pub primary_backup : Option Backup
  pub log : Option Log

pub record BenchmarkSpecOf (Envs Resources : Type 0) : Type 0 where
  pub cluster : String
  pub version : String
  pub workers : ℤ
  pub env : Option Envs
  pub resources : Resources

-- ClusterStatus, PartitionGroupStatus and AtomixBenchmarkStatus have the same field.
pub record Status : Type 0 where
  pub service_name : String

-- AtomixCluster, PartitionGroup and AtomixBenchmark differ in their specifications.
pub record ResourceOf (Meta Spec : Type 0) : Type 0 where
  pub type_meta : TypeMeta
  pub metadata : Meta
  pub spec : Spec
  pub status : Status

pub record ResourceListOf (Items : Type 0) : Type 0 where
  pub type_meta : TypeMeta
  pub list_meta : ListMeta
  pub items : Option Items
