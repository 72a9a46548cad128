-- ===== src/V1alpha1/Types.antt =====
-- pkg/apis/agent/v1alpha1/{cluster,partitiongroup,benchmark}.go: the specifications. A pointer
-- field is an `Option`, `int32` and `int` are integers, and a `float32` is its IEEE 754 pattern of
-- 32 bits. `TypeMeta` and `Status` are not read by the operator and are left out.
use atomix_operator.Base.{ℕ, ℤ, String, Bool, Option, none, some, List, Result, ok, err}
use atomix_operator.Kube.Meta.{Foreign, ObjectMeta}
use atomix_operator.Kube.Pod.{EnvVar, ResourceRequirements}

-- PartitionGroupType, MemberGroupStrategy and StorageLevel are strings.
abbrev pub raft_type : String
raft_type = "raft"

abbrev pub primary_backup_type : String
primary_backup_type = "primary-backup"

abbrev pub log_type : String
log_type = "log"

abbrev pub node_aware_member_group_strategy : String
node_aware_member_group_strategy = "node_aware"

abbrev pub rack_aware_member_group_strategy : String
rack_aware_member_group_strategy = "rack_aware"

abbrev pub zone_aware_member_group_strategy : String
zone_aware_member_group_strategy = "zone_aware"

abbrev pub disk_storage : String
disk_storage = "disk"

abbrev pub mapped_storage : String
mapped_storage = "mapped"

pub record Storage : Type 0 where
  pub size : String
  pub class_name : Option String
  pub segment_size : String
  pub entry_size : String
  pub level : String
  pub flush_on_commit : Bool

pub record Compaction : Type 0 where
  pub dynamic : Bool
  pub free_disk_buffer : ℕ
  pub free_memory_buffer : ℕ

pub record PersistentPartitionGroup : Type 0 where
  pub storage : Storage
  pub compaction : Compaction

pub record RaftPartitionGroup : Type 0 where
  pub persistent : PersistentPartitionGroup
  pub partition_size : ℤ

pub record PrimaryBackupPartitionGroup : Type 0 where
  pub member_group_strategy : String

pub record LogPartitionGroup : Type 0 where
  pub persistent : PersistentPartitionGroup
  pub member_group_strategy : String

pub record ClusterSpec (F : Foreign) : Type 0 where
  pub version : String
  pub size : ℤ
  pub env : List (EnvVar F)
  pub resources : ResourceRequirements F
  pub storage : Storage

pub record AtomixCluster (F : Foreign) : Type 0 where
  pub metadata : ObjectMeta
  pub spec : ClusterSpec F

pub record PartitionGroupSpec (F : Foreign) : Type 0 where
  pub cluster : String
  pub version : String
  pub size : ℤ
  pub partitions : ℤ
  pub env : List (EnvVar F)
  pub resources : ResourceRequirements F
  pub raft : Option RaftPartitionGroup
  pub primary_backup : Option PrimaryBackupPartitionGroup
  pub log : Option LogPartitionGroup

pub record PartitionGroup (F : Foreign) : Type 0 where
  pub metadata : ObjectMeta
  pub spec : PartitionGroupSpec F

pub record AtomixBenchmarkSpec (F : Foreign) : Type 0 where
  pub cluster : String
  pub version : String
  pub workers : ℤ
  pub env : List (EnvVar F)
  pub resources : ResourceRequirements F

pub record AtomixBenchmark (F : Foreign) : Type 0 where
  pub metadata : ObjectMeta
  pub spec : AtomixBenchmarkSpec F

-- The three cases of the `switch`, first match; `fmt.Errorf` gives the error.
abbrev group_type :
    {E : Type 0}
    → E
    → Option RaftPartitionGroup
    → Option PrimaryBackupPartitionGroup
    → Option LogPartitionGroup
    → Result E String
group_type unknown (some _) _ _ = ok raft_type
group_type unknown none (some _) _ = ok primary_backup_type
group_type unknown none none (some _) = ok log_type
group_type unknown none none none = err unknown

unfoldable pub get_partition_group_type :
    {F : Foreign} {E : Type 0} (errorf : String → E) → PartitionGroup F → Result E String
get_partition_group_type errorf group =
    group_type (errorf "unknown partition group type") group.spec.raft group.spec.primary_backup
      group.spec.log
