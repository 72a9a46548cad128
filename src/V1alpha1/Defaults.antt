-- ===== src/V1alpha1/Defaults.antt =====
-- pkg/apis/agent/v1alpha1/defaults.go: every function gives back the value that it wrote through
-- its pointer.
pub mod Laws
use atomix_operator.Base.{
  ℕ, ℤ, pos, is_zero, nat_eq, String, ◌==◌, Bool, ◌||◌, Option, none, some, if◌then◌else◌,
}
use atomix_operator.Kube.Meta.{Foreign}
use atomix_operator.V1alpha1.Types.{
  Storage, Compaction, RaftPartitionGroup, PrimaryBackupPartitionGroup, LogPartitionGroup,
  AtomixCluster, PartitionGroup, PartitionGroupSpec, AtomixBenchmark, mapped_storage,
  node_aware_member_group_strategy,
}

-- A string or a number, unless it is Go's zero value.
abbrev pub or_string : String → String → String
or_string s default = if s == "" then default else s

abbrev pub or_int : ℤ → ℤ → ℤ
or_int n default = if is_zero n then default else n

-- `x == 0` of a float32: its pattern is that of +0 or -0.
abbrev pub is_zero_float32 : ℕ → Bool
is_zero_float32 x = nat_eq x 0 || nat_eq x 0x80000000

-- The float32 nearest to .2
abbrev pub point_two : ℕ
point_two = 0x3E4CCCCD

abbrev pub or_float32 : ℕ → ℕ → ℕ
or_float32 x default = if is_zero_float32 x then default else x

unfoldable pub set_defaults_storage : Storage → Storage
set_defaults_storage storage = record storage {
  size = or_string storage.size "2G";
  segment_size = or_string storage.segment_size "64M";
  entry_size = or_string storage.entry_size "1K";
  level = or_string storage.level mapped_storage;
}

unfoldable pub set_defaults_compaction : Compaction → Compaction
set_defaults_compaction compaction = record compaction {
  free_disk_buffer = or_float32 compaction.free_disk_buffer point_two;
  free_memory_buffer = or_float32 compaction.free_memory_buffer point_two;
}

unfoldable pub set_defaults_raft_partition_group : RaftPartitionGroup → RaftPartitionGroup
set_defaults_raft_partition_group group = record group {
  partition_size = or_int group.partition_size (pos 3);
  persistent = record {
    storage = set_defaults_storage group.persistent.storage;
    compaction = set_defaults_compaction group.persistent.compaction;
  };
}

unfoldable pub set_defaults_primary_backup_partition_group :
    PrimaryBackupPartitionGroup → PrimaryBackupPartitionGroup
set_defaults_primary_backup_partition_group group = record group {
  member_group_strategy = or_string group.member_group_strategy node_aware_member_group_strategy;
}

unfoldable pub set_defaults_log_partition_group : LogPartitionGroup → LogPartitionGroup
set_defaults_log_partition_group group = record group {
  member_group_strategy = or_string group.member_group_strategy node_aware_member_group_strategy;
  persistent = record {
    storage = set_defaults_storage group.persistent.storage;
    compaction = set_defaults_compaction group.persistent.compaction;
  };
}

module _ {F : Foreign} where
  unfoldable pub set_defaults_cluster : AtomixCluster F → AtomixCluster F
  set_defaults_cluster cluster = record cluster {
    spec = record (cluster.spec) {
      version = or_string cluster.spec.version "3.1.0";
      size = or_int cluster.spec.size (pos 1);
      storage = set_defaults_storage cluster.spec.storage;
    };
  }

  -- The three branches on the pointers: the first that is set gets its defaults.
  abbrev pub set_defaults_protocol : PartitionGroupSpec F → PartitionGroupSpec F
  set_defaults_protocol spec = elim spec.raft [
    | some raft ↦ record spec { raft = some (set_defaults_raft_partition_group raft) }
    | none ↦ elim spec.primary_backup [
      | some primary_backup ↦ record spec {
        primary_backup = some (set_defaults_primary_backup_partition_group primary_backup);
      }
      | none ↦ elim spec.log [
        | some log ↦ record spec { log = some (set_defaults_log_partition_group log) }
        | none ↦ spec
      ]
    ]
  ]

  unfoldable pub set_defaults_partition_group : PartitionGroup F → PartitionGroup F
  unfolding set_defaults_raft_partition_group set_defaults_primary_backup_partition_group
      set_defaults_log_partition_group
  set_defaults_partition_group group =
      let size = or_int group.spec.size (pos 1) in
      record group {
        spec = set_defaults_protocol (record (group.spec) {
          version = or_string group.spec.version "3.1.0";
          size = size;
          partitions = or_int group.spec.partitions size;
        });
      }

  unfoldable pub set_defaults_benchmark : AtomixBenchmark F → AtomixBenchmark F
  set_defaults_benchmark benchmark = record benchmark {
    spec = record (benchmark.spec) {
      version = or_string benchmark.spec.version "3.1.0";
      workers = or_int benchmark.spec.workers (pos 1);
    };
  }
