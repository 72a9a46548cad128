-- ===== src/Tests/Samples.antt =====
-- A cluster, three groups and a benchmark, as a user might write them, and what a server holds that
-- stores them.
use atomix_operator.Base.{ℤ, pos, String, false, Option, some, none, []}
use atomix_operator.Kube.Meta.{NamespacedName, new_object_meta}
use atomix_operator.V1alpha1.Types.{
  Storage, PersistentPartitionGroup, AtomixCluster, PartitionGroup, RaftPartitionGroup,
  PrimaryBackupPartitionGroup, LogPartitionGroup, AtomixBenchmark,
}
use atomix_operator.Controller.Client.{
  Kind, ObjectOf, atomix_cluster, partition_group, atomix_benchmark,
}
use atomix_operator.Tests.Memory.{foreign, World, put}

abbrev unset_storage : Storage
unset_storage = record {
  size = "";
  class_name = none;
  segment_size = "";
  entry_size = "";
  level = "";
  flush_on_commit = false;
}

abbrev unset_persistent : PersistentPartitionGroup
unset_persistent = record {
  storage = unset_storage;
  compaction = record { dynamic = false; free_disk_buffer = 0; free_memory_buffer = 0 };
}

abbrev cluster_with : ℤ → String → AtomixCluster foreign
cluster_with size storage_size = record {
  metadata = new_object_meta "example" "default" [] [];
  spec = record {
    version = "";
    size = size;
    env = [];
    resources = record { limits = []; requests = [] };
    storage = record unset_storage { size = storage_size };
  };
}

abbrev pub three_nodes : AtomixCluster foreign
three_nodes = cluster_with (pos 3) ""

-- With a storage size that the platform refuses.
abbrev pub unparsed : AtomixCluster foreign
unparsed = cluster_with (pos 3) "many"

module _ (raft : Option RaftPartitionGroup) (primary_backup : Option PrimaryBackupPartitionGroup)
    (log : Option LogPartitionGroup) where
  abbrev pub group_of : PartitionGroup foreign
  group_of = record {
    metadata = new_object_meta "values" "default" [] [];
    spec = record {
      cluster = "example";
      version = "";
      size = pos 4;
      partitions = pos 7;
      env = [];
      resources = record { limits = []; requests = [] };
      raft = raft;
      primary_backup = primary_backup;
      log = log;
    };
  }

abbrev pub raft_group : PartitionGroup foreign
raft_group =
    group_of (some (record { persistent = unset_persistent; partition_size = pos 0 })) none none

abbrev pub backup_group : PartitionGroup foreign
backup_group = group_of none (some (record { member_group_strategy = "" })) none

abbrev pub log_group : PartitionGroup foreign
log_group =
    group_of none none (some (record { persistent = unset_persistent; member_group_strategy = "" }))

abbrev pub bare_group : PartitionGroup foreign
bare_group = group_of none none none

abbrev pub benchmark : AtomixBenchmark foreign
benchmark = record {
  metadata = new_object_meta "load" "default" [] [];
  spec = record {
    cluster = "example";
    version = "";
    workers = pos 2;
    env = [];
    resources = record { limits = []; requests = [] };
  };
}

abbrev pub in_default : String → NamespacedName
in_default name = record { namespace = "default"; name = name }

abbrev nothing : World
nothing k n = none

-- What a server holds that stores one object.
abbrev pub with_object : (k : Kind) → ObjectOf foreign k → World
with_object k x = put k x nothing

abbrev pub with_cluster : World
with_cluster = with_object atomix_cluster three_nodes

abbrev pub with_group : World
with_group = with_object partition_group log_group

abbrev pub with_benchmark : World
with_benchmark = with_object atomix_benchmark benchmark
