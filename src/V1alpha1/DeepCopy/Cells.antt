-- ===== src/V1alpha1/DeepCopy/Cells.antt =====
-- The Go types that stand in cells.
use atomix_operator.Base.{String, Option, none, some, List, refl}
use atomix_operator.V1alpha1.Types.{Compaction, PrimaryBackupPartitionGroup}
use atomix_operator.V1alpha1.DeepCopy.Structs.{
  StorageOf, PersistentPartitionGroupOf, RaftPartitionGroupOf, LogPartitionGroupOf, Status,
  ResourceListOf,
}
use atomix_operator.V1alpha1.DeepCopy.Heap.{
  Vendored, Addr, ClusterSpec, PartitionGroupSpec, BenchmarkSpec, AtomixCluster, PartitionGroup,
  AtomixBenchmark, Cell, CellType, string_cell, env_cell, storage_cell, compaction_cell,
  persistent_cell, raft_cell, backup_cell, log_cell, status_cell, cluster_spec_cell, cluster_cell,
  clusters_cell, group_spec_cell, group_cell, groups_cell, benchmark_spec_cell, benchmark_cell,
  benchmarks_cell, list_cell, kept_cell,
}

module _ {V : Vendored} where
  abbrev string_in : Cell V → Option (String)
  string_in (string_cell x) = some x
  string_in _ = none

  abbrev pub string_type : CellType V (String)
  string_type = record { inject = string_cell; project = string_in; project-inject = λ x. refl }

  abbrev env_in : Cell V → Option (List V.EnvVar)
  env_in (env_cell x) = some x
  env_in _ = none

  abbrev pub env_type : CellType V (List V.EnvVar)
  env_type = record { inject = env_cell; project = env_in; project-inject = λ x. refl }

  abbrev storage_in : Cell V → Option (StorageOf Addr)
  storage_in (storage_cell x) = some x
  storage_in _ = none

  abbrev pub storage_type : CellType V (StorageOf Addr)
  storage_type = record { inject = storage_cell; project = storage_in; project-inject = λ x. refl }

  abbrev compaction_in : Cell V → Option (Compaction)
  compaction_in (compaction_cell x) = some x
  compaction_in _ = none

  abbrev pub compaction_type : CellType V (Compaction)
  compaction_type = record {
    inject = compaction_cell;
    project = compaction_in;
    project-inject = λ x. refl;
  }

  abbrev persistent_in : Cell V → Option (PersistentPartitionGroupOf Addr)
  persistent_in (persistent_cell x) = some x
  persistent_in _ = none

  abbrev pub persistent_type : CellType V (PersistentPartitionGroupOf Addr)
  persistent_type = record {
    inject = persistent_cell;
    project = persistent_in;
    project-inject = λ x. refl;
  }

  abbrev raft_in : Cell V → Option (RaftPartitionGroupOf Addr)
  raft_in (raft_cell x) = some x
  raft_in _ = none

  abbrev pub raft_type : CellType V (RaftPartitionGroupOf Addr)
  raft_type = record { inject = raft_cell; project = raft_in; project-inject = λ x. refl }

  abbrev backup_in : Cell V → Option (PrimaryBackupPartitionGroup)
  backup_in (backup_cell x) = some x
  backup_in _ = none

  abbrev pub backup_type : CellType V (PrimaryBackupPartitionGroup)
  backup_type = record { inject = backup_cell; project = backup_in; project-inject = λ x. refl }

  abbrev log_in : Cell V → Option (LogPartitionGroupOf Addr)
  log_in (log_cell x) = some x
  log_in _ = none

  abbrev pub log_type : CellType V (LogPartitionGroupOf Addr)
  log_type = record { inject = log_cell; project = log_in; project-inject = λ x. refl }

  abbrev status_in : Cell V → Option (Status)
  status_in (status_cell x) = some x
  status_in _ = none

  abbrev pub status_type : CellType V (Status)
  status_type = record { inject = status_cell; project = status_in; project-inject = λ x. refl }

  abbrev cluster_spec_in : Cell V → Option (ClusterSpec V)
  cluster_spec_in (cluster_spec_cell x) = some x
  cluster_spec_in _ = none

  abbrev pub cluster_spec_type : CellType V (ClusterSpec V)
  cluster_spec_type = record {
    inject = cluster_spec_cell;
    project = cluster_spec_in;
    project-inject = λ x. refl;
  }

  abbrev cluster_in : Cell V → Option (AtomixCluster V)
  cluster_in (cluster_cell x) = some x
  cluster_in _ = none

  abbrev pub cluster_type : CellType V (AtomixCluster V)
  cluster_type = record { inject = cluster_cell; project = cluster_in; project-inject = λ x. refl }

  abbrev clusters_in : Cell V → Option (List (AtomixCluster V))
  clusters_in (clusters_cell x) = some x
  clusters_in _ = none

  abbrev pub clusters_type : CellType V (List (AtomixCluster V))
  clusters_type = record {
    inject = clusters_cell;
    project = clusters_in;
    project-inject = λ x. refl;
  }

  abbrev group_spec_in : Cell V → Option (PartitionGroupSpec V)
  group_spec_in (group_spec_cell x) = some x
  group_spec_in _ = none

  abbrev pub group_spec_type : CellType V (PartitionGroupSpec V)
  group_spec_type = record {
    inject = group_spec_cell;
    project = group_spec_in;
    project-inject = λ x. refl;
  }

  abbrev group_in : Cell V → Option (PartitionGroup V)
  group_in (group_cell x) = some x
  group_in _ = none

  abbrev pub group_type : CellType V (PartitionGroup V)
  group_type = record { inject = group_cell; project = group_in; project-inject = λ x. refl }

  abbrev groups_in : Cell V → Option (List (PartitionGroup V))
  groups_in (groups_cell x) = some x
  groups_in _ = none

  abbrev pub groups_type : CellType V (List (PartitionGroup V))
  groups_type = record { inject = groups_cell; project = groups_in; project-inject = λ x. refl }

  abbrev benchmark_spec_in : Cell V → Option (BenchmarkSpec V)
  benchmark_spec_in (benchmark_spec_cell x) = some x
  benchmark_spec_in _ = none

  abbrev pub benchmark_spec_type : CellType V (BenchmarkSpec V)
  benchmark_spec_type = record {
    inject = benchmark_spec_cell;
    project = benchmark_spec_in;
    project-inject = λ x. refl;
  }

  abbrev benchmark_in : Cell V → Option (AtomixBenchmark V)
  benchmark_in (benchmark_cell x) = some x
  benchmark_in _ = none

  abbrev pub benchmark_type : CellType V (AtomixBenchmark V)
  benchmark_type = record {
    inject = benchmark_cell;
    project = benchmark_in;
    project-inject = λ x. refl;
  }

  abbrev benchmarks_in : Cell V → Option (List (AtomixBenchmark V))
  benchmarks_in (benchmarks_cell x) = some x
  benchmarks_in _ = none

  abbrev pub benchmarks_type : CellType V (List (AtomixBenchmark V))
  benchmarks_type = record {
    inject = benchmarks_cell;
    project = benchmarks_in;
    project-inject = λ x. refl;
  }

  abbrev list_in : Cell V → Option (ResourceListOf Addr)
  list_in (list_cell x) = some x
  list_in _ = none

  abbrev pub list_type : CellType V (ResourceListOf Addr)
  list_type = record { inject = list_cell; project = list_in; project-inject = λ x. refl }

  abbrev kept_in : Cell V → Option (V.Kept)
  kept_in (kept_cell x) = some x
  kept_in _ = none

  abbrev pub kept_type : CellType V (V.Kept)
  kept_type = record { inject = kept_cell; project = kept_in; project-inject = λ x. refl }
