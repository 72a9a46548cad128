-- ===== src/V1alpha1/DeepCopy/Objects.antt =====
-- DeepCopy of every type, and DeepCopyObject of the types that are a runtime.Object.
use atomix_operator.Base.{Option, none, some}
use atomix_operator.V1alpha1.DeepCopy.Heap.{Vendored, Addr, M, pure, ◌>>=◌}
use atomix_operator.V1alpha1.DeepCopy.Cells.{
  storage_type, compaction_type, persistent_type, raft_type, backup_type, log_type, status_type,
  cluster_spec_type, group_spec_type, benchmark_spec_type, cluster_type, group_type, benchmark_type,
  list_type,
}
use atomix_operator.V1alpha1.DeepCopy.Into.{
  VendoredCopies, deep_copy, storage_deep_copy_into, compaction_deep_copy_into,
  persistent_partition_group_deep_copy_into, raft_partition_group_deep_copy_into,
  primary_backup_partition_group_deep_copy_into, log_partition_group_deep_copy_into,
  status_deep_copy_into, cluster_spec_deep_copy_into, partition_group_spec_deep_copy_into,
  atomix_benchmark_spec_deep_copy_into, atomix_cluster_deep_copy_into,
  partition_group_deep_copy_into, atomix_benchmark_deep_copy_into,
  atomix_cluster_list_deep_copy_into, partition_group_list_deep_copy_into,
  atomix_benchmark_list_deep_copy_into,
}

module _ {V : Vendored} where
  abbrev pub storage_deep_copy : Option Addr → M V (Option Addr)
  storage_deep_copy = deep_copy storage_type storage_deep_copy_into

  abbrev pub compaction_deep_copy : Option Addr → M V (Option Addr)
  compaction_deep_copy = deep_copy compaction_type compaction_deep_copy_into

  abbrev pub persistent_partition_group_deep_copy : Option Addr → M V (Option Addr)
  persistent_partition_group_deep_copy =
      deep_copy persistent_type persistent_partition_group_deep_copy_into

  abbrev pub raft_partition_group_deep_copy : Option Addr → M V (Option Addr)
  raft_partition_group_deep_copy = deep_copy raft_type raft_partition_group_deep_copy_into

  abbrev pub primary_backup_partition_group_deep_copy : Option Addr → M V (Option Addr)
  primary_backup_partition_group_deep_copy =
      deep_copy backup_type primary_backup_partition_group_deep_copy_into

  abbrev pub log_partition_group_deep_copy : Option Addr → M V (Option Addr)
  log_partition_group_deep_copy = deep_copy log_type log_partition_group_deep_copy_into

  -- ClusterStatus, PartitionGroupStatus and AtomixBenchmarkStatus.
  abbrev pub status_deep_copy : Option Addr → M V (Option Addr)
  status_deep_copy = deep_copy status_type status_deep_copy_into

-- The dynamic type of a runtime.Object.
pub data ObjectType : Type 0 where
  cluster_object group_object benchmark_object : ObjectType
  cluster_list_object group_list_object benchmark_list_object : ObjectType

-- An interface value: nil, or a type and a pointer.
abbrev pub Object : Type 0
Object = Option (ObjectType × Addr)

-- `if c := in.DeepCopy(); c != nil { return c }; return nil`
abbrev pub as_object : ObjectType → Option Addr → Object
as_object k none = none
as_object k (some p) = some (k, p)

module _ {V : Vendored} (C : VendoredCopies V) where
  abbrev pub cluster_spec_deep_copy : Option Addr → M V (Option Addr)
  cluster_spec_deep_copy = deep_copy cluster_spec_type (cluster_spec_deep_copy_into C)

  abbrev pub partition_group_spec_deep_copy : Option Addr → M V (Option Addr)
  partition_group_spec_deep_copy = deep_copy group_spec_type (partition_group_spec_deep_copy_into C)

  abbrev pub atomix_benchmark_spec_deep_copy : Option Addr → M V (Option Addr)
  atomix_benchmark_spec_deep_copy =
      deep_copy benchmark_spec_type (atomix_benchmark_spec_deep_copy_into C)

  abbrev pub atomix_cluster_deep_copy : Option Addr → M V (Option Addr)
  atomix_cluster_deep_copy = deep_copy cluster_type (atomix_cluster_deep_copy_into C)

  abbrev pub partition_group_deep_copy : Option Addr → M V (Option Addr)
  partition_group_deep_copy = deep_copy group_type (partition_group_deep_copy_into C)

  abbrev pub atomix_benchmark_deep_copy : Option Addr → M V (Option Addr)
  atomix_benchmark_deep_copy = deep_copy benchmark_type (atomix_benchmark_deep_copy_into C)

  abbrev pub atomix_cluster_list_deep_copy : Option Addr → M V (Option Addr)
  atomix_cluster_list_deep_copy = deep_copy list_type (atomix_cluster_list_deep_copy_into C)

  abbrev pub partition_group_list_deep_copy : Option Addr → M V (Option Addr)
  partition_group_list_deep_copy = deep_copy list_type (partition_group_list_deep_copy_into C)

  abbrev pub atomix_benchmark_list_deep_copy : Option Addr → M V (Option Addr)
  atomix_benchmark_list_deep_copy = deep_copy list_type (atomix_benchmark_list_deep_copy_into C)

  abbrev pub atomix_cluster_deep_copy_object : Option Addr → M V Object
  atomix_cluster_deep_copy_object p = do
    c ← atomix_cluster_deep_copy p
    pure (as_object cluster_object c)

  abbrev pub partition_group_deep_copy_object : Option Addr → M V Object
  partition_group_deep_copy_object p = do
    c ← partition_group_deep_copy p
    pure (as_object group_object c)

  abbrev pub atomix_benchmark_deep_copy_object : Option Addr → M V Object
  atomix_benchmark_deep_copy_object p = do
    c ← atomix_benchmark_deep_copy p
    pure (as_object benchmark_object c)

  abbrev pub atomix_cluster_list_deep_copy_object : Option Addr → M V Object
  atomix_cluster_list_deep_copy_object p = do
    c ← atomix_cluster_list_deep_copy p
    pure (as_object cluster_list_object c)

  abbrev pub partition_group_list_deep_copy_object : Option Addr → M V Object
  partition_group_list_deep_copy_object p = do
    c ← partition_group_list_deep_copy p
    pure (as_object group_list_object c)

  abbrev pub atomix_benchmark_list_deep_copy_object : Option Addr → M V Object
  atomix_benchmark_list_deep_copy_object p = do
    c ← atomix_benchmark_list_deep_copy p
    pure (as_object benchmark_list_object c)

  -- The call of the method through the interface.
  abbrev pub deep_copy_object : ObjectType → Option Addr → M V Object
  deep_copy_object cluster_object = atomix_cluster_deep_copy_object
  deep_copy_object group_object = partition_group_deep_copy_object
  deep_copy_object benchmark_object = atomix_benchmark_deep_copy_object
  deep_copy_object cluster_list_object = atomix_cluster_list_deep_copy_object
  deep_copy_object group_list_object = partition_group_list_deep_copy_object
  deep_copy_object benchmark_list_object = atomix_benchmark_list_deep_copy_object
