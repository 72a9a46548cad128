-- ===== src/V1alpha1/DeepCopy/Into.antt =====
-- DeepCopyInto of every type. `DeepCopyInto(out)` begins with `*out = *in`, so what it
-- gives back is the struct that it leaves in `out`; where this is a field of a new cell, the cell is
-- made first and written once, with the copy.
use atomix_operator.Base.{Option, none, some, List, [], ◌∷◌}
use atomix_operator.V1alpha1.Types.{Compaction, PrimaryBackupPartitionGroup}
use atomix_operator.V1alpha1.DeepCopy.Structs.{
  StorageOf, PersistentPartitionGroupOf, RaftPartitionGroupOf, LogPartitionGroupOf, Status,
  ResourceOf, ResourceListOf,
}
use atomix_operator.V1alpha1.DeepCopy.Heap.{
  Vendored, Addr, AtomixClusterList, PartitionGroupList, AtomixBenchmarkList, ClusterSpec,
  PartitionGroupSpec, BenchmarkSpec, AtomixCluster, PartitionGroup, AtomixBenchmark, CellType, M,
  pure, ◌>>=◌, ◌>>◌, new, store, load,
}
use atomix_operator.V1alpha1.DeepCopy.Cells.{
  string_type, env_type, raft_type, backup_type, log_type, clusters_type, groups_type,
  benchmarks_type,
}

module _ {V : Vendored} where
  -- `out := new(T); in.DeepCopyInto(out)`, and the same for an array by `make`.
  unfoldable pub new_copy : {T : Type 0} → CellType V T → (T → M V T) → Addr → M V Addr
  new_copy t deep_copy_into p = do q ← new; x ← load t p; y ← deep_copy_into x; store t q y; pure q

  -- Nothing for nil: `DeepCopy`, and the same test for a field that is a pointer or a slice.
  unfoldable pub deep_copy :
      {T : Type 0} → CellType V T → (T → M V T) → Option Addr → M V (Option Addr)
  unfolding new_copy
  deep_copy t deep_copy_into none = pure none
  deep_copy t deep_copy_into (some p) = do q ← new_copy t deep_copy_into p; pure (some q)

  -- The loop over the elements of a slice.
  unfoldable pub copy_elements : {T : Type 0} → (T → M V T) → List T → M V (List T)
  copy_elements deep_copy_into [] = pure []
  copy_elements deep_copy_into (x ∷ xs) = do
    y ← deep_copy_into x
    ys ← copy_elements deep_copy_into xs
    pure (y ∷ ys)

  unfoldable pub storage_deep_copy_into : StorageOf Addr → M V (StorageOf Addr)
  storage_deep_copy_into s = do
    class_name ← deep_copy string_type pure s.class_name
    pure (record s { class_name = class_name })

  abbrev pub compaction_deep_copy_into : Compaction → M V Compaction
  compaction_deep_copy_into = pure

  unfoldable pub persistent_partition_group_deep_copy_into :
      PersistentPartitionGroupOf Addr → M V (PersistentPartitionGroupOf Addr)
  persistent_partition_group_deep_copy_into group = do
    storage ← storage_deep_copy_into group.storage
    pure (record group { storage = storage })

  unfoldable pub raft_partition_group_deep_copy_into :
      RaftPartitionGroupOf Addr → M V (RaftPartitionGroupOf Addr)
  raft_partition_group_deep_copy_into group = do
    persistent ← persistent_partition_group_deep_copy_into group.persistent
    pure (record group { persistent = persistent })

  abbrev pub primary_backup_partition_group_deep_copy_into :
      PrimaryBackupPartitionGroup → M V PrimaryBackupPartitionGroup
  primary_backup_partition_group_deep_copy_into = pure

  unfoldable pub log_partition_group_deep_copy_into :
      LogPartitionGroupOf Addr → M V (LogPartitionGroupOf Addr)
  log_partition_group_deep_copy_into group = do
    persistent ← persistent_partition_group_deep_copy_into group.persistent
    pure (record group { persistent = persistent })

  -- ClusterStatus, PartitionGroupStatus and AtomixBenchmarkStatus.
  abbrev pub status_deep_copy_into : Status → M V Status
  status_deep_copy_into = pure

  -- What AtomixCluster, PartitionGroup and AtomixBenchmark share, and their lists.
  unfoldable pub resource_deep_copy_into :
      {Meta Spec : Type 0}
      → (Meta → M V Meta)
      → (Spec → M V Spec)
      → ResourceOf Meta Spec
      → M V (ResourceOf Meta Spec)
  resource_deep_copy_into object_meta_deep_copy_into spec_deep_copy_into x = do
    metadata ← object_meta_deep_copy_into x.metadata
    spec ← spec_deep_copy_into x.spec
    pure (record x { metadata = metadata; spec = spec })

  unfoldable pub list_deep_copy_into :
      {T : Type 0}
      → CellType V (List T)
      → (T → M V T)
      → ResourceListOf Addr
      → M V (ResourceListOf Addr)
  list_deep_copy_into t deep_copy_into x = do
    items ← deep_copy t (copy_elements deep_copy_into) x.items
    pure (record x { items = items })

-- DeepCopyInto of the vendored structs.
pub record VendoredCopies (V : Vendored) : Type 0 where
  pub env_var_deep_copy_into : V.EnvVar → M V V.EnvVar
  pub resource_requirements_deep_copy_into : V.ResourceRequirements → M V V.ResourceRequirements
  pub object_meta_deep_copy_into : V.ObjectMeta → M V V.ObjectMeta

module _ {V : Vendored} (C : VendoredCopies V) where
  -- The field `Env` of the three specifications.
  abbrev pub env_deep_copy : Option Addr → M V (Option Addr)
  env_deep_copy = deep_copy env_type (copy_elements C.env_var_deep_copy_into)

  unfoldable pub cluster_spec_deep_copy_into : ClusterSpec V → M V (ClusterSpec V)
  cluster_spec_deep_copy_into spec = do
    env ← env_deep_copy spec.env
    resources ← C.resource_requirements_deep_copy_into spec.resources
    storage ← storage_deep_copy_into spec.storage
    pure (record spec { env = env; resources = resources; storage = storage })

  unfoldable pub partition_group_spec_deep_copy_into :
      PartitionGroupSpec V → M V (PartitionGroupSpec V)
  partition_group_spec_deep_copy_into spec = do
    env ← env_deep_copy spec.env
    resources ← C.resource_requirements_deep_copy_into spec.resources
    raft ← deep_copy raft_type raft_partition_group_deep_copy_into spec.raft
    primary_backup ←
        deep_copy backup_type primary_backup_partition_group_deep_copy_into spec.primary_backup
    log ← deep_copy log_type log_partition_group_deep_copy_into spec.log
    pure (record spec {
      env = env;
      resources = resources;
      raft = raft;
      primary_backup = primary_backup;
      log = log;
    })

  unfoldable pub atomix_benchmark_spec_deep_copy_into : BenchmarkSpec V → M V (BenchmarkSpec V)
  atomix_benchmark_spec_deep_copy_into spec = do
    env ← env_deep_copy spec.env
    resources ← C.resource_requirements_deep_copy_into spec.resources
    pure (record spec { env = env; resources = resources })

  abbrev pub atomix_cluster_deep_copy_into : AtomixCluster V → M V (AtomixCluster V)
  atomix_cluster_deep_copy_into =
      resource_deep_copy_into C.object_meta_deep_copy_into cluster_spec_deep_copy_into

  abbrev pub partition_group_deep_copy_into : PartitionGroup V → M V (PartitionGroup V)
  partition_group_deep_copy_into =
      resource_deep_copy_into C.object_meta_deep_copy_into partition_group_spec_deep_copy_into

  abbrev pub atomix_benchmark_deep_copy_into : AtomixBenchmark V → M V (AtomixBenchmark V)
  atomix_benchmark_deep_copy_into =
      resource_deep_copy_into C.object_meta_deep_copy_into atomix_benchmark_spec_deep_copy_into

  abbrev pub atomix_cluster_list_deep_copy_into : AtomixClusterList → M V AtomixClusterList
  atomix_cluster_list_deep_copy_into =
      list_deep_copy_into clusters_type atomix_cluster_deep_copy_into

  abbrev pub partition_group_list_deep_copy_into : PartitionGroupList → M V PartitionGroupList
  partition_group_list_deep_copy_into =
      list_deep_copy_into groups_type partition_group_deep_copy_into

  abbrev pub atomix_benchmark_list_deep_copy_into : AtomixBenchmarkList → M V AtomixBenchmarkList
  atomix_benchmark_list_deep_copy_into =
      list_deep_copy_into benchmarks_type atomix_benchmark_deep_copy_into
