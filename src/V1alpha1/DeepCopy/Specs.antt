-- ===== src/V1alpha1/DeepCopy/Specs.antt =====
-- The specifications: what they stand for, over what the vendored structs stand for.
use atomix_operator.Base.{String, List, Option, ◌≤◌, ◌≡◌}
use atomix_operator.V1alpha1.Types.{PrimaryBackupPartitionGroup}
use atomix_operator.V1alpha1.DeepCopy.Structs.{
  RaftPartitionGroupOf, LogPartitionGroupOf, ClusterSpecOf, PartitionGroupSpecOf, BenchmarkSpecOf,
}
use atomix_operator.V1alpha1.DeepCopy.Heap.{
  Vendored, Addr, Heap, ClusterSpec, PartitionGroupSpec, BenchmarkSpec,
}
use atomix_operator.V1alpha1.DeepCopy.Cells.{env_type, raft_type, backup_type, log_type}
use atomix_operator.V1alpha1.DeepCopy.Represents.{Same, Representation, plain}
use atomix_operator.V1alpha1.DeepCopy.Pointers.{pointer, elements}
use atomix_operator.V1alpha1.DeepCopy.Protocols.{raft, log, storage}
use atomix_operator.V1alpha1.DeepCopy.Vendored.{VendoredValues}

module _ {V : Vendored} where
  abbrev pub rafts : Representation V (Option Addr) (Option (RaftPartitionGroupOf String))
  rafts = pointer raft_type raft

  abbrev pub backups : Representation V (Option Addr) (Option PrimaryBackupPartitionGroup)
  backups = pointer backup_type (plain PrimaryBackupPartitionGroup)

  abbrev pub logs : Representation V (Option Addr) (Option (LogPartitionGroupOf String))
  logs = pointer log_type log

module _ {V : Vendored} (W : VendoredValues V) where
  abbrev pub envs : Representation V (Option Addr) (Option (List W.EnvVar))
  envs = pointer env_type (elements W.env_var)

  pub record IsClusterSpec (h : Heap V) (lo hi : Addr) (x : ClusterSpec V)
      (w : ClusterSpecOf String (List W.EnvVar) W.ResourceRequirements) : Type 0 where
    pub version : x.version ≡ w.version
    pub size : x.size ≡ w.size
    pub env : (envs).Is h lo hi x.env w.env
    pub resources : (W.resource_requirements).Is h lo hi x.resources w.resources
    pub storage : (storage).Is h lo hi x.storage w.storage

  pub IsClusterSpec-frame :
      (h g : Heap V) (lo hi lo' hi' : Addr) (x : ClusterSpec V)
      (w : ClusterSpecOf String (List W.EnvVar) W.ResourceRequirements)
      → lo' ≤ lo
      → hi ≤ hi'
      → Same lo hi h g
      → IsClusterSpec h lo hi x w
      → IsClusterSpec g lo' hi' x w
  IsClusterSpec-frame h g lo hi lo' hi' x w below above same s = record {
    version = s.version;
    size = s.size;
    env = (envs).frame h g lo hi lo' hi' x.env w.env below above same s.env;
    resources =
        (W.resource_requirements).frame h g lo hi lo' hi' x.resources w.resources below above same
          s.resources;
    storage = (storage).frame h g lo hi lo' hi' x.storage w.storage below above same s.storage;
  }

  abbrev pub cluster_spec :
      Representation V (ClusterSpec V) (ClusterSpecOf String (List W.EnvVar) W.ResourceRequirements)
  cluster_spec = record { Is = IsClusterSpec; frame = IsClusterSpec-frame }

  pub record IsGroupSpec (h : Heap V) (lo hi : Addr) (x : PartitionGroupSpec V)
      (w : PartitionGroupSpecOf
        (List W.EnvVar)
        W.ResourceRequirements
        (RaftPartitionGroupOf String)
        PrimaryBackupPartitionGroup
        (LogPartitionGroupOf String))
      : Type 0 where
    pub cluster : x.cluster ≡ w.cluster
    pub version : x.version ≡ w.version
    pub size : x.size ≡ w.size
    pub partitions : x.partitions ≡ w.partitions
    pub env : (envs).Is h lo hi x.env w.env
    pub resources : (W.resource_requirements).Is h lo hi x.resources w.resources
    pub raft : (rafts).Is h lo hi x.raft w.raft
    pub primary_backup : (backups).Is h lo hi x.primary_backup w.primary_backup
    pub log : (logs).Is h lo hi x.log w.log

  pub IsGroupSpec-frame :
      (h g : Heap V) (lo hi lo' hi' : Addr) (x : PartitionGroupSpec V)
      (w : PartitionGroupSpecOf
        (List W.EnvVar)
        W.ResourceRequirements
        (RaftPartitionGroupOf String)
        PrimaryBackupPartitionGroup
        (LogPartitionGroupOf String))
      → lo' ≤ lo
      → hi ≤ hi'
      → Same lo hi h g
      → IsGroupSpec h lo hi x w
      → IsGroupSpec g lo' hi' x w
  IsGroupSpec-frame h g lo hi lo' hi' x w below above same s = record {
    cluster = s.cluster;
    version = s.version;
    size = s.size;
    partitions = s.partitions;
    env = (envs).frame h g lo hi lo' hi' x.env w.env below above same s.env;
    resources =
        (W.resource_requirements).frame h g lo hi lo' hi' x.resources w.resources below above same
          s.resources;
    raft = (rafts).frame h g lo hi lo' hi' x.raft w.raft below above same s.raft;
    primary_backup =
        (backups).frame h g lo hi lo' hi' x.primary_backup w.primary_backup below above same
          s.primary_backup;
    log = (logs).frame h g lo hi lo' hi' x.log w.log below above same s.log;
  }

  abbrev pub group_spec : Representation V (PartitionGroupSpec V) (
      PartitionGroupSpecOf
        (List W.EnvVar)
        W.ResourceRequirements
        (RaftPartitionGroupOf String)
        PrimaryBackupPartitionGroup
        (LogPartitionGroupOf String))
  group_spec = record { Is = IsGroupSpec; frame = IsGroupSpec-frame }

  pub record IsBenchmarkSpec (h : Heap V) (lo hi : Addr) (x : BenchmarkSpec V)
      (w : BenchmarkSpecOf (List W.EnvVar) W.ResourceRequirements) : Type 0 where
    pub cluster : x.cluster ≡ w.cluster
    pub version : x.version ≡ w.version
    pub workers : x.workers ≡ w.workers
    pub env : (envs).Is h lo hi x.env w.env
    pub resources : (W.resource_requirements).Is h lo hi x.resources w.resources

  pub IsBenchmarkSpec-frame :
      (h g : Heap V) (lo hi lo' hi' : Addr) (x : BenchmarkSpec V)
      (w : BenchmarkSpecOf (List W.EnvVar) W.ResourceRequirements)
      → lo' ≤ lo
      → hi ≤ hi'
      → Same lo hi h g
      → IsBenchmarkSpec h lo hi x w
      → IsBenchmarkSpec g lo' hi' x w
  IsBenchmarkSpec-frame h g lo hi lo' hi' x w below above same s = record {
    cluster = s.cluster;
    version = s.version;
    workers = s.workers;
    env = (envs).frame h g lo hi lo' hi' x.env w.env below above same s.env;
    resources =
        (W.resource_requirements).frame h g lo hi lo' hi' x.resources w.resources below above same
          s.resources;
  }

  abbrev pub benchmark_spec :
      Representation V (BenchmarkSpec V) (BenchmarkSpecOf (List W.EnvVar) W.ResourceRequirements)
  benchmark_spec = record { Is = IsBenchmarkSpec; frame = IsBenchmarkSpec-frame }
