-- ===== src/V1alpha1/Defaults/Laws.antt =====
-- What the defaults guarantee.
use atomix_operator.Base.{
  ℕ, ◌≡◌, refl, ◌==◌, ℤ, pos, String, Option, none, some, false, arith, is_zero,
}
use atomix_operator.Kube.Meta.{Foreign}
use atomix_operator.V1alpha1.Types.{
  node_aware_member_group_strategy, Storage, Compaction, RaftPartitionGroup,
  PrimaryBackupPartitionGroup, LogPartitionGroup, AtomixCluster, PartitionGroup, AtomixBenchmark,
  get_partition_group_type,
}
use atomix_operator.V1alpha1.Defaults.{
  or_string, or_int, or_float32, point_two, set_defaults_storage, set_defaults_compaction,
  set_defaults_raft_partition_group, set_defaults_primary_backup_partition_group,
  set_defaults_log_partition_group, set_defaults_cluster, set_defaults_partition_group,
  set_defaults_benchmark,
}

-- A default that is not Go's zero value is taken once.
or_string-or_string :
    (s d : String) → (d == "") ≡ false → or_string (or_string s d) d ≡ or_string s d
or_string-or_string s d h = ground arith

or_int-or_int : (n d : ℤ) → is_zero d ≡ false → or_int (or_int n d) d ≡ or_int n d
or_int-or_int n d h = ground arith

or_float32-or_float32 :
    (x : ℕ) → or_float32 (or_float32 x point_two) point_two ≡ or_float32 x point_two
or_float32-or_float32 x = ground arith

set_defaults_storage_idem :
    (s : Storage) → set_defaults_storage (set_defaults_storage s) ≡ set_defaults_storage s
unfolding set_defaults_storage
set_defaults_storage_idem s = ground arith

set_defaults_compaction_idem :
    (c : Compaction)
    → set_defaults_compaction (set_defaults_compaction c) ≡ set_defaults_compaction c
unfolding set_defaults_compaction
set_defaults_compaction_idem c = ground arith

raft_idem :
    (r : RaftPartitionGroup)
    → set_defaults_raft_partition_group (set_defaults_raft_partition_group r)
      ≡ set_defaults_raft_partition_group r
unfolding set_defaults_raft_partition_group
raft_idem r i = record {
  partition_size = or_int-or_int r.partition_size (pos 3) refl i;
  persistent = record {
    storage = set_defaults_storage_idem r.persistent.storage i;
    compaction = set_defaults_compaction_idem r.persistent.compaction i;
  };
}

primary_backup_idem :
    (b : PrimaryBackupPartitionGroup)
    → set_defaults_primary_backup_partition_group (set_defaults_primary_backup_partition_group b)
      ≡ set_defaults_primary_backup_partition_group b
unfolding set_defaults_primary_backup_partition_group
primary_backup_idem b i = record {
  member_group_strategy =
      or_string-or_string b.member_group_strategy node_aware_member_group_strategy refl i;
}

log_idem :
    (l : LogPartitionGroup)
    → set_defaults_log_partition_group (set_defaults_log_partition_group l)
      ≡ set_defaults_log_partition_group l
unfolding set_defaults_log_partition_group
log_idem l i = record {
  member_group_strategy =
      or_string-or_string l.member_group_strategy node_aware_member_group_strategy refl i;
  persistent = record {
    storage = set_defaults_storage_idem l.persistent.storage i;
    compaction = set_defaults_compaction_idem l.persistent.compaction i;
  };
}

module _ {F : Foreign} (group : PartitionGroup F) where
  pub defaults-size :
      (set_defaults_partition_group group).spec.size ≡ or_int group.spec.size (pos 1)
  unfolding set_defaults_partition_group
  defaults-size = ground arith

  -- The defaults of a group leave its protocol as it is: the type, and the error where there is none.
  pub set_defaults-group_type :
      {E : Type 0} (errorf : String → E)
      → get_partition_group_type errorf (set_defaults_partition_group group)
        ≡ get_partition_group_type errorf group
  unfolding get_partition_group_type set_defaults_partition_group
  set_defaults-group_type errorf = ground arith

or_int-ne-zero : (n d : ℤ) → is_zero d ≡ false → is_zero (or_int n d) ≡ false
or_int-ne-zero n d h = ground arith

-- The size default is in place when the default of the partitions reads it.
partitions_idem :
    (p s : ℤ) → let t = or_int s (pos 1) in or_int (or_int p t) (or_int t (pos 1)) ≡ or_int p t
partitions_idem p s =
    rw (or_int-or_int s (pos 1) refl)
      (or_int-or_int p (or_int s (pos 1)) (or_int-ne-zero s (pos 1) refl))

module _ {F : Foreign} where
  -- Setting the defaults of a cluster twice is setting them once.
  set_defaults_cluster_idem :
      (cluster : AtomixCluster F)
      → set_defaults_cluster (set_defaults_cluster cluster) ≡ set_defaults_cluster cluster
  unfolding set_defaults_cluster
  set_defaults_cluster_idem cluster i = record cluster {
    spec = record (cluster.spec) {
      version = or_string-or_string cluster.spec.version "3.1.0" refl i;
      size = or_int-or_int cluster.spec.size (pos 1) refl i;
      storage = set_defaults_storage_idem cluster.spec.storage i;
    };
  }

  -- For every combination of the three protocols.
  group_idem_at :
      (g : PartitionGroup F) (r : Option RaftPartitionGroup)
      (b : Option PrimaryBackupPartitionGroup) (l : Option LogPartitionGroup)
      → let g' : PartitionGroup F = record g {
        spec = record (g.spec) { raft = r; primary_backup = b; log = l };
      } in
        set_defaults_partition_group (set_defaults_partition_group g')
        ≡ set_defaults_partition_group g'
  unfolding set_defaults_partition_group
  group_idem_at g (some r) b l i = record g {
    spec = record (g.spec) {
      version = or_string-or_string g.spec.version "3.1.0" refl i;
      size = or_int-or_int g.spec.size (pos 1) refl i;
      partitions = partitions_idem g.spec.partitions g.spec.size i;
      raft = some (raft_idem r i);
      primary_backup = b;
      log = l;
    };
  }
  group_idem_at g none (some b) l i = record g {
    spec = record (g.spec) {
      version = or_string-or_string g.spec.version "3.1.0" refl i;
      size = or_int-or_int g.spec.size (pos 1) refl i;
      partitions = partitions_idem g.spec.partitions g.spec.size i;
      raft = none;
      primary_backup = some (primary_backup_idem b i);
      log = l;
    };
  }
  group_idem_at g none none (some l) i = record g {
    spec = record (g.spec) {
      version = or_string-or_string g.spec.version "3.1.0" refl i;
      size = or_int-or_int g.spec.size (pos 1) refl i;
      partitions = partitions_idem g.spec.partitions g.spec.size i;
      raft = none;
      primary_backup = none;
      log = some (log_idem l i);
    };
  }
  group_idem_at g none none none i = record g {
    spec = record (g.spec) {
      version = or_string-or_string g.spec.version "3.1.0" refl i;
      size = or_int-or_int g.spec.size (pos 1) refl i;
      partitions = partitions_idem g.spec.partitions g.spec.size i;
      raft = none;
      primary_backup = none;
      log = none;
    };
  }

  -- Setting the defaults of a partition group twice is setting them once, whatever protocols it has.
  set_defaults_partition_group_idem :
      (group : PartitionGroup F)
      → set_defaults_partition_group (set_defaults_partition_group group)
        ≡ set_defaults_partition_group group
  set_defaults_partition_group_idem group =
      group_idem_at group group.spec.raft group.spec.primary_backup group.spec.log

  -- Setting the defaults of a benchmark twice is setting them once.
  set_defaults_benchmark_idem :
      (benchmark : AtomixBenchmark F)
      → set_defaults_benchmark (set_defaults_benchmark benchmark) ≡ set_defaults_benchmark benchmark
  unfolding set_defaults_benchmark
  set_defaults_benchmark_idem benchmark i = record benchmark {
    spec = record (benchmark.spec) {
      version = or_string-or_string benchmark.spec.version "3.1.0" refl i;
      workers = or_int-or_int benchmark.spec.workers (pos 1) refl i;
    };
  }

  -- Setting the defaults twice is setting them once, for clusters, for partition groups, whatever
  -- protocols they have, and for benchmarks.
  pub set_defaults_idem :
      (cluster : AtomixCluster F) (group : PartitionGroup F) (benchmark : AtomixBenchmark F)
      → (set_defaults_cluster (set_defaults_cluster cluster) ≡ set_defaults_cluster cluster)
        × (set_defaults_partition_group (set_defaults_partition_group group)
            ≡ set_defaults_partition_group group)
        × (set_defaults_benchmark (set_defaults_benchmark benchmark)
            ≡ set_defaults_benchmark benchmark)
  set_defaults_idem cluster group benchmark = (
    set_defaults_cluster_idem cluster,
    set_defaults_partition_group_idem group,
    set_defaults_benchmark_idem benchmark,
  )
