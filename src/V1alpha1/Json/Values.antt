-- ===== src/V1alpha1/Json/Values.antt =====
-- The values of the structs in the operator's own terms: without TypeMeta and Status, and with a
-- slice that is nil taken as empty. What the vendored structs are there is a parameter.
use atomix_operator.Base.{String, Option, none, some, List, []}
use atomix_operator.Kube.Meta.{Foreign, ObjectMeta}
use atomix_operator.Kube.Pod.{EnvVar, ResourceRequirements}
use atomix_operator.V1alpha1.Types.{
  Storage, PersistentPartitionGroup, RaftPartitionGroup, LogPartitionGroup, AtomixCluster,
  PartitionGroup,
}
use atomix_operator.V1alpha1.DeepCopy.Structs.{
  StorageOf, PersistentPartitionGroupOf, RaftPartitionGroupOf, LogPartitionGroupOf, ResourceOf,
}
use atomix_operator.V1alpha1.Json.{Numbers}
use atomix_operator.V1alpha1.Json.Tags.{VendoredJson}
use atomix_operator.V1alpha1.Json.Resources.{ClusterSpec, GroupSpec}

pub record Vendored {N : Numbers} (V : VendoredJson N) (F : Foreign) : Type 1 where
  pub metadata : V.ObjectMeta → ObjectMeta
  pub env : List V.EnvVar → List (EnvVar F)
  pub resources : V.ResourceRequirements → ResourceRequirements F

abbrev to_storage : StorageOf String → Storage
to_storage s = record {
  size = s.size;
  class_name = s.class_name;
  segment_size = s.segment_size;
  entry_size = s.entry_size;
  level = s.level;
  flush_on_commit = s.flush_on_commit;
}

abbrev to_persistent : PersistentPartitionGroupOf String → PersistentPartitionGroup
to_persistent p = record { storage = to_storage p.storage; compaction = p.compaction }

abbrev pub to_raft : RaftPartitionGroupOf String → RaftPartitionGroup
to_raft r = record { persistent = to_persistent r.persistent; partition_size = r.partition_size }

abbrev pub to_log : LogPartitionGroupOf String → LogPartitionGroup
to_log l = record {
  persistent = to_persistent l.persistent;
  member_group_strategy = l.member_group_strategy;
}

abbrev pub map_pointer : {A B : Type 0} → (A → B) → Option A → Option B
map_pointer f none = none
map_pointer f (some a) = some (f a)

abbrev elements : {A : Type 0} → Option (List A) → List A
elements none = []
elements (some xs) = xs

module _ {N : Numbers} {V : VendoredJson N} {F : Foreign} (W : Vendored V F) where
  abbrev pub to_cluster : ResourceOf V.ObjectMeta (ClusterSpec V) → AtomixCluster F
  to_cluster x = record {
    metadata = W.metadata x.metadata;
    spec = record {
      version = x.spec.version;
      size = x.spec.size;
      env = W.env (elements x.spec.env);
      resources = W.resources x.spec.resources;
      storage = to_storage x.spec.storage;
    };
  }

  abbrev pub to_group : ResourceOf V.ObjectMeta (GroupSpec V) → PartitionGroup F
  to_group x = record {
    metadata = W.metadata x.metadata;
    spec = record {
      cluster = x.spec.cluster;
      version = x.spec.version;
      size = x.spec.size;
      partitions = x.spec.partitions;
      env = W.env (elements x.spec.env);
      resources = W.resources x.spec.resources;
      raft = map_pointer to_raft x.spec.raft;
      primary_backup = x.spec.primary_backup;
      log = map_pointer to_log x.spec.log;
    };
  }
