-- ===== src/V1alpha1/Json/Tags.antt =====
-- The struct tags of cluster.go, partitiongroup.go and benchmark.go. What the tags of the vendored
-- structs make of these is a parameter.
use atomix_operator.Base.{ℕ, ℤ, String, Bool, Option}
use atomix_operator.V1alpha1.Types.{Compaction, PrimaryBackupPartitionGroup}
use atomix_operator.V1alpha1.DeepCopy.Structs.{
  TypeMeta, ListMeta, StorageOf, PersistentPartitionGroupOf, RaftPartitionGroupOf,
  LogPartitionGroupOf, Status,
}
use atomix_operator.V1alpha1.Json.{Numbers}
use atomix_operator.V1alpha1.Json.Codecs.{
  Codec, string_codec, bool_codec, int_codec, float32_codec, pointer_codec,
}
use atomix_operator.V1alpha1.Json.Fields.{Fields, omitempty, ◌⊗◌, of_record, struct_codec}

abbrev pub make_storage :
    String × (Option String × (String × (String × (String × (Bool))))) → StorageOf String
make_storage (size, (class_name, (segment_size, (entry_size, (level, flush_on_commit))))) = record {
  size = size;
  class_name = class_name;
  segment_size = segment_size;
  entry_size = entry_size;
  level = level;
  flush_on_commit = flush_on_commit;
}

abbrev pub split_storage :
    StorageOf String → String × (Option String × (String × (String × (String × (Bool)))))
split_storage x =
    (x.size, (x.class_name, (x.segment_size, (x.entry_size, (x.level, x.flush_on_commit)))))

abbrev pub make_compaction : Bool × (ℕ × (ℕ)) → Compaction
make_compaction (dynamic, (free_disk_buffer, free_memory_buffer)) = record {
  dynamic = dynamic;
  free_disk_buffer = free_disk_buffer;
  free_memory_buffer = free_memory_buffer;
}

abbrev pub split_compaction : Compaction → Bool × (ℕ × (ℕ))
split_compaction x = (x.dynamic, (x.free_disk_buffer, x.free_memory_buffer))

abbrev pub make_persistent : StorageOf String × (Compaction) → PersistentPartitionGroupOf String
make_persistent (storage, compaction) = record { storage = storage; compaction = compaction }

abbrev pub split_persistent : PersistentPartitionGroupOf String → StorageOf String × (Compaction)
split_persistent x = (x.storage, x.compaction)

abbrev pub make_raft : PersistentPartitionGroupOf String × (ℤ) → RaftPartitionGroupOf String
make_raft (persistent, partition_size) = record {
  persistent = persistent;
  partition_size = partition_size;
}

abbrev pub split_raft : RaftPartitionGroupOf String → PersistentPartitionGroupOf String × (ℤ)
split_raft x = (x.persistent, x.partition_size)

abbrev pub make_primary_backup : String → PrimaryBackupPartitionGroup
make_primary_backup member_group_strategy = record { member_group_strategy = member_group_strategy }

abbrev pub split_primary_backup : PrimaryBackupPartitionGroup → String
split_primary_backup x = x.member_group_strategy

abbrev pub make_log : PersistentPartitionGroupOf String × (String) → LogPartitionGroupOf String
make_log (persistent, member_group_strategy) = record {
  persistent = persistent;
  member_group_strategy = member_group_strategy;
}

abbrev pub split_log : LogPartitionGroupOf String → PersistentPartitionGroupOf String × (String)
split_log x = (x.persistent, x.member_group_strategy)

abbrev pub make_status : String → Status
make_status service_name = record { service_name = service_name }

abbrev pub split_status : Status → String
split_status x = x.service_name

-- The vendored structs, as values, and how they are written and read.
pub record VendoredJson (N : Numbers) : Type 1 where
  pub EnvVar : Type 0
  pub ResourceRequirements : Type 0
  pub ObjectMeta : Type 0
  pub env_var : Codec N EnvVar
  pub resource_requirements : Codec N ResourceRequirements
  pub object_meta : Codec N ObjectMeta
  pub list_meta : Codec N ListMeta
  pub type_meta : Fields N TypeMeta

module _ {N : Numbers} where
  abbrev pub storage_fields : Fields N (StorageOf String)
  storage_fields =
      of_record
        (omitempty "size" string_codec
          ⊗ omitempty "className" (pointer_codec string_codec)
          ⊗ omitempty "segmentSize" string_codec
          ⊗ omitempty "entrySize" string_codec
          ⊗ omitempty "level" string_codec
          ⊗ omitempty "flushOnCommit" bool_codec)
        make_storage split_storage

  abbrev pub compaction_fields : Fields N Compaction
  compaction_fields =
      of_record
        (omitempty "dynamic" bool_codec
          ⊗ omitempty "freeDiskBuffer" float32_codec
          ⊗ omitempty "freeMemoryBuffer" float32_codec)
        make_compaction split_compaction

  abbrev pub persistent_fields : Fields N (PersistentPartitionGroupOf String)
  persistent_fields =
      of_record
        (omitempty "storage" (struct_codec storage_fields)
          ⊗ omitempty "compaction" (struct_codec compaction_fields))
        make_persistent split_persistent

  -- `json:",inline"`: the fields of the embedded struct are fields of this one.
  abbrev pub raft_fields : Fields N (RaftPartitionGroupOf String)
  raft_fields =
      of_record (persistent_fields ⊗ omitempty "partitionSize" (int_codec 63)) make_raft split_raft

  abbrev pub primary_backup_fields : Fields N PrimaryBackupPartitionGroup
  primary_backup_fields =
      of_record (omitempty "memberGroupStrategy" string_codec) make_primary_backup
        split_primary_backup

  abbrev pub log_fields : Fields N (LogPartitionGroupOf String)
  log_fields =
      of_record (persistent_fields ⊗ omitempty "memberGroupStrategy" string_codec) make_log
        split_log

  abbrev pub status_fields : Fields N Status
  status_fields = of_record (omitempty "serviceName" string_codec) make_status split_status
