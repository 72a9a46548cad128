-- ===== src/V1alpha1/Json/Structs.antt =====
-- The values of the structs that are read back as they were written.
use atomix_operator.Base.{ℕ, refl, String, Option, none, some}
use atomix_operator.V1alpha1.Types.{Compaction}
use atomix_operator.V1alpha1.DeepCopy.Structs.{
  PersistentPartitionGroupOf, RaftPartitionGroupOf, LogPartitionGroupOf,
}
use atomix_operator.V1alpha1.Json.{Numbers}
use atomix_operator.V1alpha1.Json.Codecs.{
  string_codec, bool_codec, int_codec, float32_codec, pointer_codec,
}
use atomix_operator.V1alpha1.Json.Codecs.Laws.{
  LawfulNumbers, AnyValue, IsOfWidth, IsPlainFloat32, IsGoodPointer, string-Lawful,
  string-EmptyIsZero, string-IsNotNull, bool-Lawful, bool-EmptyIsZero, int-Lawful, int-EmptyIsZero,
  float32-Lawful, float32-EmptyIsZero, pointer-Lawful, pointer-EmptyIsZero,
}
use atomix_operator.V1alpha1.Json.Fields.{Fields, omitempty, struct_codec}
use atomix_operator.V1alpha1.Json.Fields.Laws.{
  LawfulFields, omitempty-LawfulFields, both-LawfulFields, of_record-LawfulFields, struct-Lawful,
  struct-IsNotNull, struct-EmptyIsZero,
}
use atomix_operator.V1alpha1.Json.Tags.{
  make_storage, split_storage, make_compaction, split_compaction, make_persistent, split_persistent,
  make_raft, split_raft, make_primary_backup, split_primary_backup, make_log, split_log,
  make_status, split_status, storage_fields, compaction_fields, persistent_fields, raft_fields,
  primary_backup_fields, log_fields, status_fields,
}

-- Numbers in the range of Go's types, and float32 numbers that have a literal and are not -0.
module _ (N : Numbers) where
  abbrev pub IsGoodCompaction : Compaction → Type 0
  IsGoodCompaction c = IsPlainFloat32 N c.free_disk_buffer × IsPlainFloat32 N c.free_memory_buffer

  abbrev pub IsGoodPersistent : PersistentPartitionGroupOf String → Type 0
  IsGoodPersistent p = IsGoodCompaction p.compaction

  abbrev pub IsGoodRaft : RaftPartitionGroupOf String → Type 0
  IsGoodRaft r = IsGoodPersistent r.persistent × IsOfWidth 63 r.partition_size

  abbrev pub IsGoodLog : LogPartitionGroupOf String → Type 0
  IsGoodLog l = IsGoodPersistent l.persistent

module _ {N : Numbers} where
  pub struct_field :
      {A : Type 0} (key : String) (p : Fields N A) (IsGood : A → Type 0)
      → LawfulFields p IsGood
      → LawfulFields (omitempty key (struct_codec p)) IsGood
  struct_field key p IsGood l =
      omitempty-LawfulFields key (struct_codec p) IsGood (struct-Lawful p IsGood l)
        (struct-EmptyIsZero p IsGood)

  pub pointer_field :
      {A : Type 0} (key : String) (p : Fields N A) (IsGood : A → Type 0)
      → LawfulFields p IsGood
      → LawfulFields (omitempty key (pointer_codec (struct_codec p))) (IsGoodPointer IsGood)
  pointer_field key p IsGood l =
      omitempty-LawfulFields key (pointer_codec (struct_codec p)) (IsGoodPointer IsGood)
        (pointer-Lawful (struct_codec p) IsGood (struct-Lawful p IsGood l) (struct-IsNotNull p))
        (pointer-EmptyIsZero (struct_codec p) IsGood)

module _ (N : Numbers) where
  pub string_field : (key : String) → LawfulFields (omitempty {N = N} key string_codec) AnyValue
  string_field key =
      omitempty-LawfulFields key string_codec AnyValue (string-Lawful N) (string-EmptyIsZero N)

  bool_field : (key : String) → LawfulFields (omitempty {N = N} key bool_codec) AnyValue
  bool_field key =
      omitempty-LawfulFields key bool_codec AnyValue (bool-Lawful N) (bool-EmptyIsZero N)

  class_name_field :
      LawfulFields
        (omitempty {N = N} "className" (pointer_codec string_codec))
        (IsGoodPointer AnyValue)
  class_name_field =
      omitempty-LawfulFields "className" (pointer_codec string_codec) (IsGoodPointer AnyValue)
        (pointer-Lawful string_codec AnyValue (string-Lawful N) (string-IsNotNull N))
        (pointer-EmptyIsZero {N = N} string_codec AnyValue)

  any_pointer : {A : Type 0} (o : Option A) → IsGoodPointer AnyValue o
  any_pointer none = tt
  any_pointer (some a) = tt

  pub storage-LawfulFields : LawfulFields (storage_fields {N = N}) AnyValue
  storage-LawfulFields =
      of_record-LawfulFields make_storage split_storage (λ s. refl) AnyValue
        (λ s good. (tt, (any_pointer s.class_name, (tt, (tt, (tt, tt))))))
        (both-LawfulFields refl (string_field "size") (
          both-LawfulFields refl class_name_field (
            both-LawfulFields refl (string_field "segmentSize") (
              both-LawfulFields refl (string_field "entrySize")
                (both-LawfulFields refl (string_field "level") (bool_field "flushOnCommit"))))))

  pub primary_backup-LawfulFields : LawfulFields (primary_backup_fields {N = N}) AnyValue
  primary_backup-LawfulFields =
      of_record-LawfulFields make_primary_backup split_primary_backup (λ s. refl) AnyValue
        (λ s good. tt) (string_field "memberGroupStrategy")

  pub status-LawfulFields : LawfulFields (status_fields {N = N}) AnyValue
  status-LawfulFields =
      of_record-LawfulFields make_status split_status (λ s. refl) AnyValue (λ s good. tt)
        (string_field "serviceName")

  module _ (L : LawfulNumbers N) where
    float32_field :
        (key : String) → LawfulFields (omitempty {N = N} key float32_codec) (IsPlainFloat32 N)
    float32_field key =
        omitempty-LawfulFields key float32_codec (IsPlainFloat32 N) (float32-Lawful N L)
          (float32-EmptyIsZero N)

    pub int_field :
        (w : ℕ) (key : String) → LawfulFields (omitempty {N = N} key (int_codec w)) (IsOfWidth w)
    int_field w key =
        omitempty-LawfulFields key (int_codec w) (IsOfWidth w) (int-Lawful N L w)
          (int-EmptyIsZero N w)

    pub compaction-LawfulFields : LawfulFields (compaction_fields {N = N}) (IsGoodCompaction N)
    compaction-LawfulFields =
        of_record-LawfulFields make_compaction split_compaction (λ s. refl) (IsGoodCompaction N)
          (λ s good. (tt, good))
          (both-LawfulFields refl (bool_field "dynamic") (
            both-LawfulFields refl (float32_field "freeDiskBuffer")
              (float32_field "freeMemoryBuffer")))

    pub persistent-LawfulFields : LawfulFields (persistent_fields {N = N}) (IsGoodPersistent N)
    persistent-LawfulFields =
        of_record-LawfulFields make_persistent split_persistent (λ s. refl) (IsGoodPersistent N)
          (λ s good. (tt, good))
          (both-LawfulFields refl
            (struct_field "storage" storage_fields AnyValue storage-LawfulFields)
            (struct_field "compaction" compaction_fields (IsGoodCompaction N)
              compaction-LawfulFields))

    pub raft-LawfulFields : LawfulFields (raft_fields {N = N}) (IsGoodRaft N)
    raft-LawfulFields =
        of_record-LawfulFields make_raft split_raft (λ s. refl) (IsGoodRaft N) (λ s good. good)
          (both-LawfulFields refl persistent-LawfulFields (int_field 63 "partitionSize"))

    pub log-LawfulFields : LawfulFields (log_fields {N = N}) (IsGoodLog N)
    log-LawfulFields =
        of_record-LawfulFields make_log split_log (λ s. refl) (IsGoodLog N) (λ s good. (good, tt))
          (both-LawfulFields refl persistent-LawfulFields (string_field "memberGroupStrategy"))
