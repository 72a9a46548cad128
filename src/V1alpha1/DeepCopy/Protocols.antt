-- ===== src/V1alpha1/DeepCopy/Protocols.antt =====
-- The storage and the protocols: what they stand for, and that their copies are copies.
use atomix_operator.Base.{String, Bool, Option, refl}
use atomix_operator.V1alpha1.DeepCopy.Structs.{
  StorageOf, PersistentPartitionGroupOf, RaftPartitionGroupOf, LogPartitionGroupOf,
}
use atomix_operator.V1alpha1.DeepCopy.Heap.{Vendored, Addr, pure}
use atomix_operator.V1alpha1.DeepCopy.Cells.{string_type}
use atomix_operator.V1alpha1.DeepCopy.Into.{
  deep_copy, storage_deep_copy_into, persistent_partition_group_deep_copy_into,
  raft_partition_group_deep_copy_into, log_partition_group_deep_copy_into,
}
use atomix_operator.V1alpha1.DeepCopy.Represents.{Representation, Copies, plain, plain-Copies}
use atomix_operator.V1alpha1.DeepCopy.Pointers.{pointer, deep_copy-Copies}
use atomix_operator.V1alpha1.DeepCopy.Fields.{with_field, with_field-Copies}

-- The fields without pointers.
abbrev storage_rest : {S : Type 0} → StorageOf S → String × String × String × String × Bool
storage_rest s = (s.size, s.segment_size, s.entry_size, s.level, s.flush_on_commit)

module _ {V : Vendored} where
  abbrev pub string : Representation V (Option Addr) (Option String)
  string = pointer string_type (plain String)

  abbrev pub storage : Representation V (StorageOf Addr) (StorageOf String)
  storage = with_field string (λ s. s.class_name) (λ s. s.class_name) storage_rest storage_rest

  pub storage-Copies : Copies storage storage_deep_copy_into
  unfolding storage_deep_copy_into
  storage-Copies =
      with_field-Copies string _ _ _ _ (λ s a. record s { class_name = a })
        (deep_copy string_type pure) (λ s a. refl) (λ s a. refl)
        (deep_copy-Copies string_type (plain String) pure plain-Copies)

  abbrev pub persistent :
      Representation V (PersistentPartitionGroupOf Addr) (PersistentPartitionGroupOf String)
  persistent =
      with_field storage (λ g. g.storage) (λ g. g.storage) (λ g. g.compaction) (λ g. g.compaction)

  pub persistent-Copies : Copies persistent persistent_partition_group_deep_copy_into
  unfolding persistent_partition_group_deep_copy_into
  persistent-Copies =
      with_field-Copies storage _ _ _ _ (λ g a. record g { storage = a }) storage_deep_copy_into
        (λ g a. refl) (λ g a. refl) storage-Copies

  abbrev pub raft : Representation V (RaftPartitionGroupOf Addr) (RaftPartitionGroupOf String)
  raft =
      with_field persistent (λ g. g.persistent) (λ g. g.persistent) (λ g. g.partition_size)
        (λ g. g.partition_size)

  pub raft-Copies : Copies raft raft_partition_group_deep_copy_into
  unfolding raft_partition_group_deep_copy_into
  raft-Copies =
      with_field-Copies persistent _ _ _ _ (λ g a. record g { persistent = a })
        persistent_partition_group_deep_copy_into (λ g a. refl) (λ g a. refl) persistent-Copies

  abbrev pub log : Representation V (LogPartitionGroupOf Addr) (LogPartitionGroupOf String)
  log =
      with_field persistent (λ g. g.persistent) (λ g. g.persistent) (λ g. g.member_group_strategy)
        (λ g. g.member_group_strategy)

  pub log-Copies : Copies log log_partition_group_deep_copy_into
  unfolding log_partition_group_deep_copy_into
  log-Copies =
      with_field-Copies persistent _ _ _ _ (λ g a. record g { persistent = a })
        persistent_partition_group_deep_copy_into (λ g a. refl) (λ g a. refl) persistent-Copies
