-- ===== src/Util/PartitionGroup/Protocol.antt =====
-- A group's protocol decides whether its configuration and its StatefulSet can be built.
use atomix_operator.Base.{
  ◌≡◌, Bool, true, false, ◌⊎◌, arith, none, some, Option, String, Result, ok, err, panic, is_ok,
}
use atomix_operator.Kube.Meta.{Foreign}
use atomix_operator.Kube.Platform.{Platform}
use atomix_operator.V1alpha1.Types.{PartitionGroup, PartitionGroupSpec}
use atomix_operator.Util.Resources.Volumes.{new_persistent_volume_claims}
use atomix_operator.Util.PartitionGroup.Config.{new_partition_group_config_map}
use atomix_operator.Util.PartitionGroup.Set.{new_partition_group_stateful_set}

-- A value without an error, and not nil.
abbrev pub is_built {ℓ} : {E : Type 0} {A : Type ℓ} → Result E (Option A) → Bool
is_built (ok (some _)) = true
is_built (ok none) = false
is_built (err _) = false
is_built panic = false

-- The size of the claims, where the group's protocol, the first that is set, has storage.
abbrev pub storage_size : {F : Foreign} → PartitionGroupSpec F → Option String
storage_size spec = elim spec.raft [
  | some raft ↦ some raft.persistent.storage.size
  | none ↦ elim spec.primary_backup [
    | some _ ↦ none
    | none ↦ elim spec.log [ some log ↦ some log.persistent.storage.size | none ↦ none ]
  ]
]

abbrev pub HasNoProtocol : {F : Foreign} → PartitionGroup F → Type 0
HasNoProtocol group =
    (group.spec.raft ≡ none) × (group.spec.primary_backup ≡ none) × (group.spec.log ≡ none)

-- No size is needed, or it can be parsed.
abbrev pub is_parsed : {F : Foreign} → Platform F → Option String → Bool
is_parsed P none = true
is_parsed P (some size) = is_ok (P.parse_quantity size)

module _ {F : Foreign} (P : Platform F) (group : PartitionGroup F) where
  -- The configuration of a group fails with "unknown partition group type" if the group has no
  -- protocol, and is built otherwise: it is never nil without an error, and no nil pointer is
  -- followed.
  pub group_config_outcome :
      (HasNoProtocol group
        × (new_partition_group_config_map P.errorf group
            ≡ err (P.errorf "unknown partition group type")))
      ⊎ ((¬ HasNoProtocol group)
          × (is_built (new_partition_group_config_map P.errorf group) ≡ true))
  unfolding new_partition_group_config_map
  group_config_outcome = ground arith

  -- The StatefulSet of a group fails with "unknown partition group type" if the group has no
  -- protocol, and is otherwise built exactly if its protocol has no storage or the storage's size
  -- can be parsed.
  pub group_set_outcome :
      (HasNoProtocol group
        × (new_partition_group_stateful_set P group
            ≡ err (P.errorf "unknown partition group type")))
      ⊎ ((¬ HasNoProtocol group)
          × (is_built (new_partition_group_stateful_set P group)
              ≡ is_parsed P (storage_size group.spec)))
  unfolding new_partition_group_stateful_set new_persistent_volume_claims
  group_set_outcome = ground arith
