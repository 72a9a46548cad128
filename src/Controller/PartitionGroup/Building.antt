-- ===== src/Controller/PartitionGroup/Building.antt =====
-- When a group's configuration and StatefulSet are built, as its reconciler uses them.
use atomix_operator.Base.{
  ◌≡◌, ◌≢◌, refl, ◌∙◌, ◌⊎◌, none, some, Option, Option-cases, String, inl, inr, Result, ok, err,
  panic, true, false, bind, deref, arith,
}
use atomix_operator.Kube.Meta.{Foreign}
use atomix_operator.Kube.Platform.{Platform}
use atomix_operator.V1alpha1.Types.{PartitionGroup, Storage}
use atomix_operator.V1alpha1.Defaults.{set_defaults_partition_group}
use atomix_operator.Util.PartitionGroup.Protocol.{
  is_built, storage_size, is_parsed, HasNoProtocol, group_set_outcome,
}
use atomix_operator.Util.Resources.Volumes.{new_persistent_volume_claims}
use atomix_operator.Util.PartitionGroup.Config.{new_partition_group_config_map}
use atomix_operator.Util.PartitionGroup.Set.{
  new_persistent_partition_group_stateful_set, new_partition_group_stateful_set,
}
use atomix_operator.Controller.PartitionGroup.Laws.{config_of, set_of}

pub is_built-value :
    {E A : Type 0} (r : Result E (Option A)) → is_built r ≡ true → (a : A) × (bind r deref ≡ ok a)
is_built-value (ok (some a)) h = (a, refl)
is_built-value (ok none) h = cc
is_built-value (err e) h = cc
is_built-value panic h = cc

pub is_built-deref :
    {E A : Type 0} (r : Result E (Option A)) {a : A} → bind r deref ≡ ok a → is_built r ≡ true
is_built-deref (ok (some a)) h = refl
is_built-deref (ok none) h = cc
is_built-deref (err e) h = cc
is_built-deref panic h = cc

pub HasNoProtocol-defaults :
    {F : Foreign} (group : PartitionGroup F)
    → HasNoProtocol (set_defaults_partition_group group)
    → HasNoProtocol group
unfolding set_defaults_partition_group
HasNoProtocol-defaults group without = ground arith

module _ {F : Foreign} (P : Platform F) (group : PartitionGroup F) where
  pub config_of-ne-panic : config_of P group ≢ panic
  unfolding new_partition_group_config_map
  config_of-ne-panic = ground arith

  -- Its size is the only part of a persistent set that may fail.
  persistent-ne-panic :
      (storage : Storage)
      → P.parse_quantity storage.size ≢ panic
      → new_persistent_partition_group_stateful_set P group storage ≢ panic
  unfolding new_persistent_partition_group_stateful_set new_persistent_volume_claims
  persistent-ne-panic storage parses = ground arith

  pub set_of-ne-panic : ((size : String) → P.parse_quantity size ≢ panic) → set_of P group ≢ panic
  unfolding new_partition_group_stateful_set
  set_of-ne-panic parses e = elim (Option-cases group.spec.raft) [
    | inr (raft, has_raft) ↦
        let h = persistent-ne-panic raft.persistent.storage (parses _) in ground arith
    | inl no_raft ↦ elim (Option-cases group.spec.primary_backup) [
      | inr has_backup ↦ ground arith
      | inl no_backup ↦ elim (Option-cases group.spec.log) [
        | inr (log, has_log) ↦
            let h = persistent-ne-panic log.persistent.storage (parses _) in ground arith
        | inl no_log ↦ ground arith
      ]
    ]
  ]

  bare_set :
      HasNoProtocol group
      → is_built (new_partition_group_stateful_set P (set_defaults_partition_group group)) ≡ false
  unfolding new_partition_group_stateful_set set_defaults_partition_group
  bare_set without = ground arith

  pub set_missing :
      HasNoProtocol group
        ⊎ (is_parsed P (storage_size (set_defaults_partition_group group).spec) ≡ false)
      → is_built (new_partition_group_stateful_set P (set_defaults_partition_group group)) ≡ false
  set_missing (inl without) = bare_set without
  set_missing (inr bad) = elim (group_set_outcome P (set_defaults_partition_group group)) [
    | inl (without, e) ↦ rw e refl
    | inr (_, e) ↦ e ∙ bad
  ]
