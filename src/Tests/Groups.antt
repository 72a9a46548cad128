-- ===== src/Tests/Groups.antt =====
-- The theorems on the reconciler of the PartitionGroup, with the client in memory.
use atomix_operator.Base.{◌≡◌, ◌≢◌, refl, none, ok, true, arith, All, inl}
use atomix_operator.V1alpha1.Defaults.{
  set_defaults_partition_group, set_defaults_storage, set_defaults_log_partition_group,
}
use atomix_operator.Util.PartitionGroup.Protocol.{HasNoProtocol, is_parsed, storage_size}
use atomix_operator.Controller.Client.{partition_group, group_owner, stateful_set}
use atomix_operator.Controller.Ensures.{IsPresent}
use atomix_operator.Controller.Ensures.Reconciles.{Reconciles}
use atomix_operator.Controller.PartitionGroup as PartitionGroup
use atomix_operator.Controller.PartitionGroup.Laws.{group_children, group_reconcile-Reconciles}
use atomix_operator.Controller.PartitionGroup.Outcomes.{
  group_reconcile_converges, group_reconcile_unbuilt,
}
use atomix_operator.Tests.Memory.{platform, client, store, client-IsReliable}
use atomix_operator.Tests.Samples.{log_group, bare_group, in_default, with_object, with_group}
use atomix_operator.Tests.Owners.{client-IsOwner}

log_group-protocol : ¬ HasNoProtocol log_group
log_group-protocol without = ground arith

group_parsed_example :
    is_parsed platform (storage_size (set_defaults_partition_group log_group).spec) ≡ true
unfolding set_defaults_partition_group set_defaults_log_partition_group set_defaults_storage
group_parsed_example = refl

group_reconcile-Reconciles_example :
    Reconciles store
      (PartitionGroup.reconcile client (in_default "values"))
      partition_group
      (in_default "values")
      (λ x. group_children client (set_defaults_partition_group x))
group_reconcile-Reconciles_example = group_reconcile-Reconciles client store (in_default "values")

group_reconcile_converges_example :
    ((PartitionGroup.reconcile client (in_default "values") with_group).1 ≡ ok tt)
    × All
        (IsPresent store (PartitionGroup.reconcile client (in_default "values") with_group).0)
        (group_children client (set_defaults_partition_group log_group))
group_reconcile_converges_example =
    group_reconcile_converges client store client-IsReliable (in_default "values") with_group
      log_group refl (client-IsOwner (group_owner (set_defaults_partition_group log_group)))
      log_group-protocol group_parsed_example

group_reconcile_unbuilt_example :
    ((PartitionGroup.reconcile client
        (in_default "values")
        (with_object partition_group bare_group)).1
      ≢ ok tt)
    × (store.lookup
          (PartitionGroup.reconcile client
            (in_default "values")
            (with_object partition_group bare_group)).0
          stateful_set
          (in_default "values")
        ≡ none)
group_reconcile_unbuilt_example =
    group_reconcile_unbuilt client store (in_default "values")
      (with_object partition_group bare_group) bare_group refl (inl (refl, refl, refl)) refl
