-- ===== src/Controller/PartitionGroup.antt =====
-- pkg/controller/partitiongroup/reconciler.go: PartitionGroupReconciler.
pub mod Laws
pub mod Outcomes
pub mod Building
pub mod Documents
use atomix_operator.Base.{String, deref}
use atomix_operator.Kube.Meta.{Foreign, NamespacedName}
use atomix_operator.Kube.Platform.{Platform}
use atomix_operator.V1alpha1.Types.{PartitionGroup}
use atomix_operator.V1alpha1.Defaults.{set_defaults_partition_group}
use atomix_operator.Util.PartitionGroup.{
  get_partition_group_service_name, get_partition_group_disruption_budget_name,
  get_partition_group_init_config_map_name, get_partition_group_system_config_map_name,
  get_partition_group_stateful_set_name, new_partition_group_service,
  new_partition_group_init_config_map, new_partition_group_disruption_budget,
}
use atomix_operator.Util.PartitionGroup.Config.{new_partition_group_config_map}
use atomix_operator.Util.PartitionGroup.Set.{new_partition_group_stateful_set}
use atomix_operator.Controller.Client.{
  Client, group_owner, partition_group, config_map, service, pod_disruption_budget, stateful_set,
}
use atomix_operator.Controller.Steps.{
  M, then_do, lift, done, own_and_create, get_or_add, get_or_stop,
}

module _ {F : Foreign} {P : Platform F} (C : Client P) where
  module _ (group : PartitionGroup F) where
    abbrev in_namespace : String → NamespacedName
    in_namespace name = record { namespace = group.metadata.namespace; name = name }

    abbrev get_init_script_name : String
    get_init_script_name = get_partition_group_init_config_map_name group

    unfoldable pub add_init_script : M C (Unit {0})
    add_init_script =
        own_and_create C (group_owner group) config_map (new_partition_group_init_config_map group)

    unfoldable pub reconcile_init_script : M C (Unit {0})
    unfolding add_init_script
    reconcile_init_script =
        get_or_add C config_map (in_namespace get_init_script_name) add_init_script

    abbrev get_system_config_name : String
    get_system_config_name = get_partition_group_system_config_map_name group

    -- A nil map without an error would be followed in `SetControllerReference`.
    unfoldable pub add_system_config : M C (Unit {0})
    add_system_config =
        then_do C (lift C (new_partition_group_config_map P.errorf group))
          λ map. then_do C (lift C (deref map)) (own_and_create C (group_owner group) config_map)

    unfoldable pub reconcile_system_config : M C (Unit {0})
    unfolding add_system_config
    reconcile_system_config =
        get_or_add C config_map (in_namespace get_system_config_name) add_system_config

    abbrev get_disruption_budget_name : String
    get_disruption_budget_name = get_partition_group_disruption_budget_name group

    unfoldable pub add_disruption_budget : M C (Unit {0})
    add_disruption_budget =
        own_and_create C (group_owner group) pod_disruption_budget
          (new_partition_group_disruption_budget P group)

    unfoldable pub reconcile_disruption_budget : M C (Unit {0})
    unfolding add_disruption_budget
    reconcile_disruption_budget =
        get_or_add C pod_disruption_budget (in_namespace get_disruption_budget_name)
          add_disruption_budget

    abbrev get_stateful_set_name : String
    get_stateful_set_name = get_partition_group_stateful_set_name group

    unfoldable pub add_stateful_set : M C (Unit {0})
    add_stateful_set =
        then_do C (lift C (new_partition_group_stateful_set P group))
          λ set. then_do C (lift C (deref set)) (own_and_create C (group_owner group) stateful_set)

    unfoldable pub reconcile_stateful_set : M C (Unit {0})
    unfolding add_stateful_set
    reconcile_stateful_set =
        get_or_add C stateful_set (in_namespace get_stateful_set_name) add_stateful_set

    abbrev get_service_name : String
    get_service_name = get_partition_group_service_name group

    unfoldable pub add_service : M C (Unit {0})
    add_service = own_and_create C (group_owner group) service (new_partition_group_service group)

    unfoldable pub reconcile_service : M C (Unit {0})
    unfolding add_service
    reconcile_service = get_or_add C service (in_namespace get_service_name) add_service

    -- The part of `Reconcile` below `SetDefaults_PartitionGroup`.
    unfoldable pub reconcile_objects : M C (Unit {0})
    unfolding reconcile_init_script reconcile_system_config reconcile_disruption_budget
        reconcile_stateful_set reconcile_service
    reconcile_objects = then_do C reconcile_init_script λ _. then_do C reconcile_system_config λ _.
        then_do C reconcile_disruption_budget
          λ _. then_do C reconcile_stateful_set λ _. then_do C reconcile_service λ _. done C

  unfoldable pub reconcile : NamespacedName → M C (Unit {0})
  unfolding reconcile_objects
  reconcile request =
      get_or_stop C partition_group request
        λ group. reconcile_objects (set_defaults_partition_group group)
