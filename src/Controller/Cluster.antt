-- ===== src/Controller/Cluster.antt =====
-- pkg/controller/cluster/reconciler.go: AtomixClusterReconciler. Logging is left out; the result
-- of `Reconcile` is always the zero `reconcile.Result`, so it is the error alone.
pub mod Laws
pub mod Outcomes
use atomix_operator.Base.{String}
use atomix_operator.Kube.Meta.{Foreign, NamespacedName}
use atomix_operator.Kube.Platform.{Platform}
use atomix_operator.V1alpha1.Types.{AtomixCluster}
use atomix_operator.V1alpha1.Defaults.{set_defaults_cluster}
use atomix_operator.Util.Cluster.{
  get_management_service_name, get_management_disruption_budget_name,
  get_management_init_config_map_name, get_management_system_config_map_name,
  get_management_stateful_set_name, new_management_service, new_management_init_config_map,
  new_management_system_config_map, new_management_disruption_budget, new_management_stateful_set,
}
use atomix_operator.Controller.Client.{
  Kind, Client, Owner, cluster_owner, atomix_cluster, config_map, service, pod_disruption_budget,
  stateful_set,
}
use atomix_operator.Controller.Steps.{
  M, then_do, lift, done, own_and_create, get_or_add, get_or_stop,
}

module _ {F : Foreign} {P : Platform F} (C : Client P) where
  module _ (cluster : AtomixCluster F) where
    abbrev in_namespace : String → NamespacedName
    in_namespace name = record { namespace = cluster.metadata.namespace; name = name }

    unfoldable pub add_init_script : M C (Unit {0})
    add_init_script =
        own_and_create C (cluster_owner cluster) config_map (new_management_init_config_map cluster)

    unfoldable pub reconcile_init_script : M C (Unit {0})
    unfolding add_init_script
    reconcile_init_script =
        get_or_add C config_map (in_namespace (get_management_init_config_map_name cluster))
          add_init_script

    unfoldable pub add_config : M C (Unit {0})
    add_config =
        own_and_create C (cluster_owner cluster) config_map
          (new_management_system_config_map cluster)

    unfoldable pub reconcile_system_config : M C (Unit {0})
    unfolding add_config
    reconcile_system_config =
        get_or_add C config_map (in_namespace (get_management_system_config_map_name cluster))
          add_config

    unfoldable pub add_disruption_budget : M C (Unit {0})
    add_disruption_budget =
        own_and_create C (cluster_owner cluster) pod_disruption_budget
          (new_management_disruption_budget P cluster)

    unfoldable pub reconcile_disruption_budget : M C (Unit {0})
    unfolding add_disruption_budget
    reconcile_disruption_budget =
        get_or_add C pod_disruption_budget
          (in_namespace (get_management_disruption_budget_name cluster)) add_disruption_budget

    unfoldable pub add_stateful_set : M C (Unit {0})
    add_stateful_set =
        then_do C (lift C (new_management_stateful_set P cluster))
          (own_and_create C (cluster_owner cluster) stateful_set)

    unfoldable pub reconcile_stateful_set : M C (Unit {0})
    unfolding add_stateful_set
    reconcile_stateful_set =
        get_or_add C stateful_set (in_namespace (get_management_stateful_set_name cluster))
          add_stateful_set

    unfoldable pub add_service : M C (Unit {0})
    add_service = own_and_create C (cluster_owner cluster) service (new_management_service cluster)

    unfoldable pub reconcile_service : M C (Unit {0})
    unfolding add_service
    reconcile_service =
        get_or_add C service (in_namespace (get_management_service_name cluster)) add_service

    -- The part of `Reconcile` below `SetDefaults_Cluster`.
    unfoldable pub reconcile_objects : M C (Unit {0})
    unfolding reconcile_init_script reconcile_system_config reconcile_disruption_budget
        reconcile_stateful_set reconcile_service
    reconcile_objects = then_do C reconcile_init_script λ _. then_do C reconcile_system_config λ _.
        then_do C reconcile_disruption_budget
          λ _. then_do C reconcile_stateful_set λ _. then_do C reconcile_service λ _. done C

  unfoldable pub reconcile : NamespacedName → M C (Unit {0})
  unfolding reconcile_objects
  reconcile request =
      get_or_stop C atomix_cluster request
        λ cluster. reconcile_objects (set_defaults_cluster cluster)
