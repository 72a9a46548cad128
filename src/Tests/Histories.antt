-- ===== src/Tests/Histories.antt =====
-- The reconcilers among others: a user stores a benchmark before the cluster is reconciled.
use atomix_operator.Base.{◌≡◌, ◌⊎◌, refl, some, [], ◌∷◌}
use atomix_operator.Kube.Objects.{ConfigMap}
use atomix_operator.V1alpha1.Defaults.{set_defaults_cluster, set_defaults_storage}
use atomix_operator.Util.Cluster.{
  new_management_init_config_map, get_management_system_config_map_name,
  new_management_system_config_map, new_management_disruption_budget, new_management_stateful_set,
  new_management_service,
}
use atomix_operator.Util.Resources.Volumes.{new_persistent_volume_claims}
use atomix_operator.Controller.Cluster.{reconcile}
use atomix_operator.Controller.Steps.{get_or_stop, get_or_add, own_and_create, own}
use atomix_operator.Controller.Client.{atomix_benchmark, config_map, cluster_owner}
use atomix_operator.Controller.Runs.{cluster_controller, benchmark_controller, reconcile_request}
use atomix_operator.Controller.Runs.Histories.{History, stop, call, change, IsMade, history_origin}
use atomix_operator.Tests.Memory.{client, store, World, put, reference_to}
use atomix_operator.Tests.Samples.{three_nodes, benchmark, in_default, with_cluster}

abbrev both : World
both = put atomix_benchmark benchmark with_cluster

abbrev reconciled : World
reconciled = (reconcile_request client cluster_controller (in_default "example") both).0

abbrev final : World
final = (reconcile_request client benchmark_controller (in_default "load") reconciled).0

abbrev before : History client with_cluster both
before = change stop

abbrev after : History client reconciled final
after = call benchmark_controller (in_default "load") stop

-- Others store the benchmark, which is none of the cluster's objects; then the cluster is reconciled.
abbrev among_others : History client with_cluster reconciled
among_others = change (call cluster_controller (in_default "example") stop)

abbrev script : ConfigMap
script = record (new_management_init_config_map (set_defaults_cluster three_nodes)) {
  metadata = record (new_management_init_config_map (set_defaults_cluster three_nodes)).metadata {
    owner_references = reference_to (cluster_owner three_nodes) ∷ [];
  };
}

history_origin_example :
    (store.lookup with_cluster config_map (in_default "example-init") ≡ some script)
    ⊎ IsMade store among_others config_map (in_default "example-init") script
unfolding reconcile get_or_stop get_or_add own_and_create own set_defaults_cluster
    set_defaults_storage new_management_init_config_map get_management_system_config_map_name
    new_management_system_config_map new_management_disruption_budget new_management_stateful_set
    new_persistent_volume_claims new_management_service
history_origin_example =
    history_origin store among_others config_map (in_default "example-init") script ((λ e. e), tt)
      refl
