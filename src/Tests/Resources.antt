-- ===== src/Tests/Resources.antt =====
-- The theorems on the defaults and on the objects that are built, at the samples.
use atomix_operator.Base.{
  ◌≡◌, refl, ◌↔◌, ◌⊎◌, pos, some, true, false, ok, err, is_ok-value, Option, none, panic, Result,
}
use atomix_operator.Kube.Objects.{StatefulSet}
use atomix_operator.Util.Resources.{new_affinity}
use atomix_operator.Util.Resources.Volumes.{new_persistent_volume_claims}
use atomix_operator.Util.Selection.{
  avoids, services_select, ManagementSelects, GroupSelects, BenchmarkSelects,
  management_affinity_selects, group_affinity_selects_none,
}
use atomix_operator.Util.Wiring.{IsWired}
use atomix_operator.Util.Wiring.Sets.{sets-IsWired}
use atomix_operator.Util.Cluster.{
  new_management_labels, new_management_service, new_management_stateful_set,
  new_management_init_config_map, new_management_system_config_map,
}
use atomix_operator.Util.PartitionGroup.{
  new_partition_group_labels, new_partition_group_service, new_partition_group_init_config_map,
  get_partition_group_system_config_map_name, get_partition_group_stateful_set_name,
}
use atomix_operator.Util.PartitionGroup.Config.{new_partition_group_config_map}
use atomix_operator.Util.PartitionGroup.Set.{
  new_partition_group_stateful_set, new_persistent_partition_group_stateful_set,
}
use atomix_operator.Util.PartitionGroup.Protocol.{
  HasNoProtocol, is_built, is_parsed, storage_size, group_config_outcome, group_set_outcome,
}
use atomix_operator.Util.Benchmark.Worker.{
  new_benchmark_worker_service, new_benchmark_worker_stateful_set,
  new_benchmark_worker_init_config_map, new_benchmark_worker_system_config_map,
}
use atomix_operator.V1alpha1.Defaults.Laws.{set_defaults_idem, set_defaults-group_type}
use atomix_operator.V1alpha1.Types.{get_partition_group_type}
use atomix_operator.V1alpha1.Defaults.{
  set_defaults_cluster, set_defaults_partition_group, set_defaults_benchmark, set_defaults_storage,
  set_defaults_raft_partition_group,
}
use atomix_operator.Tests.Memory.{foreign, message, platform}
use atomix_operator.Tests.Samples.{three_nodes, raft_group, log_group, bare_group, benchmark}

set_defaults_idem_example :
    (set_defaults_cluster (set_defaults_cluster three_nodes) ≡ set_defaults_cluster three_nodes)
    × (set_defaults_partition_group (set_defaults_partition_group log_group)
        ≡ set_defaults_partition_group log_group)
    × (set_defaults_benchmark (set_defaults_benchmark benchmark) ≡ set_defaults_benchmark benchmark)
set_defaults_idem_example = set_defaults_idem three_nodes log_group benchmark

set_defaults-group_type_example :
    get_partition_group_type message (set_defaults_partition_group log_group)
    ≡ get_partition_group_type message log_group
set_defaults-group_type_example = set_defaults-group_type log_group message

services_select_example :
    ManagementSelects three_nodes three_nodes log_group raft_group benchmark benchmark
    × GroupSelects three_nodes three_nodes log_group raft_group benchmark benchmark
    × BenchmarkSelects three_nodes three_nodes log_group raft_group benchmark benchmark
services_select_example =
    services_select three_nodes three_nodes log_group raft_group benchmark benchmark

management_affinity_selects_example :
    (avoids (new_affinity "example") (new_management_labels three_nodes) ≡ true)
    ↔ (three_nodes.metadata.name ≡ "atomix")
management_affinity_selects_example = management_affinity_selects three_nodes three_nodes

group_affinity_selects_none_example :
    avoids
      (new_affinity (get_partition_group_stateful_set_name log_group))
      (new_partition_group_labels raft_group)
    ≡ false
group_affinity_selects_none_example = group_affinity_selects_none log_group raft_group

-- The StatefulSets of the samples, which can be built.
management_set :
    (set : StatefulSet foreign) × (new_management_stateful_set platform
        (set_defaults_cluster three_nodes)
      ≡ ok set)
unfolding new_management_stateful_set new_persistent_volume_claims set_defaults_cluster
    set_defaults_storage
management_set = is_ok-value _ refl

is_made : {E A : Type 0} (r : Result E (Option A)) → is_built r ≡ true → (a : A) × (r ≡ ok (some a))
is_made (ok (some a)) h = (a, refl)
is_made (ok none) h = cc
is_made (err e) h = cc
is_made panic h = cc

group_set :
    (set : StatefulSet foreign) × (new_partition_group_stateful_set platform
        (set_defaults_partition_group raft_group)
      ≡ ok (some set))
unfolding new_partition_group_stateful_set new_persistent_partition_group_stateful_set
    new_persistent_volume_claims set_defaults_partition_group set_defaults_raft_partition_group
    set_defaults_storage
group_set = is_made _ refl

sets-IsWired_example :
    IsWired management_set.0
      (new_management_service (set_defaults_cluster three_nodes)).metadata.name
      (new_management_init_config_map (set_defaults_cluster three_nodes)).metadata.name
      (new_management_system_config_map (set_defaults_cluster three_nodes)).metadata.name
      (set_defaults_cluster three_nodes).spec.size
    × IsWired group_set.0
        (new_partition_group_service (set_defaults_partition_group raft_group)).metadata.name
        (new_partition_group_init_config_map
          (set_defaults_partition_group raft_group)).metadata.name
        (get_partition_group_system_config_map_name (set_defaults_partition_group raft_group))
        (set_defaults_partition_group raft_group).spec.size
    × IsWired
        (new_benchmark_worker_stateful_set benchmark)
        (new_benchmark_worker_service benchmark).metadata.name
        (new_benchmark_worker_init_config_map benchmark).metadata.name
        (new_benchmark_worker_system_config_map benchmark).metadata.name
        (pos 2)
sets-IsWired_example =
    sets-IsWired platform (set_defaults_cluster three_nodes)
      (set_defaults_partition_group raft_group) benchmark management_set.0 group_set.0
      management_set.1 group_set.1

group_config_outcome_example :
    (HasNoProtocol bare_group
      × (new_partition_group_config_map message bare_group
          ≡ err (message "unknown partition group type")))
    ⊎ ((¬ HasNoProtocol bare_group)
        × (is_built (new_partition_group_config_map message bare_group) ≡ true))
group_config_outcome_example = group_config_outcome platform bare_group

group_set_outcome_example :
    (HasNoProtocol log_group
      × (new_partition_group_stateful_set platform log_group
          ≡ err (message "unknown partition group type")))
    ⊎ ((¬ HasNoProtocol log_group)
        × (is_built (new_partition_group_stateful_set platform log_group)
            ≡ is_parsed platform (storage_size log_group.spec)))
group_set_outcome_example = group_set_outcome platform log_group
