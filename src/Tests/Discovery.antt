-- ===== src/Tests/Discovery.antt =====
-- The theorems on the init scripts, at the samples.
use atomix_operator.Base.{◌≡◌, refl}
use atomix_operator.Util.Cluster.{new_management_init_config_map, new_management_service}
use atomix_operator.Util.PartitionGroup.{new_partition_group_init_config_map}
use atomix_operator.Util.Benchmark.Controller.{new_benchmark_controller_init_config_map}
use atomix_operator.Util.Benchmark.Worker.{new_benchmark_worker_init_config_map}
use atomix_operator.Util.Discovery.{LooksUp, group_script_finds_cluster, benchmark_scripts_look_up}
use atomix_operator.Tests.Samples.{three_nodes, log_group, benchmark}

group_script_finds_cluster_example :
    LooksUp (new_partition_group_init_config_map log_group) "example.default.svc.cluster.local"
    × LooksUp (new_management_init_config_map three_nodes) "example.default.svc.cluster.local"
    × ((new_partition_group_init_config_map log_group).contents
        ≡ (new_management_init_config_map three_nodes).contents)
unfolding new_management_service
group_script_finds_cluster_example =
    group_script_finds_cluster three_nodes log_group refl refl refl refl

benchmark_scripts_look_up_example :
    LooksUp (new_benchmark_controller_init_config_map benchmark) "example.default.svc.cluster.local"
    × LooksUp (new_benchmark_worker_init_config_map benchmark) "load.default.svc.cluster.local"
benchmark_scripts_look_up_example = benchmark_scripts_look_up benchmark refl refl refl
