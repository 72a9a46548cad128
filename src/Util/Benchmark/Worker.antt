-- ===== src/Util/Benchmark/Worker.antt =====
-- pkg/controller/util/benchmark.go: the objects of the benchmark workers.
use atomix_operator.Base.{pos, String, ◌<>◌, true, some, none, [], ◌∷◌, join_lines}
use atomix_operator.Kube.Meta.{Foreign, StringMap, new_object_meta}
use atomix_operator.Kube.Objects.{ConfigMap, Service, StatefulSet}
use atomix_operator.V1alpha1.Types.{AtomixBenchmark}
use atomix_operator.Util.Resources.{
  app_key, atomix_app, cluster_key, type_key, bench_worker_type, service_suffix, init_suffix,
  config_suffix,
}
use atomix_operator.Util.Resources.Container.{new_init_containers, new_benchmark_containers}
use atomix_operator.Util.Resources.Volumes.{
  new_init_scripts_volume, new_user_config_volume, new_system_config_volume,
}
use atomix_operator.Util.Cluster.{new_init_config_map_script}

module _ {F : Foreign} (benchmark : AtomixBenchmark F) where
  unfoldable pub new_benchmark_worker_labels : StringMap
  new_benchmark_worker_labels =
      (app_key, atomix_app)
      ∷ (cluster_key, benchmark.spec.cluster)
      ∷ (type_key, bench_worker_type)
      ∷ []

  unfoldable pub get_benchmark_worker_resource_name : String → String
  get_benchmark_worker_resource_name resource = benchmark.metadata.name <> "-" <> resource

  unfoldable pub get_benchmark_worker_service_name : String
  unfolding get_benchmark_worker_resource_name
  get_benchmark_worker_service_name = get_benchmark_worker_resource_name service_suffix

  unfoldable pub get_benchmark_worker_init_config_map_name : String
  unfolding get_benchmark_worker_resource_name
  get_benchmark_worker_init_config_map_name = get_benchmark_worker_resource_name init_suffix

  unfoldable pub get_benchmark_worker_system_config_map_name : String
  unfolding get_benchmark_worker_resource_name
  get_benchmark_worker_system_config_map_name = get_benchmark_worker_resource_name config_suffix

  unfoldable pub get_benchmark_worker_stateful_set_name : String
  get_benchmark_worker_stateful_set_name = benchmark.metadata.name

  unfoldable pub new_benchmark_worker_init_config_map : ConfigMap
  unfolding get_benchmark_worker_init_config_map_name new_benchmark_worker_labels
  new_benchmark_worker_init_config_map = record {
    metadata =
        new_object_meta get_benchmark_worker_init_config_map_name benchmark.metadata.namespace
          new_benchmark_worker_labels [];
    contents =
        (
          "create_config.sh",
          new_init_config_map_script
              (record { namespace = benchmark.metadata.namespace; name = benchmark.metadata.name }),
        )
        ∷ [];
  }

  unfoldable pub new_benchmark_worker_config : String
  new_benchmark_worker_config = join_lines (
      "" ∷ "cluster {" ∷ "    node: ${atomix.node}" ∷ "" ∷ "    discovery {" ∷ "        type: dns"
      ∷ "        service: ${atomix.service}," ∷ "    }" ∷ "}" ∷ [])

  unfoldable pub new_benchmark_worker_system_config_map : ConfigMap
  unfolding get_benchmark_worker_system_config_map_name new_benchmark_worker_labels
  new_benchmark_worker_system_config_map = record {
    metadata =
        new_object_meta get_benchmark_worker_system_config_map_name benchmark.metadata.namespace
          new_benchmark_worker_labels [];
    contents = ("atomix.conf", new_benchmark_worker_config) ∷ [];
  }

  unfoldable pub new_benchmark_worker_stateful_set : StatefulSet F
  unfolding get_benchmark_worker_stateful_set_name get_benchmark_worker_service_name
      new_benchmark_worker_labels get_benchmark_worker_init_config_map_name
      get_benchmark_worker_system_config_map_name
  new_benchmark_worker_stateful_set = record {
    metadata =
        new_object_meta get_benchmark_worker_stateful_set_name benchmark.metadata.namespace
          new_benchmark_worker_labels [];
    spec = record {
      service_name = get_benchmark_worker_service_name;
      replicas = some benchmark.spec.workers;
      selector =
          some (record { match_labels = new_benchmark_worker_labels; match_expressions = [] });
      update_strategy = "";
      pod_management_policy = "Parallel";
      template = record {
        metadata = new_object_meta "" "" new_benchmark_worker_labels [];
        spec = record {
          affinity = none;
          init_containers = new_init_containers benchmark.spec.workers;
          containers =
              new_benchmark_containers benchmark.spec.version benchmark.spec.env
                benchmark.spec.resources;
          volumes =
              new_init_scripts_volume get_benchmark_worker_init_config_map_name
              ∷ new_user_config_volume get_benchmark_worker_system_config_map_name
              ∷ new_system_config_volume
              ∷ [];
        };
      };
      volume_claim_templates = [];
    };
  }

  unfoldable pub new_benchmark_worker_service : Service
  unfolding get_benchmark_worker_service_name new_benchmark_worker_labels
  new_benchmark_worker_service = record {
    metadata =
        new_object_meta get_benchmark_worker_service_name benchmark.metadata.namespace
          new_benchmark_worker_labels
          (("service.alpha.kubernetes.io/tolerate-unready-endpoints", "true") ∷ []);
    spec = record {
      ports = record { name = benchmark.metadata.name <> "-node"; port = pos 5679 } ∷ [];
      publish_not_ready_addresses = true;
      cluster_ip = "None";
      selector = new_benchmark_worker_labels;
    };
  }
