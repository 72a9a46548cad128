-- ===== src/Util/Benchmark/Controller.antt =====
-- pkg/controller/util/benchmark.go: the objects of the benchmark controller.
use atomix_operator.Base.{pos, String, ◌<>◌, true, none, [], ◌∷◌, join_lines}
use atomix_operator.Kube.Meta.{Foreign, StringMap, new_object_meta}
use atomix_operator.Kube.Pod.{Pod}
use atomix_operator.Kube.Objects.{ConfigMap, Service}
use atomix_operator.V1alpha1.Types.{AtomixBenchmark}
use atomix_operator.Util.Resources.{
  app_key, atomix_app, cluster_key, type_key, bench_coordinator_type, service_suffix, init_suffix,
  config_suffix,
}
use atomix_operator.Util.Resources.Container.{new_init_containers, new_benchmark_containers}
use atomix_operator.Util.Resources.Volumes.{
  new_init_scripts_volume, new_user_config_volume, new_system_config_volume,
}
use atomix_operator.Util.Cluster.{get_management_service_dns_name}

module _ {F : Foreign} (benchmark : AtomixBenchmark F) where
  unfoldable pub new_benchmark_controller_labels : StringMap
  new_benchmark_controller_labels =
      (app_key, atomix_app)
      ∷ (cluster_key, benchmark.spec.cluster)
      ∷ (type_key, bench_coordinator_type)
      ∷ []

  unfoldable pub get_benchmark_controller_resource_name : String → String
  get_benchmark_controller_resource_name resource = benchmark.metadata.name <> "-" <> resource

  unfoldable pub get_benchmark_controller_service_name : String
  unfolding get_benchmark_controller_resource_name
  get_benchmark_controller_service_name = get_benchmark_controller_resource_name service_suffix

  unfoldable pub get_benchmark_controller_init_config_map_name : String
  unfolding get_benchmark_controller_resource_name
  get_benchmark_controller_init_config_map_name = get_benchmark_controller_resource_name init_suffix

  unfoldable pub get_benchmark_controller_system_config_map_name : String
  unfolding get_benchmark_controller_resource_name
  get_benchmark_controller_system_config_map_name =
      get_benchmark_controller_resource_name config_suffix

  unfoldable pub get_benchmark_controller_pod_name : String
  get_benchmark_controller_pod_name = benchmark.metadata.name

  unfoldable pub new_benchmark_controller_init_config_map_script : String
  unfolding get_benchmark_controller_service_name
  new_benchmark_controller_init_config_map_script = join_lines (
      ""
      ∷ "#!/usr/bin/env bash"
      ∷ ""
      ∷ "HOST=$(hostname -s)"
      ∷ ""
      ∷ "function create_config() {"
      ∷ ("    echo \"atomix.service="
          <> get_management_service_dns_name
              (record { namespace = benchmark.metadata.namespace; name = benchmark.spec.cluster })
          <> "\"")
      ∷ "    echo \"atomix.node.id=$HOST\""
      ∷ ("    echo \"atomix.node.host=" <> get_benchmark_controller_service_name <> "\"")
      ∷ "    echo \"atomix.node.port=5679\""
      ∷ "}"
      ∷ ""
      ∷ "create_config"
      ∷ [])

  unfoldable pub new_benchmark_controller_init_config_map : ConfigMap
  unfolding get_benchmark_controller_init_config_map_name new_benchmark_controller_labels
  new_benchmark_controller_init_config_map = record {
    metadata =
        new_object_meta get_benchmark_controller_init_config_map_name benchmark.metadata.namespace
          new_benchmark_controller_labels [];
    contents = ("create_config.sh", new_benchmark_controller_init_config_map_script) ∷ [];
  }

  unfoldable pub new_benchmark_controller_config : String
  new_benchmark_controller_config = join_lines (
      "" ∷ "cluster {" ∷ "    node: ${atomix.node}" ∷ "" ∷ "    discovery {" ∷ "        type: dns"
      ∷ "        service: ${atomix.service}," ∷ "    }" ∷ "}" ∷ [])

  unfoldable pub new_benchmark_controller_system_config_map : ConfigMap
  unfolding get_benchmark_controller_system_config_map_name new_benchmark_controller_labels
  new_benchmark_controller_system_config_map = record {
    metadata =
        new_object_meta get_benchmark_controller_system_config_map_name benchmark.metadata.namespace
          new_benchmark_controller_labels [];
    contents = ("atomix.conf", new_benchmark_controller_config) ∷ [];
  }

  unfoldable pub new_benchmark_controller_pod : Pod F
  unfolding get_benchmark_controller_pod_name new_benchmark_controller_labels
      get_benchmark_controller_init_config_map_name get_benchmark_controller_system_config_map_name
  new_benchmark_controller_pod = record {
    metadata =
        new_object_meta get_benchmark_controller_pod_name benchmark.metadata.namespace
          new_benchmark_controller_labels [];
    spec = record {
      affinity = none;
      init_containers = new_init_containers (pos 1);
      containers =
          new_benchmark_containers benchmark.spec.version benchmark.spec.env
            benchmark.spec.resources;
      volumes =
          new_init_scripts_volume get_benchmark_controller_init_config_map_name
          ∷ new_user_config_volume get_benchmark_controller_system_config_map_name
          ∷ new_system_config_volume
          ∷ [];
    };
  }

  unfoldable pub new_benchmark_controller_service : Service
  unfolding get_benchmark_controller_service_name new_benchmark_controller_labels
  new_benchmark_controller_service = record {
    metadata =
        new_object_meta get_benchmark_controller_service_name benchmark.metadata.namespace
          new_benchmark_controller_labels
          (("service.alpha.kubernetes.io/tolerate-unready-endpoints", "true") ∷ []);
    spec = record {
      ports =
          record { name = benchmark.metadata.name <> "-api"; port = pos 5678 }
          ∷ record { name = benchmark.metadata.name <> "-node"; port = pos 5679 }
          ∷ [];
      publish_not_ready_addresses = true;
      cluster_ip = "None";
      selector = new_benchmark_controller_labels;
    };
  }
