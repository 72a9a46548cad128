-- ===== src/Controller/Benchmark.antt =====
-- pkg/controller/benchmark/reconciler.go: BenchmarkReconciler. Each add method looks for its object
-- once more before it creates it.
pub mod Laws
pub mod Outcomes
pub mod Cached
use atomix_operator.Base.{String}
use atomix_operator.Kube.Meta.{Foreign, NamespacedName}
use atomix_operator.Kube.Platform.{Platform}
use atomix_operator.V1alpha1.Types.{AtomixBenchmark}
use atomix_operator.V1alpha1.Defaults.{set_defaults_benchmark}
use atomix_operator.Util.Benchmark.Controller.{
  get_benchmark_controller_service_name, get_benchmark_controller_init_config_map_name,
  get_benchmark_controller_system_config_map_name, get_benchmark_controller_pod_name,
  new_benchmark_controller_init_config_map, new_benchmark_controller_system_config_map,
  new_benchmark_controller_pod, new_benchmark_controller_service,
}
use atomix_operator.Util.Benchmark.Worker.{
  get_benchmark_worker_service_name, get_benchmark_worker_init_config_map_name,
  get_benchmark_worker_system_config_map_name, get_benchmark_worker_stateful_set_name,
  new_benchmark_worker_init_config_map, new_benchmark_worker_system_config_map,
  new_benchmark_worker_stateful_set, new_benchmark_worker_service,
}
use atomix_operator.Controller.Client.{
  Client, benchmark_owner, atomix_benchmark, config_map, service, stateful_set, pod,
}
use atomix_operator.Controller.Steps.{M, then_do, done, own_and_create, get_or_add, get_or_stop}

module _ {F : Foreign} {P : Platform F} (C : Client P) where
  module _ (benchmark : AtomixBenchmark F) where
    abbrev in_namespace : String → NamespacedName
    in_namespace name = record { namespace = benchmark.metadata.namespace; name = name }

    abbrev get_controller_init_script_name : String
    get_controller_init_script_name = get_benchmark_controller_init_config_map_name benchmark

    unfoldable pub add_controller_init_script : M C (Unit {0})
    add_controller_init_script =
        get_or_add C config_map (in_namespace get_controller_init_script_name) (
          own_and_create C (benchmark_owner benchmark) config_map
            (new_benchmark_controller_init_config_map benchmark))

    unfoldable pub reconcile_controller_init_script : M C (Unit {0})
    unfolding add_controller_init_script
    reconcile_controller_init_script =
        get_or_add C config_map (in_namespace get_controller_init_script_name)
          add_controller_init_script

    abbrev get_controller_system_config_name : String
    get_controller_system_config_name = get_benchmark_controller_system_config_map_name benchmark

    unfoldable pub add_controller_system_config : M C (Unit {0})
    add_controller_system_config =
        get_or_add C config_map (in_namespace get_controller_system_config_name) (
          own_and_create C (benchmark_owner benchmark) config_map
            (new_benchmark_controller_system_config_map benchmark))

    unfoldable pub reconcile_controller_system_config : M C (Unit {0})
    unfolding add_controller_system_config
    reconcile_controller_system_config =
        get_or_add C config_map (in_namespace get_controller_system_config_name)
          add_controller_system_config

    abbrev get_controller_pod_name : String
    get_controller_pod_name = get_benchmark_controller_pod_name benchmark

    unfoldable pub add_controller_pod : M C (Unit {0})
    add_controller_pod =
        get_or_add C pod (in_namespace get_controller_pod_name) (
          own_and_create C (benchmark_owner benchmark) pod (new_benchmark_controller_pod benchmark))

    unfoldable pub reconcile_controller_pod : M C (Unit {0})
    unfolding add_controller_pod
    reconcile_controller_pod =
        get_or_add C pod (in_namespace get_controller_pod_name) add_controller_pod

    abbrev get_controller_service_name : String
    get_controller_service_name = get_benchmark_controller_service_name benchmark

    unfoldable pub add_controller_service : M C (Unit {0})
    add_controller_service = get_or_add C service (in_namespace get_controller_service_name) (
        own_and_create C (benchmark_owner benchmark) service
          (new_benchmark_controller_service benchmark))

    unfoldable pub reconcile_controller_service : M C (Unit {0})
    unfolding add_controller_service
    reconcile_controller_service =
        get_or_add C service (in_namespace get_controller_service_name) add_controller_service

    abbrev get_worker_init_script_name : String
    get_worker_init_script_name = get_benchmark_worker_init_config_map_name benchmark

    unfoldable pub add_worker_init_script : M C (Unit {0})
    add_worker_init_script = get_or_add C config_map (in_namespace get_worker_init_script_name) (
        own_and_create C (benchmark_owner benchmark) config_map
          (new_benchmark_worker_init_config_map benchmark))

    unfoldable pub reconcile_worker_init_script : M C (Unit {0})
    unfolding add_worker_init_script
    reconcile_worker_init_script =
        get_or_add C config_map (in_namespace get_worker_init_script_name) add_worker_init_script

    abbrev get_worker_system_config_name : String
    get_worker_system_config_name = get_benchmark_worker_system_config_map_name benchmark

    unfoldable pub add_worker_system_config : M C (Unit {0})
    add_worker_system_config =
        get_or_add C config_map (in_namespace get_worker_system_config_name) (
          own_and_create C (benchmark_owner benchmark) config_map
            (new_benchmark_worker_system_config_map benchmark))

    unfoldable pub reconcile_worker_system_config : M C (Unit {0})
    unfolding add_worker_system_config
    reconcile_worker_system_config =
        get_or_add C config_map (in_namespace get_worker_system_config_name)
          add_worker_system_config

    abbrev get_worker_stateful_set_name : String
    get_worker_stateful_set_name = get_benchmark_worker_stateful_set_name benchmark

    unfoldable pub add_worker_pod : M C (Unit {0})
    add_worker_pod = get_or_add C stateful_set (in_namespace get_worker_stateful_set_name) (
        own_and_create C (benchmark_owner benchmark) stateful_set
          (new_benchmark_worker_stateful_set benchmark))

    unfoldable pub reconcile_worker_pod : M C (Unit {0})
    unfolding add_worker_pod
    reconcile_worker_pod =
        get_or_add C stateful_set (in_namespace get_worker_stateful_set_name) add_worker_pod

    abbrev get_worker_service_name : String
    get_worker_service_name = get_benchmark_worker_service_name benchmark

    unfoldable pub add_worker_service : M C (Unit {0})
    add_worker_service = get_or_add C service (in_namespace get_worker_service_name) (
        own_and_create C (benchmark_owner benchmark) service
          (new_benchmark_worker_service benchmark))

    unfoldable pub reconcile_worker_service : M C (Unit {0})
    unfolding add_worker_service
    reconcile_worker_service =
        get_or_add C service (in_namespace get_worker_service_name) add_worker_service

    -- The part of `Reconcile` below `SetDefaults_Benchmark`: the workers' half, and the whole.
    unfoldable pub reconcile_worker : M C (Unit {0})
    unfolding reconcile_worker_init_script reconcile_worker_system_config reconcile_worker_pod
        reconcile_worker_service
    reconcile_worker = then_do C reconcile_worker_init_script λ _.
        then_do C reconcile_worker_system_config
          λ _. then_do C reconcile_worker_pod λ _. then_do C reconcile_worker_service λ _. done C

    unfoldable pub reconcile_objects : M C (Unit {0})
    unfolding reconcile_controller_init_script reconcile_controller_system_config
        reconcile_controller_pod reconcile_controller_service reconcile_worker
    reconcile_objects = then_do C reconcile_controller_init_script λ _.
        then_do C reconcile_controller_system_config λ _.
          then_do C reconcile_controller_pod
            λ _. then_do C reconcile_controller_service λ _. reconcile_worker

  unfoldable pub reconcile : NamespacedName → M C (Unit {0})
  unfolding reconcile_objects
  reconcile request =
      get_or_stop C atomix_benchmark request
        λ benchmark. reconcile_objects (set_defaults_benchmark benchmark)
