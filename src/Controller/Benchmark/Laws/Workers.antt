-- ===== src/Controller/Benchmark/Laws/Workers.antt =====
-- The workers' configuration maps and service have the names of the controller's.
use atomix_operator.Base.{◌≡◌, some, ◌∷◌, []}
use atomix_operator.Kube.Meta.{Foreign, NamespacedName}
use atomix_operator.Kube.Platform.{Platform}
use atomix_operator.V1alpha1.Types.{AtomixBenchmark}
use atomix_operator.V1alpha1.Defaults.{set_defaults_benchmark}
use atomix_operator.Util.Benchmark.Controller.{
  get_benchmark_controller_service_name, get_benchmark_controller_init_config_map_name,
  get_benchmark_controller_system_config_map_name,
}
use atomix_operator.Util.Benchmark.Worker.{
  get_benchmark_worker_service_name, get_benchmark_worker_init_config_map_name,
  get_benchmark_worker_system_config_map_name,
}
use atomix_operator.Controller.Client.{Client, atomix_benchmark, config_map, service}
use atomix_operator.Controller.Store.{Store}
use atomix_operator.Controller.Ensures.{Ensures}
use atomix_operator.Controller.Ensures.Sequence.{then_do-Ensures}
use atomix_operator.Controller.Ensures.Shadow.{
  AddsOnly, AddsOnly-skip, AddsOnly-stop, AddsOnly-get_or_stop,
}
use atomix_operator.Controller.Benchmark.{
  reconcile_objects, reconcile, reconcile_worker, reconcile_controller_service,
  reconcile_controller_pod, reconcile_controller_system_config,
}
use atomix_operator.Controller.Steps.{M, then_do}
use atomix_operator.Controller.Benchmark.Laws.{
  worker_children, controller_pod, controller_service, controller_children, controller_init,
  controller_config, worker_init, worker_config, worker_service, worker-Ensures,
  controller_init-Ensures, controller_config-Ensures, controller_pod-Ensures,
  controller_service-Ensures,
}

module _ {F : Foreign} {P : Platform F} (C : Client P) (S : Store C) where
  module _ (b : AtomixBenchmark F) where
    -- What `Reconcile` still does from the controller's service, pod and configuration on.
    abbrev from_service : M C (Unit {0})
    from_service = then_do C (reconcile_controller_service C b) λ _. reconcile_worker C b

    abbrev from_pod : M C (Unit {0})
    from_pod = then_do C (reconcile_controller_pod C b) λ _. from_service

    abbrev from_config : M C (Unit {0})
    from_config = then_do C (reconcile_controller_system_config C b) λ _. from_pod

    from_service-Ensures : Ensures S from_service (controller_service C b ∷ worker_children C b)
    from_service-Ensures =
        then_do-Ensures S _ _ _ _ (controller_service-Ensures C b S) (worker-Ensures C b S)

    from_pod-Ensures :
        Ensures S from_pod (controller_pod C b ∷ controller_service C b ∷ worker_children C b)
    from_pod-Ensures = then_do-Ensures S _ _ _ _ (controller_pod-Ensures C b S) from_service-Ensures

    init_only :
        (w : C.World)
        → AddsOnly S
            (reconcile_objects C b)
            (controller_init C b ∷ [])
            config_map
            (worker_init C b).name
            w
    unfolding reconcile_objects get_benchmark_controller_init_config_map_name
        get_benchmark_worker_init_config_map_name
    init_only =
        AddsOnly-stop S _ _ from_config (controller_init-Ensures C b S) _
          (then_do-Ensures S _ _ _ _ (controller_config-Ensures C b S) from_pod-Ensures).extends

    config_only :
        (w : C.World)
        → AddsOnly S
            (reconcile_objects C b)
            (controller_init C b ∷ controller_config C b ∷ [])
            config_map
            (worker_config C b).name
            w
    unfolding reconcile_objects get_benchmark_controller_system_config_map_name
        get_benchmark_worker_system_config_map_name
    config_only =
        AddsOnly-skip S _ _ from_config (controller_init-Ensures C b S) (controller_config C b ∷ [])
          config_map (worker_config C b).name
          (AddsOnly-stop S _ _ from_pod (controller_config-Ensures C b S) _
            from_pod-Ensures.extends)

    service_only :
        (w : C.World)
        → AddsOnly S
            (reconcile_objects C b)
            (controller_children C b)
            service
            (worker_service C b).name
            w
    unfolding reconcile_objects get_benchmark_controller_service_name
        get_benchmark_worker_service_name
    service_only =
        let name = (worker_service C b).name in
        AddsOnly-skip S _ _ from_config (controller_init-Ensures C b S)
          (controller_config C b ∷ controller_pod C b ∷ controller_service C b ∷ []) service name
          (AddsOnly-skip S _ _ from_pod (controller_config-Ensures C b S)
            (controller_pod C b ∷ controller_service C b ∷ []) service name
            (AddsOnly-skip S _ _ from_service (controller_pod-Ensures C b S)
              (controller_service C b ∷ []) service name
              (AddsOnly-stop S _ _ (reconcile_worker C b) (controller_service-Ensures C b S) _
                (worker-Ensures C b S).extends)))

  -- For a stored benchmark, `Reconcile` never creates the workers' init script, configuration or
  -- service: whatever it stores under the names of these was built for the controller, since the
  -- controller's objects have the same names and come first.
  pub benchmark_workers_shadowed :
      (request : NamespacedName) (w : C.World) (found : AtomixBenchmark F)
      → S.lookup w atomix_benchmark request ≡ some found
      → let b = set_defaults_benchmark found in
        AddsOnly S
          (reconcile C request)
          (controller_init C b ∷ [])
          config_map
          (worker_init C b).name
          w
        × AddsOnly S
            (reconcile C request)
            (controller_init C b ∷ controller_config C b ∷ [])
            config_map
            (worker_config C b).name
            w
        × AddsOnly S
            (reconcile C request)
            (controller_children C b)
            service
            (worker_service C b).name
            w
  unfolding reconcile
  benchmark_workers_shadowed request w found e =
      let b = set_defaults_benchmark found in
      let next = λ (x : AtomixBenchmark F). reconcile_objects C (set_defaults_benchmark x) in
      (
        AddsOnly-get_or_stop S atomix_benchmark request next (controller_init C b ∷ []) config_map
            (worker_init C b).name w found e (init_only b),
        AddsOnly-get_or_stop S atomix_benchmark request next
            (controller_init C b ∷ controller_config C b ∷ []) config_map (worker_config C b).name w
            found e (config_only b),
        AddsOnly-get_or_stop S atomix_benchmark request next (controller_children C b) service
            (worker_service C b).name w found e (service_only b),
      )
