-- ===== src/Controller/Benchmark/Laws.antt =====
-- What `Reconcile` does for an AtomixBenchmark, over any lawful client.
pub mod Workers
use atomix_operator.Base.{◌≡◌, refl, List, [], ◌∷◌, ◌++◌, Result, ok, String}
use atomix_operator.Kube.Meta.{Foreign, NamespacedName}
use atomix_operator.Kube.Platform.{Platform}
use atomix_operator.V1alpha1.Types.{AtomixBenchmark}
use atomix_operator.V1alpha1.Defaults.{set_defaults_benchmark}
use atomix_operator.Util.Benchmark.Controller.{
  get_benchmark_controller_service_name, get_benchmark_controller_init_config_map_name,
  get_benchmark_controller_system_config_map_name, get_benchmark_controller_pod_name,
  new_benchmark_controller_init_config_map, new_benchmark_controller_system_config_map,
  new_benchmark_controller_pod, new_benchmark_controller_service,
}
use atomix_operator.Util.Benchmark.Worker.{
  get_benchmark_worker_service_name, get_benchmark_worker_init_config_map_name,
  get_benchmark_worker_system_config_map_name, get_benchmark_worker_stateful_set_name,
  new_benchmark_worker_init_config_map, new_benchmark_worker_system_config_map,
  new_benchmark_worker_stateful_set, new_benchmark_worker_service,
}
use atomix_operator.Controller.Client.{
  Kind, ObjectOf, Client, Owner, benchmark_owner, atomix_benchmark, config_map, service,
  stateful_set, pod,
}
use atomix_operator.Controller.Store.{Store}
use atomix_operator.Controller.Ensures.{Child, Ensures}
use atomix_operator.Controller.Ensures.Own.{child, own_again-Ensures}
use atomix_operator.Controller.Ensures.Sequence.{done-Ensures, then_do-Ensures}
use atomix_operator.Controller.Ensures.Reconciles.{
  Reconciles, get_or_stop-Reconciles, Reconciles-twice,
}
use atomix_operator.Controller.Benchmark.{
  reconcile_worker, reconcile_objects, reconcile, reconcile_controller_init_script,
  reconcile_controller_system_config, reconcile_controller_pod, reconcile_controller_service,
}

module _ {F : Foreign} {P : Platform F} (C : Client P) (benchmark : AtomixBenchmark F) where
  abbrev in_namespace : String → NamespacedName
  in_namespace name = record { namespace = benchmark.metadata.namespace; name = name }

  abbrev owned_child : (k : Kind) → String → ObjectOf F k → Child P
  owned_child k name object = child C (benchmark_owner benchmark) k (in_namespace name) (ok object)

  -- The objects of the controller of a benchmark whose defaults are set.
  abbrev pub controller_init : Child P
  controller_init =
      owned_child config_map (get_benchmark_controller_init_config_map_name benchmark)
        (new_benchmark_controller_init_config_map benchmark)

  abbrev pub controller_config : Child P
  controller_config =
      owned_child config_map (get_benchmark_controller_system_config_map_name benchmark)
        (new_benchmark_controller_system_config_map benchmark)

  abbrev pub controller_pod : Child P
  controller_pod =
      owned_child pod (get_benchmark_controller_pod_name benchmark)
        (new_benchmark_controller_pod benchmark)

  abbrev pub controller_service : Child P
  controller_service =
      owned_child service (get_benchmark_controller_service_name benchmark)
        (new_benchmark_controller_service benchmark)

  abbrev pub worker_init : Child P
  worker_init =
      owned_child config_map (get_benchmark_worker_init_config_map_name benchmark)
        (new_benchmark_worker_init_config_map benchmark)

  abbrev pub worker_config : Child P
  worker_config =
      owned_child config_map (get_benchmark_worker_system_config_map_name benchmark)
        (new_benchmark_worker_system_config_map benchmark)

  abbrev pub worker_set : Child P
  worker_set =
      owned_child stateful_set (get_benchmark_worker_stateful_set_name benchmark)
        (new_benchmark_worker_stateful_set benchmark)

  abbrev pub worker_service : Child P
  worker_service =
      owned_child service (get_benchmark_worker_service_name benchmark)
        (new_benchmark_worker_service benchmark)

  abbrev pub worker_children : List (Child P)
  worker_children = worker_init ∷ worker_config ∷ worker_set ∷ worker_service ∷ []

  abbrev pub controller_children : List (Child P)
  controller_children =
      controller_init ∷ controller_config ∷ controller_pod ∷ controller_service ∷ []

  abbrev pub benchmark_children : List (Child P)
  benchmark_children = controller_children ++ worker_children

  module _ (S : Store C) where
    abbrev owner : Owner F
    owner = benchmark_owner benchmark

    pub worker-Ensures : Ensures S (reconcile_worker C benchmark) worker_children
    unfolding reconcile_worker new_benchmark_worker_init_config_map
        new_benchmark_worker_system_config_map new_benchmark_worker_stateful_set
        new_benchmark_worker_service
    worker-Ensures = then_do-Ensures S _ _ _ _ (own_again-Ensures C owner config_map S _ _ refl) (
        then_do-Ensures S _ _ _ _ (own_again-Ensures C owner config_map S _ _ refl) (
          then_do-Ensures S _ _ _ _ (own_again-Ensures C owner stateful_set S _ _ refl) (
            then_do-Ensures S _ _ _ _ (own_again-Ensures C owner service S _ _ refl)
              (done-Ensures S))))

    pub controller_init-Ensures :
        Ensures S (reconcile_controller_init_script C benchmark) (controller_init ∷ [])
    unfolding reconcile_controller_init_script new_benchmark_controller_init_config_map
    controller_init-Ensures = own_again-Ensures C owner config_map S _ _ refl

    pub controller_config-Ensures :
        Ensures S (reconcile_controller_system_config C benchmark) (controller_config ∷ [])
    unfolding reconcile_controller_system_config new_benchmark_controller_system_config_map
    controller_config-Ensures = own_again-Ensures C owner config_map S _ _ refl

    pub controller_pod-Ensures :
        Ensures S (reconcile_controller_pod C benchmark) (controller_pod ∷ [])
    unfolding reconcile_controller_pod new_benchmark_controller_pod
    controller_pod-Ensures = own_again-Ensures C owner pod S _ _ refl

    pub controller_service-Ensures :
        Ensures S (reconcile_controller_service C benchmark) (controller_service ∷ [])
    unfolding reconcile_controller_service new_benchmark_controller_service
    controller_service-Ensures = own_again-Ensures C owner service S _ _ refl

    reconcile_objects-Ensures : Ensures S (reconcile_objects C benchmark) benchmark_children
    unfolding reconcile_objects
    reconcile_objects-Ensures = then_do-Ensures S _ _ _ _ controller_init-Ensures (
        then_do-Ensures S _ _ _ _ controller_config-Ensures (
          then_do-Ensures S _ _ _ _ controller_pod-Ensures
            (then_do-Ensures S _ _ _ _ controller_service-Ensures worker-Ensures)))

module _ {F : Foreign} {P : Platform F} (C : Client P) (S : Store C)
    (request : NamespacedName) where
  -- Over a lawful client, `Reconcile` of an AtomixBenchmark refines its specification: it ensures,
  -- for the stored benchmark with its defaults set, an object under each of the eight names of the
  -- controller's and the workers' objects, never changes or removes a stored object, creates only
  -- objects built for these names, and does nothing where the benchmark is gone.
  pub benchmark_reconcile-Reconciles :
      Reconciles S
        (reconcile C request)
        atomix_benchmark
        request
        (λ benchmark. benchmark_children C (set_defaults_benchmark benchmark))
  unfolding reconcile
  benchmark_reconcile-Reconciles =
      get_or_stop-Reconciles S atomix_benchmark request _ _
        (λ benchmark. reconcile_objects-Ensures C (set_defaults_benchmark benchmark) S)

  -- After a successful `Reconcile` of an AtomixBenchmark a second run changes no stored object and
  -- adds none, whatever its own calls return.
  pub benchmark_reconcile_twice :
      (w : C.World)
      → (reconcile C request w).1 ≡ ok tt
      → (j : Kind) (n : NamespacedName)
      → S.lookup (reconcile C request (reconcile C request w).0).0 j n
        ≡ S.lookup (reconcile C request w).0 j n
  benchmark_reconcile_twice = Reconciles-twice S benchmark_reconcile-Reconciles
