-- ===== src/Tests/Benchmarks.antt =====
-- The theorems on the reconciler of the AtomixBenchmark, with the client in memory.
use atomix_operator.Base.{refl, inl, inr, [], ◌∷◌}
use atomix_operator.V1alpha1.Defaults.{set_defaults_benchmark}
use atomix_operator.Controller.Client.{atomix_benchmark, config_map, service}
use atomix_operator.Controller.Ensures.Reconciles.{Reconciles}
use atomix_operator.Controller.Ensures.Shadow.{AddsOnly}
use atomix_operator.Controller.Benchmark as Benchmark
use atomix_operator.Controller.Benchmark.Laws.{
  benchmark_children, controller_children, controller_init, controller_config, worker_init,
  worker_config, worker_service, benchmark_reconcile-Reconciles,
}
use atomix_operator.Controller.Benchmark.Laws.Workers.{benchmark_workers_shadowed}
use atomix_operator.Controller.Cached.{CachedClient}
use atomix_operator.Util.Benchmark.Controller.{
  new_benchmark_controller_init_config_map, new_benchmark_controller_system_config_map,
  new_benchmark_controller_service,
}
use atomix_operator.Tests.Memory.{client, store, client-IsReliable, World, put}
use atomix_operator.Tests.Samples.{benchmark, in_default, with_benchmark}

benchmark_reconcile-Reconciles_example :
    Reconciles store
      (Benchmark.reconcile client (in_default "load"))
      atomix_benchmark
      (in_default "load")
      (λ x. benchmark_children client (set_defaults_benchmark x))
benchmark_reconcile-Reconciles_example =
    benchmark_reconcile-Reconciles client store (in_default "load")

-- The client in memory has a cache that is never late.
abbrev cached : CachedClient client
cached = record {
  server = store.lookup;
  cache = store.lookup;
  admitted = store.admitted;
  get-cached = client-IsReliable.get-some;
  get-missing = client-IsReliable.get-none;
  server-get = store.lookup-get;
  cache-get = λ k n w j m. inl (store.lookup-get k n w j m);
  create-fresh = λ k x w e.
      let success = client-IsReliable.create-fresh k x w e in
      (success, store.create-ok k x w success);
  create-keeps = store.create-keeps;
  create-adds = store.create-adds;
  cache-create = λ k x w j m. inr refl;
}

-- What an earlier call has made under the three shared names.
abbrev with_shared : World
with_shared = put config_map (new_benchmark_controller_init_config_map benchmark) (
    put config_map (new_benchmark_controller_system_config_map benchmark)
      (put service (new_benchmark_controller_service benchmark) with_benchmark))

benchmark_workers_shadowed_example :
    let b = set_defaults_benchmark benchmark in
    AddsOnly store
      (Benchmark.reconcile client (in_default "load"))
      (controller_init client b ∷ [])
      config_map
      (worker_init client b).name
      with_benchmark
    × AddsOnly store
        (Benchmark.reconcile client (in_default "load"))
        (controller_init client b ∷ controller_config client b ∷ [])
        config_map
        (worker_config client b).name
        with_benchmark
    × AddsOnly store
        (Benchmark.reconcile client (in_default "load"))
        (controller_children client b)
        service
        (worker_service client b).name
        with_benchmark
benchmark_workers_shadowed_example =
    benchmark_workers_shadowed client store (in_default "load") with_benchmark benchmark refl
