-- ===== src/Controller/Benchmark/Outcomes.antt =====
-- `Reconcile` of an AtomixBenchmark follows no nil pointer.
use atomix_operator.Base.{◌≢◌, panic, ok-ne-panic}
use atomix_operator.Kube.Meta.{Foreign, NamespacedName}
use atomix_operator.Kube.Platform.{Platform}
use atomix_operator.V1alpha1.Defaults.{set_defaults_benchmark}
use atomix_operator.Controller.Client.{
  Client, benchmark_owner, stateful_set, config_map, service, pod,
}
use atomix_operator.Controller.Store.{Store}
use atomix_operator.Controller.Ensures.Owned.{OwnsCalmly, owned-ne-panic}
use atomix_operator.Controller.Benchmark.{reconcile}
use atomix_operator.Controller.Benchmark.Laws.{benchmark_reconcile-Reconciles}

module _ {F : Foreign} {P : Platform F} (C : Client P) (S : Store C) where
  -- If `SetControllerReference` does not panic, `Reconcile` does not.
  pub benchmark_reconcile-ne-panic :
      OwnsCalmly C → (request : NamespacedName) (w : C.World) → (reconcile C request w).1 ≢ panic
  benchmark_reconcile-ne-panic calm request w =
      (benchmark_reconcile-Reconciles C S request).ne_panic w λ benchmark _.
        let o = benchmark_owner (set_defaults_benchmark benchmark) in
        (
          owned-ne-panic C o config_map _ calm ok-ne-panic,
          (
            owned-ne-panic C o config_map _ calm ok-ne-panic,
            (
              owned-ne-panic C o pod _ calm ok-ne-panic,
              (
                owned-ne-panic C o service _ calm ok-ne-panic,
                (
                  owned-ne-panic C o config_map _ calm ok-ne-panic,
                  (
                    owned-ne-panic C o config_map _ calm ok-ne-panic,
                    (
                      owned-ne-panic C o stateful_set _ calm ok-ne-panic,
                      (owned-ne-panic C o service _ calm ok-ne-panic, tt),
                    ),
                  ),
                ),
              ),
            ),
          ),
        )
