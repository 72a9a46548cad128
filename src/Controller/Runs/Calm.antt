-- ===== src/Controller/Runs/Calm.antt =====
-- No call of Reconcile panics.
use atomix_operator.Base.{◌≢◌, String, panic}
use atomix_operator.Kube.Meta.{Foreign, NamespacedName}
use atomix_operator.Kube.Platform.{Platform}
use atomix_operator.Controller.Client.{Client}
use atomix_operator.Controller.Store.{Store}
use atomix_operator.Controller.Ensures.Owned.{OwnsCalmly}
use atomix_operator.Controller.Cluster.Outcomes.{cluster_reconcile-ne-panic}
use atomix_operator.Controller.PartitionGroup.Outcomes.{group_reconcile-ne-panic}
use atomix_operator.Controller.Benchmark.Outcomes.{benchmark_reconcile-ne-panic}
use atomix_operator.Controller.Runs.{
  Controller, cluster_controller, group_controller, benchmark_controller, reconcile_request,
}

module _ {F : Foreign} {P : Platform F} (C : Client P) (S : Store C) where
  -- If neither the parser of sizes nor `SetControllerReference` panics, `Reconcile` of none of the
  -- three reconcilers does, whatever is stored: it follows no nil pointer of a resource.
  pub request-ne-panic :
      OwnsCalmly C
      → ((size : String) → P.parse_quantity size ≢ panic)
      → (c : Controller) (n : NamespacedName) (w : C.World) → (reconcile_request C c n w).1 ≢ panic
  request-ne-panic calm parses cluster_controller n w =
      cluster_reconcile-ne-panic C S calm parses n w
  request-ne-panic calm parses group_controller n w = group_reconcile-ne-panic C S calm parses n w
  request-ne-panic calm parses benchmark_controller n w = benchmark_reconcile-ne-panic C S calm n w
