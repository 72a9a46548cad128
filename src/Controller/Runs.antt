-- ===== src/Controller/Runs.antt =====
-- The three reconcilers behind one manager: it calls Reconcile of a controller with a name, one call
-- after another, in an order that events and repetitions decide. What a call returns only decides
-- whether it is repeated, which the list of calls shows.
pub mod Recovery
pub mod Laws
pub mod Resources
pub mod Histories
pub mod Calm
use atomix_operator.Base.{List, [], ◌∷◌}
use atomix_operator.Kube.Meta.{Foreign, NamespacedName}
use atomix_operator.Kube.Platform.{Platform}
use atomix_operator.V1alpha1.Defaults.{
  set_defaults_cluster, set_defaults_partition_group, set_defaults_benchmark,
}
use atomix_operator.Controller.Client.{
  Kind, ObjectOf, Client, atomix_cluster, partition_group, atomix_benchmark,
}
use atomix_operator.Controller.Steps.{M}
use atomix_operator.Controller.Ensures.{Child}
use atomix_operator.Controller.Cluster
use atomix_operator.Controller.PartitionGroup
use atomix_operator.Controller.Benchmark
use atomix_operator.Controller.Cluster.Laws.{cluster_children}
use atomix_operator.Controller.PartitionGroup.Laws.{group_children}
use atomix_operator.Controller.Benchmark.Laws.{benchmark_children}

pub data Controller : Type 0 where
  cluster_controller group_controller benchmark_controller : Controller

-- The resource that a controller reconciles.
abbrev pub resource_of : Controller → Kind
resource_of cluster_controller = atomix_cluster
resource_of group_controller = partition_group
resource_of benchmark_controller = atomix_benchmark

-- A call of a controller's Reconcile.
abbrev pub Request : Type 0
Request = Controller × NamespacedName

module _ {F : Foreign} {P : Platform F} (C : Client P) where
  abbrev pub reconcile_request : Controller → NamespacedName → M C (Unit {0})
  reconcile_request cluster_controller = Cluster.reconcile C
  reconcile_request group_controller = PartitionGroup.reconcile C
  reconcile_request benchmark_controller = Benchmark.reconcile C

  pub run : List Request → C.World → C.World
  run [] w = w
  run ((c, n) ∷ requests) w = run requests (reconcile_request c n w).0

  -- What belongs to a stored resource.
  abbrev pub children_of : (c : Controller) → ObjectOf F (resource_of c) → List (Child P)
  children_of cluster_controller x = cluster_children C (set_defaults_cluster x)
  children_of group_controller x = group_children C (set_defaults_partition_group x)
  children_of benchmark_controller x = benchmark_children C (set_defaults_benchmark x)
