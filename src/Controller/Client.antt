-- ===== src/Controller/Client.antt =====
-- The API client of sigs.k8s.io/controller-runtime, and the computations that call it. Both are
-- parameters: a world that the calls change, `Client.Get`, `Client.Create` and
-- `controllerutil.SetControllerReference`.
use atomix_operator.Base.{List, Result}
use atomix_operator.Kube.Meta.{Foreign, NamespacedName, ObjectMeta, OwnerReference}
use atomix_operator.Kube.Pod.{Pod}
use atomix_operator.Kube.Objects.{ConfigMap, Service, PodDisruptionBudget, StatefulSet}
use atomix_operator.Kube.Platform.{Platform}
use atomix_operator.V1alpha1.Types.{AtomixCluster, PartitionGroup, AtomixBenchmark}

-- The types of the objects that the operator gets or creates.
pub data Kind : Type 0 where
  atomix_cluster partition_group atomix_benchmark : Kind
  config_map service pod_disruption_budget stateful_set pod : Kind

abbrev pub ObjectOf : Foreign → Kind → Type 0
ObjectOf F atomix_cluster = AtomixCluster F
ObjectOf F partition_group = PartitionGroup F
ObjectOf F atomix_benchmark = AtomixBenchmark F
ObjectOf F config_map = ConfigMap
ObjectOf F service = Service
ObjectOf F pod_disruption_budget = PodDisruptionBudget
ObjectOf F stateful_set = StatefulSet F
ObjectOf F pod = Pod F

abbrev pub metadata_of : (F : Foreign) (k : Kind) → ObjectOf F k → ObjectMeta
metadata_of F atomix_cluster x = x.metadata
metadata_of F partition_group x = x.metadata
metadata_of F atomix_benchmark x = x.metadata
metadata_of F config_map x = x.metadata
metadata_of F service x = x.metadata
metadata_of F pod_disruption_budget x = x.metadata
metadata_of F stateful_set x = x.metadata
metadata_of F pod x = x.metadata

abbrev pub set_metadata : (F : Foreign) (k : Kind) → ObjectOf F k → ObjectMeta → ObjectOf F k
set_metadata F atomix_cluster x m = record x { metadata = m }
set_metadata F partition_group x m = record x { metadata = m }
set_metadata F atomix_benchmark x m = record x { metadata = m }
set_metadata F config_map x m = record x { metadata = m }
set_metadata F service x m = record x { metadata = m }
set_metadata F pod_disruption_budget x m = record x { metadata = m }
set_metadata F stateful_set x m = record x { metadata = m }
set_metadata F pod x m = record x { metadata = m }

-- The name under which an object is stored.
abbrev pub key_of : (F : Foreign) (k : Kind) → ObjectOf F k → NamespacedName
key_of F k x = record { namespace = (metadata_of F k x).namespace; name = (metadata_of F k x).name }

-- The owner that a reconciler hands to `SetControllerReference`.
pub data Owner (F : Foreign) : Type 0 where
  cluster_owner : AtomixCluster F → Owner F
  group_owner : PartitionGroup F → Owner F
  benchmark_owner : AtomixBenchmark F → Owner F

pub record Client {F : Foreign} (P : Platform F) : Type 1 where
  -- What the API server and the client's cache hold, and whatever decides that a call fails.
  pub World : Type 0
  pub get : (k : Kind) → NamespacedName → World → World × Result P.Error (ObjectOf F k)
  pub create : (k : Kind) → ObjectOf F k → World → World × Result P.Error (Unit {0})
  -- The owner references that the object has afterwards.
  pub set_controller_reference : Owner F → ObjectMeta → Result P.Error (List OwnerReference)
