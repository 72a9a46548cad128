-- ===== src/V1alpha1/Scheme.antt =====
-- register.go, the init functions of benchmark.go, cluster.go and partitiongroup.go, which Go runs in
-- the order of the files' names, and pkg/apis: the types of the resources are registered with a
-- scheme. The builder of controller-runtime and the list of builders of apimachinery are parameters.
pub mod Laws
use atomix_operator.Base.{String, Result, List, [], ◌∷◌, ◌++◌}
use atomix_operator.V1alpha1.DeepCopy.Objects.{
  ObjectType, cluster_object, group_object, benchmark_object, cluster_list_object,
  group_list_object, benchmark_list_object,
}

-- `scheme.Builder` with Register and AddToScheme, and AddToScheme of `runtime.SchemeBuilder`.
pub record Schemes (E : Type 0) : Type 1 where
  pub Builder : Type 0
  pub Scheme : Type 0
  pub new_builder : (group version : String) → Builder
  pub register : List ObjectType → Builder → Builder
  pub build : Builder → Scheme → Scheme × Result E (Unit {0})
  pub build_all :
      List (Scheme → Scheme × Result E (Unit {0})) → Scheme → Scheme × Result E (Unit {0})

module _ {E : Type 0} (A : Schemes E) where
  -- Before the init functions.
  unfoldable pub new_scheme_builder : A.Builder
  new_scheme_builder = A.new_builder "agent.atomix.io" "v1alpha1"

  unfoldable pub register_benchmark : A.Builder → A.Builder
  register_benchmark = A.register (benchmark_object ∷ benchmark_list_object ∷ [])

  unfoldable pub register_cluster : A.Builder → A.Builder
  register_cluster = A.register (cluster_object ∷ cluster_list_object ∷ [])

  unfoldable pub register_partition_group : A.Builder → A.Builder
  register_partition_group = A.register (group_object ∷ group_list_object ∷ [])

  -- `SchemeBuilder` after the init functions.
  unfoldable pub scheme_builder : A.Builder
  unfolding new_scheme_builder register_benchmark register_cluster register_partition_group
  scheme_builder =
      register_partition_group (register_cluster (register_benchmark new_scheme_builder))

  -- `AddToSchemes` after init of pkg/apis.
  unfoldable pub add_to_schemes : List (A.Scheme → A.Scheme × Result E (Unit {0}))
  unfolding scheme_builder
  add_to_schemes = [] ++ A.build scheme_builder ∷ []

  unfoldable pub add_to_scheme : A.Scheme → A.Scheme × Result E (Unit {0})
  unfolding add_to_schemes
  add_to_scheme = A.build_all add_to_schemes
