-- ===== src/Util/Collisions.antt =====
-- Which names of objects coincide: two resources with a common name share the object.
use atomix_operator.Base.{◌≡◌, ◌≢◌, ◌↔◌, ap, String, ◌<>◌, eq_iff, arith}
use text.Mathlib.TextLemmas.{append_cancel_left, append_cancel_right}
use atomix_operator.Kube.Meta.{Foreign}
use atomix_operator.V1alpha1.Types.{AtomixCluster, PartitionGroup}
use atomix_operator.Util.Resources.{init_suffix, config_suffix}
use atomix_operator.Util.Cluster.{
  get_management_service_name, get_management_disruption_budget_name,
  get_management_init_config_map_name, get_management_system_config_map_name,
  get_management_stateful_set_name,
}
use atomix_operator.Util.PartitionGroup.{
  get_partition_group_service_name, get_partition_group_disruption_budget_name,
  get_partition_group_init_config_map_name, get_partition_group_system_config_map_name,
  get_partition_group_stateful_set_name,
}

resource_name_iff : (a b suffix : String) → (a <> "-" <> suffix ≡ b <> "-" <> suffix) ↔ (a ≡ b)
resource_name_iff a b suffix =
    (λ e. append_cancel_right a b ("-" <> suffix) e, λ e. ap (λ x. x <> "-" <> suffix) e)

resource_name-injective : (a s t : String) → a <> "-" <> s ≡ a <> "-" <> t → s ≡ t
resource_name-injective a s t e =
    append_cancel_left "-" s t (append_cancel_left a ("-" <> s) ("-" <> t) e)

suffixes_differ : init_suffix ≢ config_suffix
suffixes_differ e = ground (arith, eq_iff init_suffix config_suffix)

module _ {F : Foreign} (cluster : AtomixCluster F) where
  abbrev pub ClustersCollide : AtomixCluster F → Type 0
  ClustersCollide other =
      ((get_management_init_config_map_name cluster ≡ get_management_init_config_map_name other)
        ↔ (cluster.metadata.name ≡ other.metadata.name))
      × ((get_management_system_config_map_name cluster
            ≡ get_management_system_config_map_name other)
          ↔ (cluster.metadata.name ≡ other.metadata.name))
      × ((get_management_disruption_budget_name cluster
            ≡ get_management_disruption_budget_name other)
          ↔ (cluster.metadata.name ≡ other.metadata.name))
      × ((get_management_stateful_set_name cluster ≡ get_management_stateful_set_name other)
          ↔ (cluster.metadata.name ≡ other.metadata.name))
      × ((get_management_service_name cluster ≡ get_management_service_name other)
          ↔ (cluster.metadata.name ≡ other.metadata.name))
      × (get_management_init_config_map_name cluster
          ≢ get_management_system_config_map_name cluster)

  cluster_names_collide : (other : AtomixCluster F) → ClustersCollide other
  unfolding get_management_init_config_map_name get_management_system_config_map_name
      get_management_disruption_budget_name get_management_stateful_set_name
      get_management_service_name
  cluster_names_collide other =
      let a = cluster.metadata.name in
      let b = other.metadata.name in
      (
        resource_name_iff a b "init",
        resource_name_iff a b "config",
        resource_name_iff a b "pdb",
        (λ e. e, λ e. e),
        (λ e. e, λ e. e),
        λ e. suffixes_differ (resource_name-injective a "init" "config" e),
      )

  abbrev pub GroupCollides : PartitionGroup F → Type 0
  GroupCollides group =
      ((get_management_init_config_map_name cluster
          ≡ get_partition_group_init_config_map_name group)
        ↔ (cluster.metadata.name ≡ group.metadata.name))
      × ((get_management_system_config_map_name cluster
            ≡ get_partition_group_system_config_map_name group)
          ↔ (cluster.metadata.name ≡ group.metadata.name))
      × ((get_management_disruption_budget_name cluster
            ≡ get_partition_group_disruption_budget_name group)
          ↔ (cluster.metadata.name ≡ group.metadata.name))
      × ((get_management_stateful_set_name cluster ≡ get_partition_group_stateful_set_name group)
          ↔ (cluster.metadata.name ≡ group.metadata.name))
      × ((get_management_service_name cluster ≡ get_partition_group_service_name group)
          ↔ (cluster.metadata.name ≡ group.metadata.name))

  group_names_collide : (group : PartitionGroup F) → GroupCollides group
  unfolding get_management_init_config_map_name get_management_system_config_map_name
      get_management_disruption_budget_name get_management_stateful_set_name
      get_management_service_name get_partition_group_init_config_map_name
      get_partition_group_system_config_map_name get_partition_group_disruption_budget_name
      get_partition_group_stateful_set_name get_partition_group_service_name
  group_names_collide group =
      let a = cluster.metadata.name in
      let b = group.metadata.name in
      (
        resource_name_iff a b "init",
        resource_name_iff a b "config",
        resource_name_iff a b "pdb",
        (λ e. e, λ e. e),
        (λ e. e, λ e. e),
      )

  -- Two clusters share the name of a configuration map, disruption budget, StatefulSet or service
  -- exactly if they have one name; the two configuration maps of one cluster never share theirs. A
  -- partition group shares the name of each of its five objects with a cluster exactly if the two
  -- have one name.
  pub names_collide :
      (other : AtomixCluster F) (group : PartitionGroup F)
      → ClustersCollide other × GroupCollides group
  names_collide other group = (cluster_names_collide other, group_names_collide group)
