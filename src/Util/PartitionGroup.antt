-- ===== src/Util/PartitionGroup.antt =====
-- pkg/controller/util/partitiongroup.go: names, labels and the objects that need no protocol.
pub mod Config
pub mod Set
pub mod Protocol
pub mod ReadBack
use atomix_operator.Base.{pos, String, ◌<>◌, true, some, none, [], ◌∷◌}
use atomix_operator.Kube.Meta.{Foreign, StringMap, new_object_meta}
use atomix_operator.Kube.Platform.{Platform}
use atomix_operator.Kube.Objects.{ConfigMap, Service, PodDisruptionBudget}
use atomix_operator.V1alpha1.Types.{PartitionGroup}
use atomix_operator.Util.Resources.{
  app_key, atomix_app, cluster_key, type_key, group_key, group_type, disruption_budget_suffix,
  init_suffix, config_suffix,
}
use atomix_operator.Util.Cluster.{majority, new_init_config_map_script}

module _ {F : Foreign} (group : PartitionGroup F) where
  unfoldable pub get_partition_group_resource_name : String → String
  get_partition_group_resource_name resource = group.metadata.name <> "-" <> resource

  unfoldable pub get_partition_group_service_name : String
  get_partition_group_service_name = group.metadata.name

  unfoldable pub get_partition_group_disruption_budget_name : String
  unfolding get_partition_group_resource_name
  get_partition_group_disruption_budget_name =
      get_partition_group_resource_name disruption_budget_suffix

  unfoldable pub get_partition_group_init_config_map_name : String
  unfolding get_partition_group_resource_name
  get_partition_group_init_config_map_name = get_partition_group_resource_name init_suffix

  unfoldable pub get_partition_group_system_config_map_name : String
  unfolding get_partition_group_resource_name
  get_partition_group_system_config_map_name = get_partition_group_resource_name config_suffix

  unfoldable pub get_partition_group_stateful_set_name : String
  get_partition_group_stateful_set_name = group.metadata.name

  unfoldable pub new_partition_group_labels : StringMap
  new_partition_group_labels =
      (app_key, atomix_app)
      ∷ (cluster_key, group.spec.cluster)
      ∷ (type_key, group_type)
      ∷ (group_key, group.metadata.name)
      ∷ []

  unfoldable pub new_partition_group_init_config_map : ConfigMap
  unfolding get_partition_group_init_config_map_name new_partition_group_labels
  new_partition_group_init_config_map = record {
    metadata =
        new_object_meta get_partition_group_init_config_map_name group.metadata.namespace
          new_partition_group_labels [];
    contents =
        (
          "create_config.sh",
          new_init_config_map_script
              (record { namespace = group.metadata.namespace; name = group.spec.cluster }),
        )
        ∷ [];
  }

  unfoldable pub new_partition_group_service : Service
  unfolding get_partition_group_service_name new_partition_group_labels
  new_partition_group_service = record {
    metadata =
        new_object_meta get_partition_group_service_name group.metadata.namespace
          new_partition_group_labels
          (("service.alpha.kubernetes.io/tolerate-unready-endpoints", "true") ∷ []);
    spec = record {
      ports = record { name = "node"; port = pos 5679 } ∷ [];
      publish_not_ready_addresses = true;
      cluster_ip = "None";
      selector = new_partition_group_labels;
    };
  }

module _ {F : Foreign} (P : Platform F) (group : PartitionGroup F) where
  unfoldable pub new_partition_group_disruption_budget : PodDisruptionBudget
  unfolding get_partition_group_disruption_budget_name
  new_partition_group_disruption_budget = record {
    metadata =
        new_object_meta (get_partition_group_disruption_budget_name group) group.metadata.namespace
          [] [];
    spec = record { min_available = some (P.from_int (majority group.spec.size)); selector = none };
  }
