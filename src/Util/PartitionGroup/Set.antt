-- ===== src/Util/PartitionGroup/Set.antt =====
-- pkg/controller/util/partitiongroup.go: the StatefulSet of a partition group.
use atomix_operator.Base.{◌==◌, Option, some, none, [], ◌∷◌, Result, ok, bind, deref, if◌then◌else◌}
use atomix_operator.Kube.Meta.{Foreign, new_object_meta}
use atomix_operator.Kube.Platform.{Platform}
use atomix_operator.Kube.Objects.{StatefulSet}
use atomix_operator.V1alpha1.Types.{
  PartitionGroup, Storage, raft_type, primary_backup_type, log_type, get_partition_group_type,
}
use atomix_operator.Util.Resources.{new_affinity}
use atomix_operator.Util.Resources.Container.{
  new_init_containers, new_persistent_containers, new_ephemeral_containers,
}
use atomix_operator.Util.Resources.Volumes.{
  new_init_scripts_volume, new_user_config_volume, new_system_config_volume,
  new_persistent_volume_claims,
}
use atomix_operator.Util.PartitionGroup.{
  get_partition_group_system_config_map_name, get_partition_group_init_config_map_name,
  get_partition_group_stateful_set_name, get_partition_group_service_name,
  new_partition_group_labels,
}

module _ {F : Foreign} (P : Platform F) (group : PartitionGroup F) where
  unfoldable pub new_ephemeral_partition_group_stateful_set : Result P.Error (StatefulSet F)
  unfolding get_partition_group_stateful_set_name get_partition_group_service_name
      get_partition_group_init_config_map_name get_partition_group_system_config_map_name
      new_partition_group_labels
  new_ephemeral_partition_group_stateful_set =
      let name = get_partition_group_stateful_set_name group in
      let labels = new_partition_group_labels group in
      let spec = group.spec in
      ok (record {
        metadata = new_object_meta name group.metadata.namespace labels [];
        spec = record {
          service_name = get_partition_group_service_name group;
          replicas = some spec.size;
          selector = some (record { match_labels = labels; match_expressions = [] });
          update_strategy = "RollingUpdate";
          pod_management_policy = "Parallel";
          template = record {
            metadata = new_object_meta "" "" labels [];
            spec = record {
              affinity = none;
              init_containers = new_init_containers spec.size;
              containers = new_ephemeral_containers spec.version spec.env spec.resources;
              volumes =
                  new_init_scripts_volume (get_partition_group_init_config_map_name group)
                  ∷ new_user_config_volume (get_partition_group_system_config_map_name group)
                  ∷ new_system_config_volume
                  ∷ [];
            };
          };
          volume_claim_templates = [];
        };
      })

  unfoldable pub new_persistent_partition_group_stateful_set :
      Storage → Result P.Error (StatefulSet F)
  unfolding get_partition_group_stateful_set_name get_partition_group_service_name
      get_partition_group_init_config_map_name get_partition_group_system_config_map_name
      new_partition_group_labels
  new_persistent_partition_group_stateful_set storage =
      let name = get_partition_group_stateful_set_name group in
      let labels = new_partition_group_labels group in
      let spec = group.spec in
      bind (new_persistent_volume_claims P.parse_quantity storage.class_name storage.size) λ claims.
        ok (record {
          metadata = new_object_meta name group.metadata.namespace labels [];
          spec = record {
            service_name = get_partition_group_service_name group;
            replicas = some spec.size;
            selector = some (record { match_labels = labels; match_expressions = [] });
            update_strategy = "RollingUpdate";
            pod_management_policy = "Parallel";
            template = record {
              metadata = new_object_meta "" "" labels [];
              spec = record {
                affinity = some (new_affinity (get_partition_group_stateful_set_name group));
                init_containers = new_init_containers spec.size;
                containers = new_persistent_containers spec.version spec.env spec.resources;
                volumes =
                    new_init_scripts_volume (get_partition_group_init_config_map_name group)
                    ∷ new_user_config_volume (get_partition_group_system_config_map_name group)
                    ∷ new_system_config_volume
                    ∷ [];
              };
            };
            volume_claim_templates = claims;
          };
        })

  unfoldable pub new_partition_group_stateful_set : Result P.Error (Option (StatefulSet F))
  unfolding get_partition_group_type new_ephemeral_partition_group_stateful_set
      new_persistent_partition_group_stateful_set
  new_partition_group_stateful_set = bind (get_partition_group_type P.errorf group) λ group_type.
      if group_type == raft_type
      then bind (deref group.spec.raft) (λ raft.
        bind (new_persistent_partition_group_stateful_set raft.persistent.storage)
          (λ set. ok (some set)))
      else if group_type == primary_backup_type
      then bind new_ephemeral_partition_group_stateful_set (λ set. ok (some set))
      else if group_type == log_type
      then bind (deref group.spec.log) (λ log.
        bind (new_persistent_partition_group_stateful_set log.persistent.storage)
          (λ set. ok (some set)))
      else ok none
