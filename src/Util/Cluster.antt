-- ===== src/Util/Cluster.antt =====
-- pkg/controller/util/cluster.go: the objects of an AtomixCluster.
use atomix_operator.Base.{
  ℤ, pos, quot, add_one, String, ◌<>◌, true, some, none, [], ◌∷◌, Result, ok, bind, join_lines,
}
use atomix_operator.Kube.Meta.{Foreign, NamespacedName, StringMap, new_object_meta}
use atomix_operator.Kube.Platform.{Platform}
use atomix_operator.Kube.Objects.{ConfigMap, Service, PodDisruptionBudget, StatefulSet}
use atomix_operator.V1alpha1.Types.{AtomixCluster}
use atomix_operator.Util.Resources.{
  app_key, atomix_app, cluster_key, type_key, management_type, disruption_budget_suffix,
  init_suffix, config_suffix, new_affinity,
}
use atomix_operator.Util.Resources.Container.{new_init_containers, new_persistent_containers}
use atomix_operator.Util.Resources.Volumes.{
  new_init_scripts_volume, new_user_config_volume, new_system_config_volume,
  new_persistent_volume_claims,
}

unfoldable pub get_management_resource_name : String → String → String
get_management_resource_name cluster resource = cluster <> "-" <> resource

-- The fully qualified DNS name for the management service.
unfoldable pub get_management_service_dns_name : NamespacedName → String
get_management_service_dns_name cluster =
    cluster.name <> "." <> cluster.namespace <> ".svc.cluster.local"

unfoldable pub new_init_config_map_script : NamespacedName → String
new_init_config_map_script cluster = join_lines (
    ""
    ∷ "#!/usr/bin/env bash"
    ∷ ""
    ∷ "HOST=$(hostname -s)"
    ∷ "DOMAIN=$(hostname -d)"
    ∷ "NODES=$1"
    ∷ ""
    ∷ "function create_config() {"
    ∷ ("    echo \"atomix.service=" <> get_management_service_dns_name cluster <> "\"")
    ∷ "    echo \"atomix.node.id=$NAME-$ORD\""
    ∷ "    echo \"atomix.node.host=$NAME-$ORD.$DOMAIN\""
    ∷ "    echo \"atomix.node.port=5679\""
    ∷ "    echo \"atomix.replicas=$NODES\""
    ∷ "    for (( i=0; i<$NODES; i++ ))"
    ∷ "    do"
    ∷ "        echo \"atomix.members.$i=$NAME-$((i))\""
    ∷ "    done"
    ∷ "}"
    ∷ ""
    ∷ "if [[ $HOST =~ (.*)-([0-9]+)$ ]]; then"
    ∷ "    NAME=${BASH_REMATCH[1]}"
    ∷ "    ORD=${BASH_REMATCH[2]}"
    ∷ "else"
    ∷ "    echo \"Failed to parse name and ordinal of Pod\""
    ∷ "    exit 1"
    ∷ "fi"
    ∷ ""
    ∷ "create_config"
    ∷ [])

-- `int(size)/2 + 1`
abbrev pub majority : ℤ → ℤ
majority size = add_one (quot size 2)

module _ {F : Foreign} (cluster : AtomixCluster F) where
  unfoldable pub get_management_service_name : String
  get_management_service_name = cluster.metadata.name

  unfoldable pub get_management_disruption_budget_name : String
  unfolding get_management_resource_name
  get_management_disruption_budget_name =
      get_management_resource_name cluster.metadata.name disruption_budget_suffix

  unfoldable pub get_management_init_config_map_name : String
  unfolding get_management_resource_name
  get_management_init_config_map_name =
      get_management_resource_name cluster.metadata.name init_suffix

  unfoldable pub get_management_system_config_map_name : String
  unfolding get_management_resource_name
  get_management_system_config_map_name =
      get_management_resource_name cluster.metadata.name config_suffix

  unfoldable pub get_management_stateful_set_name : String
  get_management_stateful_set_name = cluster.metadata.name

  unfoldable pub new_management_labels : StringMap
  new_management_labels =
      (app_key, atomix_app)
      ∷ (cluster_key, cluster.metadata.name)
      ∷ (type_key, management_type)
      ∷ []

  unfoldable pub new_management_service : Service
  unfolding get_management_service_name new_management_labels
  new_management_service = record {
    metadata =
        new_object_meta get_management_service_name cluster.metadata.namespace new_management_labels
          (("service.alpha.kubernetes.io/tolerate-unready-endpoints", "true") ∷ []);
    spec = record {
      ports = record { name = cluster.metadata.name <> "-node"; port = pos 5679 } ∷ [];
      publish_not_ready_addresses = true;
      cluster_ip = "None";
      selector = (app_key, atomix_app) ∷ (cluster_key, cluster.metadata.name) ∷ [];
    };
  }

  unfoldable pub new_management_init_config_map : ConfigMap
  unfolding get_management_init_config_map_name new_management_labels
  new_management_init_config_map = record {
    metadata =
        new_object_meta get_management_init_config_map_name cluster.metadata.namespace
          new_management_labels [];
    contents =
        (
          "create_config.sh",
          new_init_config_map_script
              (record { namespace = cluster.metadata.namespace; name = cluster.metadata.name }),
        )
        ∷ [];
  }

  unfoldable pub new_management_config : String
  new_management_config = join_lines (
      "" ∷ "cluster {" ∷ "    node: ${atomix.node}" ∷ "" ∷ "    discovery {" ∷ "        type: dns"
      ∷ "        service: ${atomix.service}," ∷ "    }" ∷ "}" ∷ "managementGroup {"
      ∷ "    type: raft" ∷ "    partitions: 1" ∷ "    members: ${atomix.members}"
      ∷ "    storage.level: disk" ∷ "}" ∷ "" ∷ [])

  unfoldable pub new_management_system_config_map : ConfigMap
  unfolding get_management_system_config_map_name new_management_labels
  new_management_system_config_map = record {
    metadata =
        new_object_meta get_management_system_config_map_name cluster.metadata.namespace
          new_management_labels [];
    contents = ("atomix.conf", new_management_config) ∷ [];
  }

module _ {F : Foreign} (P : Platform F) (cluster : AtomixCluster F) where
  unfoldable pub new_management_disruption_budget : PodDisruptionBudget
  unfolding get_management_disruption_budget_name
  new_management_disruption_budget = record {
    metadata =
        new_object_meta (get_management_disruption_budget_name cluster) cluster.metadata.namespace
          [] [];
    spec = record {
      min_available = some (P.from_int (majority cluster.spec.size));
      selector = none;
    };
  }

  unfoldable pub new_management_stateful_set : Result P.Error (StatefulSet F)
  unfolding get_management_stateful_set_name get_management_service_name new_management_labels
      get_management_init_config_map_name get_management_system_config_map_name
  new_management_stateful_set =
      let name = get_management_stateful_set_name cluster in
      let labels = new_management_labels cluster in
      let spec = cluster.spec in
      bind (new_persistent_volume_claims P.parse_quantity spec.storage.class_name spec.storage.size)
        λ claims. ok (record {
          metadata = new_object_meta name cluster.metadata.namespace labels [];
          spec = record {
            service_name = get_management_service_name cluster;
            replicas = some spec.size;
            selector = some (record { match_labels = labels; match_expressions = [] });
            update_strategy = "RollingUpdate";
            pod_management_policy = "Parallel";
            template = record {
              metadata = new_object_meta "" "" labels [];
              spec = record {
                affinity = some (new_affinity cluster.metadata.name);
                init_containers = new_init_containers spec.size;
                containers = new_persistent_containers spec.version spec.env spec.resources;
                volumes =
                    new_init_scripts_volume (get_management_init_config_map_name cluster)
                    ∷ new_user_config_volume (get_management_system_config_map_name cluster)
                    ∷ new_system_config_volume
                    ∷ [];
              };
            };
            volume_claim_templates = claims;
          };
        })
