-- ===== src/Util/PartitionGroup/Config.antt =====
-- pkg/controller/util/partitiongroup.go: the configuration of each protocol. Following the nil
-- pointer of a protocol that is not set is a panic; `nil, nil` is `ok none`.
use atomix_operator.Base.{
  String, ◌<>◌, ◌==◌, Option, some, none, List, [], ◌∷◌, ◌++◌, Result, ok, bind, deref, join_lines,
  sprint, if◌then◌else◌,
}
use atomix_operator.Kube.Meta.{Foreign, new_object_meta}
use atomix_operator.Kube.Objects.{ConfigMap}
use atomix_operator.V1alpha1.Types.{
  PartitionGroup, RaftPartitionGroup, PrimaryBackupPartitionGroup, LogPartitionGroup, raft_type,
  primary_backup_type, log_type, get_partition_group_type,
}
use atomix_operator.Util.PartitionGroup.{
  get_partition_group_system_config_map_name, new_partition_group_labels,
}

-- The lines that the three configurations begin with, behind a newline.
abbrev pub cluster_lines : List String
cluster_lines =
    "cluster {" ∷ "    node: ${atomix.node}" ∷ "" ∷ "    discovery {" ∷ "        type: dns"
    ∷ "        service: ${atomix.service}," ∷ "    }" ∷ "}" ∷ "" ∷ []

abbrev pub config_text : List String → String
config_text ls = join_lines ("" ∷ (cluster_lines ++ ls))

module _ {F : Foreign} (group : PartitionGroup F) where
  abbrev pub raft_lines : RaftPartitionGroup → List String
  raft_lines raft =
      ("partitionGroups." <> group.metadata.name <> " {")
      ∷ "    type: raft"
      ∷ ("    partitions: " <> sprint group.spec.partitions)
      ∷ ("    partitionSize: " <> sprint raft.partition_size)
      ∷ "    members: ${atomix.members}"
      ∷ ("    storage.level: " <> raft.persistent.storage.level)
      ∷ "}"
      ∷ ""
      ∷ []

  abbrev pub primary_backup_lines : PrimaryBackupPartitionGroup → List String
  primary_backup_lines primary_backup =
      ("partitionGroups." <> group.metadata.name <> " {")
      ∷ "    type: primary-backup"
      ∷ ("    partitions: " <> sprint group.spec.partitions)
      ∷ ("    memberGroupStrategy: " <> primary_backup.member_group_strategy)
      ∷ "}"
      ∷ ""
      ∷ []

  abbrev pub log_lines : LogPartitionGroup → List String
  log_lines log =
      ("partitionGroups." <> group.metadata.name <> " {")
      ∷ "    type: log"
      ∷ ("    partitions: " <> sprint group.spec.partitions)
      ∷ ("    memberGroupStrategy: " <> log.member_group_strategy)
      ∷ ("    storage.level: " <> log.persistent.storage.level)
      ∷ "}"
      ∷ ""
      ∷ []

module _ {F : Foreign} {E : Type 0} (group : PartitionGroup F) where
  unfoldable pub new_raft_partition_group_config : Result E String
  new_raft_partition_group_config =
      bind (deref group.spec.raft) λ raft. ok (config_text (raft_lines group raft))

  unfoldable pub new_raft_partition_group_config_map : Result E ConfigMap
  unfolding new_raft_partition_group_config get_partition_group_system_config_map_name
      new_partition_group_labels
  new_raft_partition_group_config_map = bind new_raft_partition_group_config λ config. ok (record {
    metadata =
        new_object_meta (get_partition_group_system_config_map_name group) group.metadata.namespace
          (new_partition_group_labels group) [];
    contents = ("atomix.conf", config) ∷ [];
  })

  unfoldable pub new_primary_backup_partition_group_config : Result E String
  new_primary_backup_partition_group_config =
      bind (deref group.spec.primary_backup)
        λ primary_backup. ok (config_text (primary_backup_lines group primary_backup))

  unfoldable pub new_primary_backup_partition_group_config_map : Result E ConfigMap
  unfolding new_primary_backup_partition_group_config get_partition_group_system_config_map_name
      new_partition_group_labels
  new_primary_backup_partition_group_config_map =
      bind new_primary_backup_partition_group_config λ config. ok (record {
        metadata =
            new_object_meta (get_partition_group_system_config_map_name group)
              group.metadata.namespace (new_partition_group_labels group) [];
        contents = ("atomix.conf", config) ∷ [];
      })

  unfoldable pub new_log_partition_group_config : Result E String
  new_log_partition_group_config =
      bind (deref group.spec.log) λ log. ok (config_text (log_lines group log))

  unfoldable pub new_log_partition_group_config_map : Result E ConfigMap
  unfolding new_log_partition_group_config get_partition_group_system_config_map_name
      new_partition_group_labels
  new_log_partition_group_config_map = bind new_log_partition_group_config λ config. ok (record {
    metadata =
        new_object_meta (get_partition_group_system_config_map_name group) group.metadata.namespace
          (new_partition_group_labels group) [];
    contents = ("atomix.conf", config) ∷ [];
  })

module _ {F : Foreign} {E : Type 0} (errorf : String → E) (group : PartitionGroup F) where
  -- The `switch` on the type; no case taken leaves a nil map and no error.
  unfoldable pub new_partition_group_config_map : Result E (Option ConfigMap)
  unfolding get_partition_group_type new_raft_partition_group_config_map
      new_primary_backup_partition_group_config_map new_log_partition_group_config_map
  new_partition_group_config_map = bind (get_partition_group_type errorf group) λ group_type.
      if group_type == raft_type
      then bind (new_raft_partition_group_config_map group) (λ map. ok (some map))
      else if group_type == primary_backup_type
      then bind (new_primary_backup_partition_group_config_map group) (λ map. ok (some map))
      else if group_type == log_type
      then bind (new_log_partition_group_config_map group) (λ map. ok (some map))
      else ok none
