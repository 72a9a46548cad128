-- ===== src/Util/PartitionGroup/ReadBack.antt =====
-- What the nodes of a partition group read from the configuration that is written for them.
use atomix_operator.Base.{◌≡◌, refl, true, String, ◌<>◌, Option, some, none, List, [], ◌∷◌, ok, All}
use atomix_operator.Base.Reader.{is_line, is_line-append, strip}
use atomix_operator.Base.Reader.Settings.{Setting, text, number, Says, is_value, settings-Says}
use atomix_operator.Kube.Meta.{Foreign}
use atomix_operator.Kube.Objects.{ConfigMap}
use atomix_operator.V1alpha1.Types.{
  PartitionGroup, PartitionGroupSpec, RaftPartitionGroup, PrimaryBackupPartitionGroup,
  LogPartitionGroup,
}
use atomix_operator.Util.PartitionGroup.Config.{
  cluster_lines, config_text, raft_lines, primary_backup_lines, log_lines,
  new_partition_group_config_map,
}
use atomix_operator.Util.PartitionGroup.Protocol.{HasNoProtocol}

module _ {F : Foreign} (spec : PartitionGroupSpec F) where
  abbrev raft_settings : RaftPartitionGroup → List Setting
  raft_settings r =
      ("    type: ", text "raft")
      ∷ ("    partitions: ", number spec.partitions)
      ∷ ("    partitionSize: ", number r.partition_size)
      ∷ ("    members: ", text "${atomix.members}")
      ∷ ("    storage.level: ", text r.persistent.storage.level)
      ∷ []

  abbrev primary_backup_settings : PrimaryBackupPartitionGroup → List Setting
  primary_backup_settings b =
      ("    type: ", text "primary-backup")
      ∷ ("    partitions: ", number spec.partitions)
      ∷ ("    memberGroupStrategy: ", text b.member_group_strategy)
      ∷ []

  abbrev log_settings : LogPartitionGroup → List Setting
  log_settings l =
      ("    type: ", text "log")
      ∷ ("    partitions: ", number spec.partitions)
      ∷ ("    memberGroupStrategy: ", text l.member_group_strategy)
      ∷ ("    storage.level: ", text l.persistent.storage.level)
      ∷ []

  -- The settings of a group's protocol, the first that is set.
  abbrev pub group_settings : List Setting
  group_settings = elim spec.raft [
    | some r ↦ raft_settings r
    | none ↦ elim spec.primary_backup [
      | some b ↦ primary_backup_settings b
      | none ↦ elim spec.log [ some l ↦ log_settings l | none ↦ [] ]
    ]
  ]

-- What a configuration map tells the nodes.
abbrev pub Tells : ConfigMap → List Setting → Type 0
Tells map settings =
    (config : String) × (map.contents ≡ ("atomix.conf", config) ∷ []) × All (Says config) settings

module _ {F : Foreign} (group : PartitionGroup F) (named : is_line group.metadata.name ≡ true) where
  title_line : is_line ("partitionGroups." <> group.metadata.name <> " {") ≡ true
  title_line =
      is_line-append "partitionGroups." (group.metadata.name <> " {") refl
        (is_line-append group.metadata.name " {" named refl)

  raft_Says :
      (r : RaftPartitionGroup)
      → All (λ x. is_value x ≡ true) (raft_settings group.spec r)
      → All (Says (config_text (raft_lines group r))) (raft_settings group.spec r)
  unfolding strip
  raft_Says r values =
      settings-Says cluster_lines ("}" ∷ "" ∷ []) "partitionGroups." (group.metadata.name <> " {")
        (raft_settings group.spec r) refl refl refl refl title_line values refl

  primary_backup_Says :
      (b : PrimaryBackupPartitionGroup)
      → All (λ x. is_value x ≡ true) (primary_backup_settings group.spec b)
      → All
          (Says (config_text (primary_backup_lines group b)))
          (primary_backup_settings group.spec b)
  unfolding strip
  primary_backup_Says b values =
      settings-Says cluster_lines ("}" ∷ "" ∷ []) "partitionGroups." (group.metadata.name <> " {")
        (primary_backup_settings group.spec b) refl refl refl refl title_line values refl

  log_Says :
      (l : LogPartitionGroup)
      → All (λ x. is_value x ≡ true) (log_settings group.spec l)
      → All (Says (config_text (log_lines group l))) (log_settings group.spec l)
  unfolding strip
  log_Says l values =
      settings-Says cluster_lines ("}" ∷ "" ∷ []) "partitionGroups." (group.metadata.name <> " {")
        (log_settings group.spec l) refl refl refl refl title_line values refl

module _ {F : Foreign} {E : Type 0} (errorf : String → E) where
  -- For every combination of the three protocols.
  config-Tells_at :
      (g : PartitionGroup F) (r : Option RaftPartitionGroup)
      (b : Option PrimaryBackupPartitionGroup) (l : Option LogPartitionGroup)
      → let g' : PartitionGroup F = record g {
        spec = record (g.spec) { raft = r; primary_backup = b; log = l };
      } in
        is_line g.metadata.name ≡ true
        → ¬ HasNoProtocol g'
        → All (λ x. is_value x ≡ true) (group_settings g'.spec)
        → (map : ConfigMap) × (new_partition_group_config_map errorf g' ≡ ok (some map))
          × Tells map (group_settings g'.spec)
  unfolding new_partition_group_config_map
  config-Tells_at g (some r) b l named has values = (
    _,
    refl,
    (
      _,
      refl,
      raft_Says (record g { spec = record (g.spec) { raft = some r; primary_backup = b; log = l } })
          named r values,
    ),
  )
  config-Tells_at g none (some b) l named has values = (
    _,
    refl,
    (
      _,
      refl,
      primary_backup_Says
          (record g { spec = record (g.spec) { raft = none; primary_backup = some b; log = l } })
          named b values,
    ),
  )
  config-Tells_at g none none (some l) named has values = (
    _,
    refl,
    (
      _,
      refl,
      log_Says
          (record g { spec = record (g.spec) { raft = none; primary_backup = none; log = some l } })
          named l values,
    ),
  )
  config-Tells_at g none none none named has values = absurd (has (refl, refl, refl))

  -- For a group with a protocol, whose name, storage level and strategy are of one line, the
  -- configuration is built, and a reader that splits it into lines and takes what follows a key reads
  -- the group's settings back: the type of the protocol, the number of partitions, as an integer, and
  -- the settings of its protocol, the partition size as an integer too.
  pub group_config-Tells :
      (group : PartitionGroup F)
      → is_line group.metadata.name ≡ true
      → ¬ HasNoProtocol group
      → All (λ x. is_value x ≡ true) (group_settings group.spec)
      → (map : ConfigMap) × (new_partition_group_config_map errorf group ≡ ok (some map))
        × Tells map (group_settings group.spec)
  group_config-Tells group =
      config-Tells_at group group.spec.raft group.spec.primary_backup group.spec.log
