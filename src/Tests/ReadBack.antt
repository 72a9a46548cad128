-- ===== src/Tests/ReadBack.antt =====
-- What the nodes of a Raft group read from its configuration.
use atomix_operator.Base.{◌≡◌, refl, ok, some}
use atomix_operator.Kube.Objects.{ConfigMap}
use atomix_operator.Util.PartitionGroup.Config.{new_partition_group_config_map}
use atomix_operator.Util.PartitionGroup.ReadBack.{group_settings, Tells, group_config-Tells}
use atomix_operator.Tests.Memory.{message}
use atomix_operator.Tests.Samples.{raft_group}

group_config-Tells_example :
    (map : ConfigMap) × (new_partition_group_config_map message raft_group ≡ ok (some map))
    × Tells map (group_settings raft_group.spec)
group_config-Tells_example =
    group_config-Tells message raft_group refl (λ (raft, _, _). cc)
      (refl, (refl, (refl, (refl, (refl, tt)))))
