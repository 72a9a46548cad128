-- ===== src/Util/Wiring/Sets.antt =====
-- The StatefulSets of the three resources are wired to the objects that go with them.
use atomix_operator.Base.{◌≡◌, Option-cases, inl, inr, eq_refl, arith, ok, some}
use atomix_operator.Kube.Meta.{Foreign}
use atomix_operator.Kube.Platform.{Platform}
use atomix_operator.Kube.Objects.{StatefulSet}
use atomix_operator.V1alpha1.Types.{AtomixCluster, PartitionGroup, Storage, AtomixBenchmark}
use atomix_operator.Util.Resources.Container.{
  new_init_containers, new_persistent_containers, new_ephemeral_containers,
  new_benchmark_containers,
}
use atomix_operator.Util.Resources.Volumes.{
  new_init_scripts_volume, new_user_config_volume, new_system_config_volume,
  new_persistent_volume_claims,
}
use atomix_operator.Util.Cluster.{
  new_management_stateful_set, new_management_service, new_management_init_config_map,
  new_management_system_config_map,
}
use atomix_operator.Util.PartitionGroup.{
  new_partition_group_service, new_partition_group_init_config_map,
  get_partition_group_system_config_map_name,
}
use atomix_operator.Util.PartitionGroup.Set.{
  new_ephemeral_partition_group_stateful_set, new_persistent_partition_group_stateful_set,
  new_partition_group_stateful_set,
}
use atomix_operator.Util.Benchmark.Worker.{
  new_benchmark_worker_stateful_set, new_benchmark_worker_service,
  new_benchmark_worker_init_config_map, new_benchmark_worker_system_config_map,
}
use atomix_operator.Util.Wiring.{IsWired}

module _ {F : Foreign} (P : Platform F) where
  -- Where a cluster's StatefulSet can be built, its selector selects its own pods, it names the
  -- management service, every mount has its volume or claim, the pods mount the init script and the
  -- configuration that are made for the cluster, and the init container is told the replicas.
  management_set-IsWired :
      (cluster : AtomixCluster F) (set : StatefulSet F)
      → new_management_stateful_set P cluster ≡ ok set
      → IsWired set
          (new_management_service cluster).metadata.name
          (new_management_init_config_map cluster).metadata.name
          (new_management_system_config_map cluster).metadata.name
          cluster.spec.size
  unfolding new_management_stateful_set new_management_service new_management_init_config_map
      new_management_system_config_map new_init_containers new_persistent_containers
      new_init_scripts_volume new_user_config_volume new_system_config_volume
      new_persistent_volume_claims
  management_set-IsWired cluster set e = ground (arith, eq_refl cluster.metadata.name)

  ephemeral_set-IsWired :
      (group : PartitionGroup F) (set : StatefulSet F)
      → new_ephemeral_partition_group_stateful_set P group ≡ ok set
      → IsWired set
          (new_partition_group_service group).metadata.name
          (new_partition_group_init_config_map group).metadata.name
          (get_partition_group_system_config_map_name group)
          group.spec.size
  unfolding new_ephemeral_partition_group_stateful_set new_partition_group_service
      new_partition_group_init_config_map new_init_containers new_ephemeral_containers
      new_init_scripts_volume new_user_config_volume new_system_config_volume
  ephemeral_set-IsWired group set e =
      ground (arith, eq_refl group.metadata.name, eq_refl group.spec.cluster)

  persistent_set-IsWired :
      (group : PartitionGroup F) (storage : Storage) (set : StatefulSet F)
      → new_persistent_partition_group_stateful_set P group storage ≡ ok set
      → IsWired set
          (new_partition_group_service group).metadata.name
          (new_partition_group_init_config_map group).metadata.name
          (get_partition_group_system_config_map_name group)
          group.spec.size
  unfolding new_persistent_partition_group_stateful_set new_partition_group_service
      new_partition_group_init_config_map new_init_containers new_persistent_containers
      new_init_scripts_volume new_user_config_volume new_system_config_volume
      new_persistent_volume_claims
  persistent_set-IsWired group storage set e =
      ground (arith, eq_refl group.metadata.name, eq_refl group.spec.cluster)

  -- Where a partition group's StatefulSet can be built, whatever its protocol, its selector selects
  -- its own pods, it names the group's service, every mount has its volume or claim, the pods mount
  -- the init script that is made for the group and the configuration under the group's name for it,
  -- and the init container is told the replicas.
  group_set-IsWired :
      (group : PartitionGroup F) (set : StatefulSet F)
      → new_partition_group_stateful_set P group ≡ ok (some set)
      → IsWired set
          (new_partition_group_service group).metadata.name
          (new_partition_group_init_config_map group).metadata.name
          (get_partition_group_system_config_map_name group)
          group.spec.size
  unfolding new_partition_group_stateful_set
  group_set-IsWired group set e = elim (Option-cases group.spec.raft) [
    | inr (raft, has_raft) ↦ persistent_set-IsWired group raft.persistent.storage set (ground arith)
    | inl no_raft ↦ elim (Option-cases group.spec.primary_backup) [
      | inr has_backup ↦ ephemeral_set-IsWired group set (ground arith)
      | inl no_backup ↦ elim (Option-cases group.spec.log) [
        | inr (log, has_log) ↦
            persistent_set-IsWired group log.persistent.storage set (ground arith)
        | inl no_log ↦ absurd (ground arith)
      ]
    ]
  ]

  -- The selector of a benchmark's worker StatefulSet selects its own pods, it names the workers'
  -- service, every mount has its volume, the pods mount the workers' init script and configuration,
  -- and the init container is told the number of workers.
  worker_set-IsWired :
      (benchmark : AtomixBenchmark F)
      → IsWired
          (new_benchmark_worker_stateful_set benchmark)
          (new_benchmark_worker_service benchmark).metadata.name
          (new_benchmark_worker_init_config_map benchmark).metadata.name
          (new_benchmark_worker_system_config_map benchmark).metadata.name
          benchmark.spec.workers
  unfolding new_benchmark_worker_stateful_set new_benchmark_worker_service
      new_benchmark_worker_init_config_map new_benchmark_worker_system_config_map
      new_init_containers new_benchmark_containers new_init_scripts_volume new_user_config_volume
      new_system_config_volume
  worker_set-IsWired benchmark = ground (arith, eq_refl benchmark.spec.cluster)

  -- Where the StatefulSets of a cluster and of a partition group can be built, the group's whatever
  -- its protocol, they and that of a benchmark's workers agree with the objects beside them: the
  -- selector selects the set's own pods, the set names the service that is made for the owner, every
  -- mount has its volume or claim, the pods mount the init script and the configuration that are
  -- made for the owner, a group's configuration being the one under the group's name for it, and
  -- the init container is told the number of replicas or workers.
  pub sets-IsWired :
      (cluster : AtomixCluster F) (group : PartitionGroup F) (benchmark : AtomixBenchmark F)
      (cluster_set group_set : StatefulSet F)
      → new_management_stateful_set P cluster ≡ ok cluster_set
      → new_partition_group_stateful_set P group ≡ ok (some group_set)
      → IsWired cluster_set
          (new_management_service cluster).metadata.name
          (new_management_init_config_map cluster).metadata.name
          (new_management_system_config_map cluster).metadata.name
          cluster.spec.size
        × IsWired group_set
            (new_partition_group_service group).metadata.name
            (new_partition_group_init_config_map group).metadata.name
            (get_partition_group_system_config_map_name group)
            group.spec.size
        × IsWired
            (new_benchmark_worker_stateful_set benchmark)
            (new_benchmark_worker_service benchmark).metadata.name
            (new_benchmark_worker_init_config_map benchmark).metadata.name
            (new_benchmark_worker_system_config_map benchmark).metadata.name
            benchmark.spec.workers
  sets-IsWired cluster group benchmark cluster_set group_set built built' = (
    management_set-IsWired cluster cluster_set built,
    group_set-IsWired group group_set built',
    worker_set-IsWired benchmark,
  )
