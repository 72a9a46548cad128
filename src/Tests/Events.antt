-- ===== src/Tests/Events.antt =====
-- The theorems on events and on what follows them, with the handlers of Tests/Handlers.antt.
use atomix_operator.Base.{◌≡◌, refl, arith, true, List, [], ◌∷◌, ok, is_ok, is_ok-value, All}
use atomix_operator.Kube.Meta.{ObjectMeta, OwnerReference, new_object_meta}
use atomix_operator.Kube.Objects.{StatefulSet}
use atomix_operator.V1alpha1.Defaults.{
  set_defaults_cluster, set_defaults_partition_group, set_defaults_storage,
  set_defaults_raft_partition_group,
}
use atomix_operator.Util.Cluster.{new_management_stateful_set}
use atomix_operator.Util.PartitionGroup.Set.{
  new_partition_group_stateful_set, new_persistent_partition_group_stateful_set,
}
use atomix_operator.Util.Resources.Volumes.{new_persistent_volume_claims}
use atomix_operator.Util.PartitionGroup.Protocol.{HasNoProtocol, is_parsed, storage_size}
use atomix_operator.Controller.Client.{
  partition_group, config_map, service, pod_disruption_budget, stateful_set, pod, cluster_owner,
  group_owner,
}
use atomix_operator.Controller.Steps.{own}
use atomix_operator.Controller.Ensures.{IsPresent}
use atomix_operator.Controller.Ensures.Owned.{owned-ok}
use atomix_operator.Controller.Cluster.Outcomes as ClusterOutcomes
use atomix_operator.Controller.PartitionGroup.Outcomes as GroupOutcomes
use atomix_operator.Controller.Registration.{add_to_manager, add_reconciler}
use atomix_operator.Controller.Registration.Events.{with_references, enqueued, owned_events}
use atomix_operator.Controller.Cluster as Cluster
use atomix_operator.Controller.Cluster.Laws.{cluster_children}
use atomix_operator.Controller.PartitionGroup as PartitionGroup
use atomix_operator.Controller.PartitionGroup.Laws.{set_of, group_children}
use atomix_operator.Controller.Runs.Recovery.{sets_restored}
use atomix_operator.Tests.Memory.{
  foreign, platform, client, store, client-IsReliable, reference_to, put, World,
}
use atomix_operator.Tests.Samples.{three_nodes, raft_group, in_default, with_cluster}
use atomix_operator.Tests.Owners.{client-IsOwner}
use atomix_operator.Tests.Registration.{recorder, recorder_log}
use atomix_operator.Tests.Handlers.{handlers, handlers-LawfulHandlers}

abbrev set_meta : ObjectMeta
set_meta = new_object_meta "example" "default" [] []

abbrev references : List OwnerReference
references = reference_to (cluster_owner three_nodes) ∷ []

owned_events_example :
    let owned = with_references set_meta references in
    (enqueued handlers (add_to_manager recorder []).0 "atomixcluster-controller" stateful_set owned
      ≡ in_default "example" ∷ [])
    × (enqueued handlers
          (add_to_manager recorder []).0
          "partitiongroup-controller"
          stateful_set
          owned
        ≡ [])
    × (enqueued handlers (add_to_manager recorder []).0 "benchmark-controller" pod owned ≡ [])
    × (enqueued handlers (add_to_manager recorder []).0 "benchmark-controller" stateful_set owned
        ≡ [])
    × (enqueued handlers (add_to_manager recorder []).0 "any" config_map owned ≡ [])
    × (enqueued handlers (add_to_manager recorder []).0 "any" service owned ≡ [])
    × (enqueued handlers (add_to_manager recorder []).0 "any" pod_disruption_budget owned ≡ [])
unfolding add_to_manager add_reconciler
owned_events_example =
    owned_events recorder recorder_log handlers client handlers-LawfulHandlers []
      (cluster_owner three_nodes) set_meta references "any" refl refl refl

cluster_set :
    (set : StatefulSet foreign) × (new_management_stateful_set platform
        (set_defaults_cluster three_nodes)
      ≡ ok set)
unfolding new_management_stateful_set new_persistent_volume_claims set_defaults_cluster
    set_defaults_storage
cluster_set = is_ok-value _ refl

owned_cluster_set :
    (set : StatefulSet foreign) × (own client
        (cluster_owner (set_defaults_cluster three_nodes))
        stateful_set
        cluster_set.0
      ≡ ok set)
owned_cluster_set =
    owned-ok client _ stateful_set (ok cluster_set.0)
      (client-IsOwner (cluster_owner (set_defaults_cluster three_nodes))) refl
      (ClusterOutcomes.set-references platform _ cluster_set.0 cluster_set.1)

group_set :
    (set : StatefulSet foreign) × (set_of platform (set_defaults_partition_group raft_group)
      ≡ ok set)
unfolding new_partition_group_stateful_set new_persistent_partition_group_stateful_set
    new_persistent_volume_claims set_defaults_partition_group set_defaults_raft_partition_group
    set_defaults_storage
group_set = is_ok-value _ refl

owned_group_set :
    (set : StatefulSet foreign) × (own client
        (group_owner (set_defaults_partition_group raft_group))
        stateful_set
        group_set.0
      ≡ ok set)
owned_group_set =
    owned-ok client _ stateful_set (ok group_set.0)
      (client-IsOwner (group_owner (set_defaults_partition_group raft_group))) refl
      (GroupOutcomes.set-references platform _ group_set.0 group_set.1)

abbrev with_both : World
with_both = put partition_group raft_group with_cluster

raft_protocol : ¬ HasNoProtocol raft_group
raft_protocol without = ground arith

cluster_parsed :
    is_ok (platform.parse_quantity (set_defaults_cluster three_nodes).spec.storage.size) ≡ true
unfolding set_defaults_cluster set_defaults_storage
cluster_parsed = refl

raft_parsed :
    is_parsed platform (storage_size (set_defaults_partition_group raft_group).spec) ≡ true
unfolding set_defaults_partition_group set_defaults_raft_partition_group set_defaults_storage
raft_parsed = refl

sets_restored_example :
    ((enqueued handlers
          (add_to_manager recorder []).0
          "atomixcluster-controller"
          stateful_set
          owned_cluster_set.0.metadata
        ≡ in_default "example" ∷ [])
      × ((Cluster.reconcile client (in_default "example") with_both).1 ≡ ok tt)
      × All
          (IsPresent store (Cluster.reconcile client (in_default "example") with_both).0)
          (cluster_children client (set_defaults_cluster three_nodes)))
    × ((enqueued handlers
            (add_to_manager recorder []).0
            "partitiongroup-controller"
            stateful_set
            owned_group_set.0.metadata
          ≡ in_default "values" ∷ [])
        × ((PartitionGroup.reconcile client (in_default "values") with_both).1 ≡ ok tt)
        × All
            (IsPresent store (PartitionGroup.reconcile client (in_default "values") with_both).0)
            (group_children client (set_defaults_partition_group raft_group)))
unfolding add_to_manager add_reconciler
sets_restored_example =
    sets_restored recorder recorder_log handlers client handlers-LawfulHandlers [] refl refl store
      client-IsReliable with_both three_nodes raft_group cluster_set.0 owned_cluster_set.0
      group_set.0 owned_group_set.0 refl
      (client-IsOwner (cluster_owner (set_defaults_cluster three_nodes))) cluster_parsed
      cluster_set.1 owned_cluster_set.1 refl
      (client-IsOwner (group_owner (set_defaults_partition_group raft_group))) raft_protocol
      raft_parsed group_set.1 owned_group_set.1
