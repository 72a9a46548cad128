-- ===== src/Controller/Runs/Recovery.antt =====
-- From the change of a StatefulSet to the Reconcile that its event leads to.
use atomix_operator.Base.{
  ◌≡◌, sym, ap, ◌∙◌, ok, is_ok, true, some, List, [], ◌∷◌, bind-eq-ok, ok-injective, All,
}
use atomix_operator.Kube.Meta.{Foreign, OwnerReference}
use atomix_operator.Kube.Platform.{Platform}
use atomix_operator.Kube.Objects.{StatefulSet}
use atomix_operator.V1alpha1.Types.{AtomixCluster, PartitionGroup}
use atomix_operator.V1alpha1.Defaults.{set_defaults_cluster, set_defaults_partition_group}
use atomix_operator.Util.Cluster.{new_management_stateful_set}
use atomix_operator.Util.PartitionGroup.Protocol.{HasNoProtocol, is_parsed, storage_size}
use atomix_operator.Controller.Client.{
  Client, Owner, cluster_owner, group_owner, key_of, atomix_cluster, partition_group, stateful_set,
}
use atomix_operator.Controller.Steps.{own}
use atomix_operator.Controller.Store.{Store, IsReliable}
use atomix_operator.Controller.Ensures.{IsPresent}
use atomix_operator.Controller.Ensures.Owned.{IsOwner}
use atomix_operator.Controller.Registration.{Manager, add_to_manager}
use atomix_operator.Controller.Registration.Laws.{Log}
use atomix_operator.Controller.Registration.Events.{
  Handlers, LawfulHandlers, enqueued, with_references, owned_events,
}
use atomix_operator.Controller.Cluster as Cluster
use atomix_operator.Controller.Cluster.Laws as ClusterLaws
use atomix_operator.Controller.Cluster.Outcomes.{cluster_reconcile_converges}
use atomix_operator.Controller.PartitionGroup as PartitionGroup
use atomix_operator.Controller.PartitionGroup.Laws as GroupLaws
use atomix_operator.Controller.PartitionGroup.Outcomes.{group_reconcile_converges}

module _ {E : Type 0} (M : Manager E) (L : Log M) (H : Handlers) {F : Foreign} {P : Platform F}
    (C : Client P) (W : LawfulHandlers H C) where
  -- The metadata of an owned object.
  owned_metadata :
      (owner : Owner F) (x y : StatefulSet F)
      → own C owner stateful_set x ≡ ok y
      → (references : List OwnerReference) × (C.set_controller_reference owner x.metadata
          ≡ ok references)
        × (y.metadata ≡ with_references x.metadata references)
  unfolding own
  owned_metadata owner x y e =
      let (references, set, made) = bind-eq-ok (C.set_controller_reference owner x.metadata) _ e in
      (references, set, ap (λ z. z.metadata) (sym (ok-injective made)))

  module _ (s : M.State) (fresh : L.log s ≡ []) (success : (add_to_manager M s).1 ≡ ok tt) where
    cluster_set_event :
        (cluster : AtomixCluster F) (x y : StatefulSet F)
        → new_management_stateful_set P (set_defaults_cluster cluster) ≡ ok x
        → own C (cluster_owner (set_defaults_cluster cluster)) stateful_set x ≡ ok y
        → enqueued H
            (L.log (add_to_manager M s).0)
            "atomixcluster-controller"
            stateful_set
            y.metadata
          ≡ key_of F atomix_cluster cluster ∷ []
    unfolding set_defaults_cluster
    cluster_set_event cluster x y built owned =
        let owner = cluster_owner (set_defaults_cluster cluster) in
        let (references, set, at) = owned_metadata owner x y owned in
        let events = owned_events M L H C W s owner x.metadata references "" fresh success set in
        let key = ClusterLaws.set-key P (set_defaults_cluster cluster) built in
        ap (enqueued H (L.log (add_to_manager M s).0) "atomixcluster-controller" stateful_set) at
        ∙ events.0
        ∙ ap (λ n. record { namespace = n.namespace; name = cluster.metadata.name } ∷ []) (sym key)

    group_set_event :
        (group : PartitionGroup F) (x y : StatefulSet F)
        → GroupLaws.set_of P (set_defaults_partition_group group) ≡ ok x
        → own C (group_owner (set_defaults_partition_group group)) stateful_set x ≡ ok y
        → enqueued H
            (L.log (add_to_manager M s).0)
            "partitiongroup-controller"
            stateful_set
            y.metadata
          ≡ key_of F partition_group group ∷ []
    unfolding set_defaults_partition_group
    group_set_event group x y built owned =
        let owner = group_owner (set_defaults_partition_group group) in
        let (references, set, at) = owned_metadata owner x y owned in
        let events = owned_events M L H C W s owner x.metadata references "" fresh success set in
        let key = GroupLaws.set-key P (set_defaults_partition_group group) x built in
        ap (enqueued H (L.log (add_to_manager M s).0) "partitiongroup-controller" stateful_set) at
        ∙ events.1
        ∙ ap (λ n. record { namespace = n.namespace; name = group.metadata.name } ∷ []) (sym key)

    -- If `AddToManager` succeeds with a fresh manager, and the client is reliable, then a change, as
    -- a removal is one, of the StatefulSet that Reconcile makes for a cluster enqueues one request
    -- with the controller of clusters, and `Reconcile` for it succeeds and all five objects of the
    -- cluster are present, if the cluster is still stored, the storage size can be parsed after the
    -- defaults and it is accepted as an owner of new objects; and the same holds of a partition group that has a
    -- protocol.
    pub sets_restored :
        (S : Store C)
        → IsReliable C S
        → (w : C.World) (cluster : AtomixCluster F) (group : PartitionGroup F)
          (cluster_set owned_cluster_set group_set owned_group_set : StatefulSet F)
        → S.lookup w atomix_cluster (key_of F atomix_cluster cluster) ≡ some cluster
        → IsOwner C (cluster_owner (set_defaults_cluster cluster))
        → is_ok (P.parse_quantity (set_defaults_cluster cluster).spec.storage.size) ≡ true
        → new_management_stateful_set P (set_defaults_cluster cluster) ≡ ok cluster_set
        → own C (cluster_owner (set_defaults_cluster cluster)) stateful_set cluster_set
          ≡ ok owned_cluster_set
        → S.lookup w partition_group (key_of F partition_group group) ≡ some group
        → IsOwner C (group_owner (set_defaults_partition_group group))
        → ¬ HasNoProtocol group
        → is_parsed P (storage_size (set_defaults_partition_group group).spec) ≡ true
        → GroupLaws.set_of P (set_defaults_partition_group group) ≡ ok group_set
        → own C (group_owner (set_defaults_partition_group group)) stateful_set group_set
          ≡ ok owned_group_set
        → let log = L.log (add_to_manager M s).0 in
          let n = key_of F atomix_cluster cluster in
          let m = key_of F partition_group group in
          ((enqueued H log "atomixcluster-controller" stateful_set owned_cluster_set.metadata
              ≡ n ∷ [])
            × ((Cluster.reconcile C n w).1 ≡ ok tt)
            × All
                (IsPresent S (Cluster.reconcile C n w).0)
                (ClusterLaws.cluster_children C (set_defaults_cluster cluster)))
          × ((enqueued H log "partitiongroup-controller" stateful_set owned_group_set.metadata
                ≡ m ∷ [])
              × ((PartitionGroup.reconcile C m w).1 ≡ ok tt)
              × All
                  (IsPresent S (PartitionGroup.reconcile C m w).0)
                  (GroupLaws.group_children C (set_defaults_partition_group group)))
    sets_restored S reliable w cluster group x y x' y' stored accepts parsed built owned stored'
          accepts' protocol parsed' built' owned' =
        let (done, present) =
          cluster_reconcile_converges C S reliable _ w cluster stored accepts parsed in
        let (done', present') =
          group_reconcile_converges C S reliable _ w group stored' accepts' protocol parsed' in
        (
          (cluster_set_event cluster x y built owned, done, present),
          (group_set_event group x' y' built' owned', done', present'),
        )
