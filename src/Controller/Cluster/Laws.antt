-- ===== src/Controller/Cluster/Laws.antt =====
-- What `Reconcile` does for an AtomixCluster, over any lawful client.
use atomix_operator.Base.{arith, ◌≡◌, refl, List, [], ◌∷◌, Result, ok, String}
use atomix_operator.Kube.Meta.{Foreign, NamespacedName}
use atomix_operator.Kube.Platform.{Platform}
use atomix_operator.Kube.Objects.{StatefulSet}
use atomix_operator.V1alpha1.Types.{AtomixCluster}
use atomix_operator.V1alpha1.Defaults.{set_defaults_cluster}
use atomix_operator.Util.Cluster.{
  get_management_service_name, get_management_disruption_budget_name,
  get_management_init_config_map_name, get_management_system_config_map_name,
  get_management_stateful_set_name, new_management_service, new_management_init_config_map,
  new_management_system_config_map, new_management_disruption_budget, new_management_stateful_set,
}
use atomix_operator.Controller.Client.{
  Kind, ObjectOf, Client, key_of, Owner, cluster_owner, atomix_cluster, config_map, service,
  pod_disruption_budget, stateful_set,
}
use atomix_operator.Controller.Store.{Store}
use atomix_operator.Controller.Ensures.{Child, Ensures}
use atomix_operator.Controller.Ensures.Own.{child, add-Ensures, own-Ensures}
use atomix_operator.Controller.Ensures.Sequence.{done-Ensures, then_do-Ensures}
use atomix_operator.Controller.Ensures.Reconciles.{
  Reconciles, get_or_stop-Reconciles, Reconciles-twice,
}
use atomix_operator.Controller.Cluster.{reconcile_objects, reconcile}

-- The StatefulSet, where its claims can be built, has the name of the cluster.
pub set-key :
    {F : Foreign} (P : Platform F) (cluster : AtomixCluster F) {x : StatefulSet F}
    → new_management_stateful_set P cluster ≡ ok x
    → record {
      namespace = cluster.metadata.namespace;
      name = get_management_stateful_set_name cluster;
    }
      ≡ key_of F stateful_set x
unfolding new_management_stateful_set
set-key P cluster e = ground arith

module _ {F : Foreign} {P : Platform F} (C : Client P) (cluster : AtomixCluster F) where
  abbrev in_namespace : String → NamespacedName
  in_namespace name = record { namespace = cluster.metadata.namespace; name = name }

  abbrev owned_child : (k : Kind) → String → Result P.Error (ObjectOf F k) → Child P
  owned_child k name = child C (cluster_owner cluster) k (in_namespace name)

  -- The objects that belong to a cluster whose defaults are set, each with its controller.
  abbrev pub cluster_children : List (Child P)
  cluster_children =
      owned_child config_map (get_management_init_config_map_name cluster)
        (ok (new_management_init_config_map cluster))
      ∷ owned_child config_map (get_management_system_config_map_name cluster)
          (ok (new_management_system_config_map cluster))
      ∷ owned_child pod_disruption_budget (get_management_disruption_budget_name cluster)
          (ok (new_management_disruption_budget P cluster))
      ∷ owned_child stateful_set (get_management_stateful_set_name cluster)
          (new_management_stateful_set P cluster)
      ∷ owned_child service (get_management_service_name cluster)
          (ok (new_management_service cluster))
      ∷ []

  module _ (S : Store C) where
    abbrev owner : Owner F
    owner = cluster_owner cluster

    reconcile_objects-Ensures : Ensures S (reconcile_objects C cluster) cluster_children
    unfolding reconcile_objects new_management_init_config_map new_management_system_config_map
        new_management_disruption_budget new_management_service
    reconcile_objects-Ensures =
        then_do-Ensures S _ _ _ _ (own-Ensures C owner config_map S _ _ refl) (
          then_do-Ensures S _ _ _ _ (own-Ensures C owner config_map S _ _ refl) (
            then_do-Ensures S _ _ _ _ (own-Ensures C owner pod_disruption_budget S _ _ refl) (
              then_do-Ensures S _ _ _ _
                (add-Ensures C owner stateful_set S _ _ (λ x e. set-key P cluster e))
                (then_do-Ensures S _ _ _ _ (own-Ensures C owner service S _ _ refl)
                  (done-Ensures S)))))

module _ {F : Foreign} {P : Platform F} (C : Client P) (S : Store C)
    (request : NamespacedName) where
  -- Over a lawful client, `Reconcile` of an AtomixCluster refines its specification: it ensures the
  -- init script, the configuration, the disruption budget, the StatefulSet and the service of the
  -- stored cluster with its defaults set, never changes or removes a stored object, creates nothing
  -- else, and does nothing where the cluster is gone.
  pub cluster_reconcile-Reconciles :
      Reconciles S
        (reconcile C request)
        atomix_cluster
        request
        (λ cluster. cluster_children C (set_defaults_cluster cluster))
  unfolding reconcile
  cluster_reconcile-Reconciles =
      get_or_stop-Reconciles S atomix_cluster request _ _
        (λ cluster. reconcile_objects-Ensures C (set_defaults_cluster cluster) S)

  -- After a successful `Reconcile` of an AtomixCluster a second run changes no stored object and
  -- adds none, whatever its own calls return.
  pub cluster_reconcile_twice :
      (w : C.World)
      → (reconcile C request w).1 ≡ ok tt
      → (j : Kind) (n : NamespacedName)
      → S.lookup (reconcile C request (reconcile C request w).0).0 j n
        ≡ S.lookup (reconcile C request w).0 j n
  cluster_reconcile_twice = Reconciles-twice S cluster_reconcile-Reconciles
