-- ===== src/Tests/Clusters.antt =====
-- The theorems on the reconciler of the AtomixCluster, with the client in memory.
use atomix_operator.Base.{◌≡◌, ◌≢◌, refl, none, ok, true, false, is_ok, All}
use atomix_operator.V1alpha1.Defaults.{set_defaults_cluster, set_defaults_storage}
use atomix_operator.Controller.Client.{atomix_cluster, cluster_owner, stateful_set}
use atomix_operator.Controller.Ensures.{IsPresent}
use atomix_operator.Controller.Ensures.Reconciles.{Reconciles}
use atomix_operator.Controller.Cluster as Cluster
use atomix_operator.Controller.Cluster.Laws.{cluster_children, cluster_reconcile-Reconciles}
use atomix_operator.Controller.Cluster.Outcomes.{
  cluster_reconcile_converges, cluster_reconcile_bad_size,
}
use atomix_operator.Tests.Memory.{platform, client, store, client-IsReliable}
use atomix_operator.Tests.Samples.{three_nodes, unparsed, in_default, with_object, with_cluster}
use atomix_operator.Tests.Owners.{client-IsOwner}

pub parsed_example :
    is_ok (platform.parse_quantity (set_defaults_cluster three_nodes).spec.storage.size) ≡ true
unfolding set_defaults_cluster set_defaults_storage
parsed_example = refl

unparsed_example :
    is_ok (platform.parse_quantity (set_defaults_cluster unparsed).spec.storage.size) ≡ false
unfolding set_defaults_cluster set_defaults_storage
unparsed_example = refl

cluster_reconcile-Reconciles_example :
    Reconciles store
      (Cluster.reconcile client (in_default "example"))
      atomix_cluster
      (in_default "example")
      (λ x. cluster_children client (set_defaults_cluster x))
cluster_reconcile-Reconciles_example =
    cluster_reconcile-Reconciles client store (in_default "example")

cluster_reconcile_converges_example :
    ((Cluster.reconcile client (in_default "example") with_cluster).1 ≡ ok tt)
    × All
        (IsPresent store (Cluster.reconcile client (in_default "example") with_cluster).0)
        (cluster_children client (set_defaults_cluster three_nodes))
cluster_reconcile_converges_example =
    cluster_reconcile_converges client store client-IsReliable (in_default "example") with_cluster
      three_nodes refl (client-IsOwner (cluster_owner (set_defaults_cluster three_nodes)))
      parsed_example

pub cluster_succeeds : (Cluster.reconcile client (in_default "example") with_cluster).1 ≡ ok tt
cluster_succeeds =
    (cluster_reconcile_converges client store client-IsReliable (in_default "example") with_cluster
      three_nodes refl (client-IsOwner (cluster_owner (set_defaults_cluster three_nodes)))
      parsed_example).0

cluster_reconcile_bad_size_example :
    ((Cluster.reconcile client (in_default "example") (with_object atomix_cluster unparsed)).1
      ≢ ok tt)
    × (store.lookup
          (Cluster.reconcile client (in_default "example") (with_object atomix_cluster unparsed)).0
          stateful_set
          (in_default "example")
        ≡ none)
cluster_reconcile_bad_size_example =
    cluster_reconcile_bad_size client store (in_default "example")
      (with_object atomix_cluster unparsed) unparsed refl unparsed_example refl
