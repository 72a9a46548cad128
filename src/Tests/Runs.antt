-- ===== src/Tests/Runs.antt =====
-- The theorems on runs of the three reconcilers, with the client in memory.
use mathlib.Core.Option.{some-injective}
use atomix_operator.Base.{◌≡◌, ◌≢◌, panic, ◌∙◌, sym, refl, [], ◌∷◌, All}
use atomix_operator.V1alpha1.Defaults.{set_defaults_cluster}
use atomix_operator.Controller.Client.{cluster_owner, atomix_cluster, stateful_set}
use atomix_operator.Controller.Ensures.{IsBuilt}
use atomix_operator.Controller.Cluster.Outcomes.{cluster_children-IsBuilt}
use atomix_operator.Controller.Runs.{
  Request, cluster_controller, group_controller, reconcile_request, run, children_of,
}
use atomix_operator.Controller.Runs.Laws.{IsSettled, run-keeps, run_settles, run_rests}
use atomix_operator.Controller.Runs.Calm.{request-ne-panic}
use atomix_operator.Controller.Runs.Resources.{run-resource, request_twice}
use atomix_operator.Tests.Memory.{client, store, World, client-IsReliable}
use atomix_operator.Tests.Samples.{three_nodes, in_default, with_cluster}
use atomix_operator.Tests.Owners.{client-IsOwner, client-OwnsCalmly, parse-ne-panic}
use atomix_operator.Tests.Clusters.{parsed_example, cluster_succeeds}

abbrev for_cluster : Request
for_cluster = (cluster_controller, in_default "example")

pub built : All (IsBuilt store) (children_of client cluster_controller three_nodes)
built =
    cluster_children-IsBuilt client store (set_defaults_cluster three_nodes)
      (client-IsOwner (cluster_owner (set_defaults_cluster three_nodes))) parsed_example

-- After one call for the cluster.
abbrev settled_world : World
settled_world = run client (for_cluster ∷ []) with_cluster

cluster-IsSettled : IsSettled client store settled_world for_cluster
cluster-IsSettled x found =
    let still =
      run-keeps client store (for_cluster ∷ []) with_cluster atomix_cluster (in_default "example")
        three_nodes refl in
    let same : three_nodes ≡ x = some-injective three_nodes x (sym still ∙ found) in
    rw (← same) (
      run_settles client store client-IsReliable [] [] cluster_controller (in_default "example")
        with_cluster three_nodes refl built)

run_rests_example :
    store.lookup
      (run client (for_cluster ∷ for_cluster ∷ []) settled_world)
      stateful_set
      (in_default "example")
    ≡ store.lookup settled_world stateful_set (in_default "example")
run_rests_example =
    run_rests client store (for_cluster ∷ for_cluster ∷ []) settled_world
      (cluster-IsSettled, (cluster-IsSettled, tt)) stateful_set (in_default "example")

run-resource_example :
    store.lookup
      (run client (for_cluster ∷ (group_controller, in_default "values") ∷ []) with_cluster)
      atomix_cluster
      (in_default "example")
    ≡ store.lookup with_cluster atomix_cluster (in_default "example")
run-resource_example =
    run-resource client store (for_cluster ∷ (group_controller, in_default "values") ∷ [])
      with_cluster atomix_cluster (in_default "example") refl

-- A request for a group comes between.
abbrev later : World
later =
    run client ((group_controller, in_default "values") ∷ [])
      (reconcile_request client cluster_controller (in_default "example") with_cluster).0

request_twice_example :
    store.lookup
      (reconcile_request client cluster_controller (in_default "example") later).0
      stateful_set
      (in_default "example")
    ≡ store.lookup later stateful_set (in_default "example")
request_twice_example =
    request_twice client store cluster_controller (in_default "example")
      ((group_controller, in_default "values") ∷ []) with_cluster cluster_succeeds stateful_set
      (in_default "example")

request-ne-panic_example :
    (reconcile_request client group_controller (in_default "values") with_cluster).1 ≢ panic
request-ne-panic_example =
    request-ne-panic client store client-OwnsCalmly parse-ne-panic group_controller
      (in_default "values") with_cluster
