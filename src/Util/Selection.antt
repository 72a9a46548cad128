-- ===== src/Util/Selection.antt =====
-- Which pods the services and the anti-affinity terms select, among those that the operator makes.
use atomix_operator.Base.{◌≡◌, ◌↔◌, eq_iff, Bool, true, false, none, some, arith, any}
use atomix_operator.Kube.Meta.{Foreign, StringMap}
use atomix_operator.Kube.Pod.{Affinity}
use atomix_operator.Kube.Selector.{selects, selects_labels}
use atomix_operator.V1alpha1.Types.{AtomixCluster, PartitionGroup, AtomixBenchmark}
use atomix_operator.Util.Resources.{new_affinity}
use atomix_operator.Util.Cluster.{new_management_labels, new_management_service}
use atomix_operator.Util.PartitionGroup.{
  new_partition_group_labels, new_partition_group_service, get_partition_group_stateful_set_name,
}
use atomix_operator.Util.Benchmark.Controller.{
  new_benchmark_controller_labels, new_benchmark_controller_service,
}
use atomix_operator.Util.Benchmark.Worker.{
  new_benchmark_worker_labels, new_benchmark_worker_service,
}

-- Some anti-affinity term selects a pod with these labels.
abbrev pub avoids : Affinity → StringMap → Bool
avoids affinity labels = elim affinity.pod_anti_affinity [
  | none ↦ false
  | some anti ↦
      any
        (λ term. elim term.pod_affinity_term.label_selector [
          | none ↦ false
          | some selector ↦ selects selector labels
        ])
        anti.preferred_during_scheduling_ignored_during_execution
]

module _ {F : Foreign} where
  -- The services of a cluster, of a partition group and of a benchmark, and the pods of others.
  module _ (cluster other : AtomixCluster F) (group other_group : PartitionGroup F)
      (benchmark other_benchmark : AtomixBenchmark F) where
    abbrev pub ManagementSelects : Type 0
    ManagementSelects =
        let selector = (new_management_service cluster).spec.selector in
        ((selects_labels selector (new_management_labels other) ≡ true)
          ↔ (cluster.metadata.name ≡ other.metadata.name))
        × ((selects_labels selector (new_partition_group_labels group) ≡ true)
            ↔ (cluster.metadata.name ≡ group.spec.cluster))
        × ((selects_labels selector (new_benchmark_controller_labels benchmark) ≡ true)
            ↔ (cluster.metadata.name ≡ benchmark.spec.cluster))
        × ((selects_labels selector (new_benchmark_worker_labels benchmark) ≡ true)
            ↔ (cluster.metadata.name ≡ benchmark.spec.cluster))

    abbrev pub GroupSelects : Type 0
    GroupSelects =
        let selector = (new_partition_group_service group).spec.selector in
        ((selects_labels selector (new_partition_group_labels other_group) ≡ true) ↔ (
          (group.spec.cluster ≡ other_group.spec.cluster)
          × (group.metadata.name ≡ other_group.metadata.name)))
        × (selects_labels selector (new_management_labels cluster) ≡ false)
        × (selects_labels selector (new_benchmark_controller_labels benchmark) ≡ false)
        × (selects_labels selector (new_benchmark_worker_labels benchmark) ≡ false)

    abbrev pub BenchmarkSelects : Type 0
    BenchmarkSelects =
        let controller = (new_benchmark_controller_service benchmark).spec.selector in
        let worker = (new_benchmark_worker_service benchmark).spec.selector in
        ((selects_labels controller (new_benchmark_controller_labels other_benchmark) ≡ true)
          ↔ (benchmark.spec.cluster ≡ other_benchmark.spec.cluster))
        × ((selects_labels worker (new_benchmark_worker_labels other_benchmark) ≡ true)
            ↔ (benchmark.spec.cluster ≡ other_benchmark.spec.cluster))
        × (selects_labels controller (new_benchmark_worker_labels other_benchmark) ≡ false)
        × (selects_labels worker (new_benchmark_controller_labels other_benchmark) ≡ false)

    management_selects : ManagementSelects
    unfolding new_management_service new_management_labels new_partition_group_labels
        new_benchmark_controller_labels new_benchmark_worker_labels
    management_selects = ground (
      arith,
      eq_iff cluster.metadata.name other.metadata.name,
      eq_iff cluster.metadata.name group.spec.cluster,
      eq_iff cluster.metadata.name benchmark.spec.cluster,
    )

    group_selects : GroupSelects
    unfolding new_management_labels new_partition_group_service new_benchmark_controller_labels
        new_benchmark_worker_labels
    group_selects = ground (
      arith,
      eq_iff group.spec.cluster other_group.spec.cluster,
      eq_iff group.metadata.name other_group.metadata.name,
    )

    benchmark_selects : BenchmarkSelects
    unfolding new_benchmark_controller_service new_benchmark_worker_service
    benchmark_selects = ground (arith, eq_iff benchmark.spec.cluster other_benchmark.spec.cluster)

    -- The management service of a cluster selects the management pods of that cluster's name, and
    -- the pods of exactly the partition groups and benchmarks whose `cluster` field is that name.
    -- The service of a partition group selects the pods of a group exactly if their clusters and
    -- names agree, and never a management pod or a pod of a benchmark. The two services of a
    -- benchmark select disjoint pods: the controller's service never selects a worker and the
    -- workers' never a controller, whatever the benchmarks; each selects its own kind exactly if
    -- the `cluster` fields agree.
    pub services_select : ManagementSelects × GroupSelects × BenchmarkSelects
    services_select = (management_selects, group_selects, benchmark_selects)

  -- The anti-affinity of a management pod selects management pods only if the cluster that it is
  -- made for is named "atomix": the term asks for the cluster's name under the key whose value is
  -- always "atomix".
  pub management_affinity_selects :
      (cluster other : AtomixCluster F)
      → (avoids (new_affinity cluster.metadata.name) (new_management_labels other) ≡ true)
        ↔ (cluster.metadata.name ≡ "atomix")
  unfolding new_affinity new_management_labels
  management_affinity_selects cluster other = ground (arith, eq_iff cluster.metadata.name "atomix")

  -- The anti-affinity of a partition group's pod selects no pod of any partition group.
  pub group_affinity_selects_none :
      (group other : PartitionGroup F)
      → avoids
          (new_affinity (get_partition_group_stateful_set_name group))
          (new_partition_group_labels other)
        ≡ false
  unfolding new_affinity new_partition_group_labels
  group_affinity_selects_none group other = ground arith
