-- ===== src/Util/Discovery.antt =====
-- Which service the init scripts tell the nodes to look up, read off the text of the scripts.
use atomix_operator.Base.{
  ◌≡◌, refl, ◌∙◌, String, ◌<>◌, List, [], ◌∷◌, ◌++◌, some, true, all, all-All, All, All-append,
  join_lines,
}
use atomix_operator.Base.Reader.{
  is_line, is_line-append, read, read_lem, find_line-skip, find_line-here, strip, misses,
  misses-Misses,
}
use atomix_operator.Kube.Meta.{Foreign, NamespacedName}
use atomix_operator.Kube.Objects.{ConfigMap}
use atomix_operator.V1alpha1.Types.{AtomixCluster, PartitionGroup, AtomixBenchmark}
use atomix_operator.Util.Cluster.{
  get_management_service_dns_name, new_init_config_map_script, new_management_service,
  new_management_init_config_map,
}
use atomix_operator.Util.PartitionGroup.{new_partition_group_init_config_map}
use atomix_operator.Util.Benchmark.Controller.{
  new_benchmark_controller_init_config_map, new_benchmark_controller_init_config_map_script,
  get_benchmark_controller_service_name, get_benchmark_controller_resource_name,
}
use atomix_operator.Util.Benchmark.Worker.{new_benchmark_worker_init_config_map}

-- The address within Kubernetes of the service of a name in a namespace.
abbrev pub address : String → String → String
address name namespace = name <> "." <> namespace <> ".svc.cluster.local"

-- The script of an init configuration map prints `atomix.service=` and the address: a reader that
-- splits it into lines finds the address, up to the quote that closes the string, on the first line
-- that prints the key.
abbrev service_key : String
service_key = "    echo \"atomix.service="

abbrev pub LooksUp : ConfigMap → String → Type 0
LooksUp map found =
    (script : String) × (map.contents ≡ ("create_config.sh", script) ∷ [])
    × (read service_key script ≡ some (found <> "\""))

address-is_line :
    (name namespace : String)
    → is_line name ≡ true
    → is_line namespace ≡ true
    → is_line (address name namespace) ≡ true
address-is_line name namespace e f =
    is_line-append name ("." <> namespace <> ".svc.cluster.local") e (
      is_line-append "." (namespace <> ".svc.cluster.local") refl
        (is_line-append namespace ".svc.cluster.local" f refl))

-- A line with the key is found behind lines without it.
read_behind :
    (first after : List String) (found : String)
    → all (misses service_key) ("" ∷ first) ≡ true
    → all is_line first ≡ true
    → is_line found ≡ true
    → All (λ l. is_line l ≡ true) after
    → read service_key (join_lines ("" ∷ (first ++ ((service_key <> (found <> "\"")) ∷ after))))
      ≡ some (found <> "\"")
read_behind first after found miss before line lines_after =
    let (empty, missed) = misses-Misses service_key ("" ∷ first) miss in
    let rest = (service_key <> (found <> "\"")) ∷ after in
    read_lem service_key (first ++ rest) empty (
      All-append (λ l. is_line l ≡ true) first rest (all-All is_line first before)
        (
          is_line-append service_key (found <> "\"") refl (is_line-append found "\"" line refl),
          lines_after,
        ))
    ∙ find_line-skip service_key first rest missed
    ∙ find_line-here service_key (found <> "\"") after

-- What follows the line in the script of the nodes.
abbrev node_lines : List String
node_lines =
    "    echo \"atomix.node.id=$NAME-$ORD\"" ∷ "    echo \"atomix.node.host=$NAME-$ORD.$DOMAIN\""
    ∷ "    echo \"atomix.node.port=5679\"" ∷ "    echo \"atomix.replicas=$NODES\""
    ∷ "    for (( i=0; i<$NODES; i++ ))" ∷ "    do"
    ∷ "        echo \"atomix.members.$i=$NAME-$((i))\"" ∷ "    done" ∷ "}" ∷ ""
    ∷ "if [[ $HOST =~ (.*)-([0-9]+)$ ]]; then" ∷ "    NAME=${BASH_REMATCH[1]}"
    ∷ "    ORD=${BASH_REMATCH[2]}" ∷ "else" ∷ "    echo \"Failed to parse name and ordinal of Pod\""
    ∷ "    exit 1" ∷ "fi" ∷ "" ∷ "create_config" ∷ []

abbrev controller_lines : String → List String
controller_lines host =
    "    echo \"atomix.node.id=$HOST\""
    ∷ ("    echo \"atomix.node.host=" <> (host <> "\""))
    ∷ "    echo \"atomix.node.port=5679\""
    ∷ "}"
    ∷ ""
    ∷ "create_config"
    ∷ []

-- The script of the nodes of clusters, of partition groups and of workers.
script_reads :
    (cluster : NamespacedName)
    → is_line cluster.name ≡ true
    → is_line cluster.namespace ≡ true
    → read service_key (new_init_config_map_script cluster)
      ≡ some (address cluster.name cluster.namespace <> "\"")
unfolding new_init_config_map_script get_management_service_dns_name strip
script_reads cluster e f =
    read_behind
      ("#!/usr/bin/env bash" ∷ "" ∷ "HOST=$(hostname -s)" ∷ "DOMAIN=$(hostname -d)" ∷ "NODES=$1"
        ∷ "" ∷ "function create_config() {" ∷ [])
      node_lines (address cluster.name cluster.namespace) refl refl
      (address-is_line cluster.name cluster.namespace e f) (all-All is_line node_lines refl)

module _ {F : Foreign} where
  -- For a cluster and a partition group in its namespace whose `cluster` field is its name, the names
  -- being of one line: the init script of the group's nodes prints, under `atomix.service`, the
  -- address of the management service that is made for the cluster, and it is the very script of
  -- the cluster's own nodes.
  pub group_script_finds_cluster :
      (cluster : AtomixCluster F) (group : PartitionGroup F)
      → group.metadata.namespace ≡ cluster.metadata.namespace
      → group.spec.cluster ≡ cluster.metadata.name
      → is_line cluster.metadata.name ≡ true
      → is_line cluster.metadata.namespace ≡ true
      → let service = (new_management_service cluster).metadata in
        LooksUp (new_partition_group_init_config_map group) (address service.name service.namespace)
        × LooksUp (new_management_init_config_map cluster) (address service.name service.namespace)
        × ((new_partition_group_init_config_map group).contents
            ≡ (new_management_init_config_map cluster).contents)
  unfolding new_partition_group_init_config_map new_management_init_config_map
      new_management_service
  group_script_finds_cluster cluster group here same e f =
      let n = cluster.metadata.name in
      let script =
        new_init_config_map_script (record { namespace = cluster.metadata.namespace; name = n }) in
      let reads = script_reads (record { namespace = cluster.metadata.namespace; name = n }) e f in
      let equal : (new_partition_group_init_config_map group).contents
          ≡ ("create_config.sh", script) ∷ [] =
        cc in
      ((script, equal, reads), (script, refl, reads), equal)

  -- For a benchmark whose names are of one line: in the init configuration map that is built for its
  -- controller, the script prints the address of the service named by the `cluster` field, and in
  -- the one that is built for its workers, the address of the service with the benchmark's own name.
  pub benchmark_scripts_look_up :
      (benchmark : AtomixBenchmark F)
      → is_line benchmark.metadata.name ≡ true
      → is_line benchmark.metadata.namespace ≡ true
      → is_line benchmark.spec.cluster ≡ true
      → LooksUp
          (new_benchmark_controller_init_config_map benchmark)
          (address benchmark.spec.cluster benchmark.metadata.namespace)
        × LooksUp
            (new_benchmark_worker_init_config_map benchmark)
            (address benchmark.metadata.name benchmark.metadata.namespace)
  unfolding new_benchmark_controller_init_config_map new_benchmark_worker_init_config_map
      new_benchmark_controller_init_config_map_script get_benchmark_controller_service_name
      get_benchmark_controller_resource_name get_management_service_dns_name strip
  benchmark_scripts_look_up benchmark e f g =
      let m = benchmark.metadata in
      let host =
        is_line-append "    echo \"atomix.node.host=" ((m.name <> "-service") <> "\"") refl (
          is_line-append (m.name <> "-service") "\"" (is_line-append m.name "-service" e refl)
            refl) in
      (
        (
          _,
          refl,
          read_behind
              ("#!/usr/bin/env bash" ∷ "" ∷ "HOST=$(hostname -s)" ∷ ""
                ∷ "function create_config() {" ∷ [])
              (controller_lines (m.name <> "-service")) (address benchmark.spec.cluster m.namespace)
              refl refl (address-is_line benchmark.spec.cluster m.namespace g f)
              (refl, (host, (refl, (refl, (refl, (refl, tt)))))),
        ),
        (_, refl, script_reads (record { namespace = m.namespace; name = m.name }) e f),
      )
