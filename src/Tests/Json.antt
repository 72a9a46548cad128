-- ===== src/Tests/Json.antt =====
-- The theorems on documents, with the literals and the vendored structs of Tests/Literals.antt.
use atomix_operator.Base.{ℕ, ◌≡◌, ◌≢◌, refl, arith, none, some, ok, err, pos}
use atomix_operator.V1alpha1.Types.{get_partition_group_type}
use atomix_operator.V1alpha1.Json.{object}
use atomix_operator.V1alpha1.Json.Codecs.Laws.{ReadsBack, IsPlainFloat32}
use atomix_operator.V1alpha1.Json.Resources.{
  cluster_codec, group_codec, benchmark_codec, cluster_list_codec, group_list_codec,
  benchmark_list_codec,
}
use atomix_operator.V1alpha1.Json.RoundTrip.{resources_read_back}
use atomix_operator.V1alpha1.Json.Unknown.{unknown_members_ignored}
use atomix_operator.V1alpha1.Json.Values.{to_group, to_cluster}
use atomix_operator.V1alpha1.Json.Sections.{group_document_type}
use atomix_operator.V1alpha1.Defaults.{set_defaults_cluster, set_defaults_partition_group}
use atomix_operator.Kube.Pod.{int_type}
use atomix_operator.Util.Cluster.{new_management_disruption_budget}
use atomix_operator.Util.PartitionGroup.{new_partition_group_disruption_budget}
use atomix_operator.Util.Budget.{IsLeastMajority}
use atomix_operator.Util.Budget.Documents.{read_budgets_majority}
use atomix_operator.Controller.Client.{partition_group, stateful_set}
use atomix_operator.Controller.PartitionGroup as PartitionGroup
use atomix_operator.Controller.PartitionGroup.Documents.{group_reconcile_log_unread}
use atomix_operator.Tests.Memory.{message, platform, platform-FromIntKeeps, client, store}
use atomix_operator.Tests.Samples.{in_default, with_object}
use atomix_operator.Tests.Literals.{
  literals, literals-LawfulNumbers, vendored, vendored_laws, vendored-KnownTypeMeta, to_kube,
}
use atomix_operator.Tests.Documents.{
  a_cluster, a_group, a_benchmark, list_of, read_cluster, read_group, readme_document, readme_known,
  log_known, cluster_document, log_document, log_spec_document,
}

plain_point_two : IsPlainFloat32 literals 0x3e4ccccd
plain_point_two = (λ e. omega arith, λ e. cc)

plain_zero : IsPlainFloat32 literals 0
plain_zero = (λ e. omega arith, λ e. cc)

resources_read_back_example :
    ReadsBack (cluster_codec vendored) ((cluster_codec vendored).encode a_cluster) a_cluster
    × ReadsBack (group_codec vendored) ((group_codec vendored).encode a_group) a_group
    × ReadsBack
        (benchmark_codec vendored)
        ((benchmark_codec vendored).encode a_benchmark)
        a_benchmark
    × ReadsBack
        (cluster_list_codec vendored)
        ((cluster_list_codec vendored).encode (list_of a_cluster))
        (list_of a_cluster)
    × ReadsBack
        (group_list_codec vendored)
        ((group_list_codec vendored).encode (list_of a_group))
        (list_of a_group)
    × ReadsBack
        (benchmark_list_codec vendored)
        ((benchmark_list_codec vendored).encode (list_of a_benchmark))
        (list_of a_benchmark)
resources_read_back_example =
    resources_read_back literals-LawfulNumbers vendored_laws a_cluster a_group a_benchmark
      (list_of a_cluster) (list_of a_group) (list_of a_benchmark)
      ((tt, tt), (refl, ((tt, tt), tt), tt))
      ((tt, tt), (refl, refl, tt, tt, tt, (plain_point_two, plain_zero))) ((tt, tt), (refl, tt, tt))
      (((tt, tt), (refl, ((tt, tt), tt), tt)), tt)
      (((tt, tt), (refl, refl, tt, tt, tt, (plain_point_two, plain_zero))), tt)
      (((tt, tt), (refl, tt, tt)), tt)

group_document_type_example :
    get_partition_group_type message (to_group to_kube read_group)
    ≡ err (message "unknown partition group type")
group_document_type_example =
    group_document_type to_kube message log_document log_spec_document read_group refl refl

group_reconcile_log_unread_example :
    ((PartitionGroup.reconcile client
        (in_default "example")
        (with_object partition_group (to_group to_kube read_group))).1
      ≢ ok tt)
    × (store.lookup
          (PartitionGroup.reconcile client
            (in_default "example")
            (with_object partition_group (to_group to_kube read_group))).0
          stateful_set
          (in_default "example")
        ≡ none)
group_reconcile_log_unread_example =
    group_reconcile_log_unread to_kube client store (in_default "example")
      (with_object partition_group (to_group to_kube read_group)) log_document log_spec_document
      read_group refl refl refl refl refl refl refl

read_budgets_majority_example :
    let cluster = set_defaults_cluster (to_cluster to_kube read_cluster) in
    let group = set_defaults_partition_group (to_group to_kube read_group) in
    ((i : ℕ) × (cluster.spec.size ≡ pos 3)
      × ((new_management_disruption_budget platform cluster).spec.min_available
          ≡ some (record { type = int_type; int_val = pos i; str_val = "" }))
      × IsLeastMajority i 3)
    × ((i : ℕ) × (group.spec.size ≡ pos 4)
        × ((new_partition_group_disruption_budget platform group).spec.min_available
            ≡ some (record { type = int_type; int_val = pos i; str_val = "" }))
        × IsLeastMajority i 4)
read_budgets_majority_example =
    read_budgets_majority to_kube platform platform-FromIntKeeps cluster_document
      (object log_document) read_cluster read_group 3 4 refl refl refl refl

unknown_members_ignored_example :
    ((cluster_codec vendored).decode (object readme_document)
      ≡ (cluster_codec vendored).decode (object readme_known))
    × ((group_codec vendored).decode (object log_document)
        ≡ (group_codec vendored).decode (object log_known))
    × ((benchmark_codec vendored).decode (object readme_document)
        ≡ (benchmark_codec vendored).decode (object readme_known))
unknown_members_ignored_example =
    unknown_members_ignored vendored vendored-KnownTypeMeta readme_document readme_known
      log_document log_known readme_document readme_known
      (
        (refl, (refl, (refl, (refl, tt)))),
        (_, _, refl, refl, (refl, (refl, (refl, (refl, (refl, tt)))))),
      )
      (
        (refl, (refl, (refl, (refl, tt)))),
        (
          _,
          _,
          refl,
          refl,
          (refl, (refl, (refl, (refl, (refl, (refl, (refl, (refl, (refl, tt))))))))),
        ),
      )
      (
        (refl, (refl, (refl, (refl, tt)))),
        (_, _, refl, refl, (refl, (refl, (refl, (refl, (refl, tt)))))),
      )
