-- ===== src/Util/Budget/Documents.antt =====
-- The disruption budgets of resources that were read from documents.
use atomix_operator.Base.{ℕ, ◌≡◌, ◌<◌, ◌^◌, arith, some, ok, ℤ, pos, negsuc}
use atomix_operator.Kube.Meta.{Foreign}
use atomix_operator.Kube.Pod.{int_type}
use atomix_operator.Kube.Platform.{Platform, FromIntKeeps}
use atomix_operator.V1alpha1.Defaults.{set_defaults_cluster, set_defaults_partition_group}
use atomix_operator.V1alpha1.DeepCopy.Structs.{ResourceOf}
use atomix_operator.V1alpha1.Json.{Numbers, Json}
use atomix_operator.V1alpha1.Json.Codecs.Laws.{IsOfWidth}
use atomix_operator.V1alpha1.Json.Tags.{VendoredJson}
use atomix_operator.V1alpha1.Json.Resources.{ClusterSpec, GroupSpec, cluster_codec, group_codec}
use atomix_operator.V1alpha1.Json.Reading.{holds_ok}
use atomix_operator.V1alpha1.Json.Ranges.{HasGroupInts, cluster-Decodes, group-Decodes}
use atomix_operator.V1alpha1.Json.Values.{Vendored, to_cluster, to_group}
use atomix_operator.Util.Cluster.{new_management_disruption_budget}
use atomix_operator.Util.PartitionGroup.{new_partition_group_disruption_budget}
use atomix_operator.Util.Budget.{
  IsLeastMajority, or_one, management_budget_majority, group_budget_majority,
}

int32-bound : (x : ℤ) (n : ℕ) → IsOfWidth 31 x → x ≡ pos n → n < 2 ^ 31
int32-bound (pos m) n in_range e = ground arith
int32-bound (negsuc m) n in_range e = cc

module _ {N : Numbers} {V : VendoredJson N} {F : Foreign} (W : Vendored V F) where
  module _ (P : Platform F) (keeps : FromIntKeeps P) where
    -- For a cluster and for a partition group that are read from documents, if the size, which is
    -- in the range of int32, is not negative, the budget, after the defaults, asks for the least
    -- majority of the replicas, which are as many as the size says, and one for the size 0.
    pub read_budgets_majority :
        (j k : Json N) (x : ResourceOf V.ObjectMeta (ClusterSpec V))
        (y : ResourceOf V.ObjectMeta (GroupSpec V)) (m n : ℕ)
        → (cluster_codec V).decode j ≡ ok x
        → (group_codec V).decode k ≡ ok y
        → x.spec.size ≡ pos m
        → y.spec.size ≡ pos n
        → let cluster = set_defaults_cluster (to_cluster W x) in
          let group = set_defaults_partition_group (to_group W y) in
          ((i : ℕ) × (cluster.spec.size ≡ pos (or_one m))
            × ((new_management_disruption_budget P cluster).spec.min_available
                ≡ some (record { type = int_type; int_val = pos i; str_val = "" }))
            × IsLeastMajority i (or_one m))
          × ((i : ℕ) × (group.spec.size ≡ pos (or_one n))
              × ((new_partition_group_disruption_budget P group).spec.min_available
                  ≡ some (record { type = int_type; int_val = pos i; str_val = "" }))
              × IsLeastMajority i (or_one n))
    read_budgets_majority j k x y m n read_cluster read_group size size' =
        let range =
          holds_ok (λ z. IsOfWidth 31 z.spec.size) _ x ((cluster-Decodes V).holds j) read_cluster in
        let ranges =
          holds_ok (λ z. HasGroupInts V z.spec) _ y ((group-Decodes V).holds k) read_group in
        (
          management_budget_majority P keeps (to_cluster W x) m size
              (int32-bound x.spec.size m range size),
          group_budget_majority P keeps (to_group W y) n size'
              (int32-bound y.spec.size n ranges.0 size'),
        )
