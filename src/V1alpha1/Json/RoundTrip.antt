-- ===== src/V1alpha1/Json/RoundTrip.antt =====
-- The resources and their lists that are read back as they were written.
use atomix_operator.Base.{◌≡◌, refl, ap, ◌∙◌, String, true, List, [], ◌∷◌}
use atomix_operator.V1alpha1.DeepCopy.Structs.{ResourceOf, ResourceListOf}
use atomix_operator.V1alpha1.Json.{Numbers}
use atomix_operator.V1alpha1.Json.Codecs.{slice_codec}
use atomix_operator.V1alpha1.Json.Codecs.Laws.{
  LawfulNumbers, AnyValue, IsGoodList, ReadsBack, Lawful, list-Lawful,
}
use atomix_operator.V1alpha1.Json.Fields.{Fields, struct_codec}
use atomix_operator.V1alpha1.Json.Fields.Keys.{disjoint}
use atomix_operator.V1alpha1.Json.Fields.Laws.{
  LawfulFields, field-LawfulFields, omitempty-LawfulFields, both-LawfulFields,
  of_record-LawfulFields, struct-Lawful,
}
use atomix_operator.V1alpha1.Json.Tags.{VendoredJson, status_fields}
use atomix_operator.V1alpha1.Json.Structs.{struct_field, status-LawfulFields}
use atomix_operator.V1alpha1.Json.Resources.{
  ClusterSpec, GroupSpec, BenchmarkSpec, make_resource, split_resource, make_list, split_list,
  resource_fields, list_fields, cluster_codec, group_codec, benchmark_codec, cluster_list_codec,
  group_list_codec, benchmark_list_codec,
}
use atomix_operator.V1alpha1.Json.Specs.{
  LawfulJson, IsGoodClusterSpec, IsGoodGroupSpec, IsGoodBenchmarkSpec, cluster_spec-LawfulFields,
  group_spec-LawfulFields, benchmark_spec-LawfulFields,
}

module _ {N : Numbers} (L : LawfulNumbers N) {V : VendoredJson N} (J : LawfulJson V) where
  meta_keys_differ :
      (keys : List String)
      → disjoint ("kind" ∷ "apiVersion" ∷ []) keys ≡ true
      → disjoint V.type_meta.keys keys ≡ true
  meta_keys_differ keys d = ap (λ ks. disjoint ks keys) J.type_meta_keys ∙ d

  module _ {Spec : Type 0} {p : Fields N Spec} {IsGood : Spec → Type 0} where
    resource-LawfulFields :
        LawfulFields p IsGood
        → LawfulFields (resource_fields V p) (λ x. J.IsGoodMeta x.metadata × IsGood x.spec)
    resource-LawfulFields l =
        of_record-LawfulFields make_resource split_resource (λ x. refl) _
          (λ x good. (tt, (good.0, (good.1, tt))))
          (both-LawfulFields (meta_keys_differ _ refl) J.type_meta-LawfulFields (
            both-LawfulFields refl
              (omitempty-LawfulFields "metadata" V.object_meta J.IsGoodMeta J.meta-Lawful
                J.meta-EmptyIsZero)
              (both-LawfulFields refl (struct_field "spec" p IsGood l)
                (struct_field "status" status_fields AnyValue (status-LawfulFields N)))))

    resource-Lawful :
        LawfulFields p IsGood
        → Lawful (struct_codec (resource_fields V p)) (λ x. J.IsGoodMeta x.metadata × IsGood x.spec)
    resource-Lawful l = struct-Lawful (resource_fields V p) _ (resource-LawfulFields l)

    resource_list-Lawful :
        LawfulFields p IsGood
        → Lawful
            (struct_codec (list_fields V (struct_codec (resource_fields V p))))
            (λ x. IsGoodList (λ y. J.IsGoodMeta y.metadata × IsGood y.spec) x.items)
    resource_list-Lawful l = struct-Lawful (list_fields V (struct_codec (resource_fields V p))) _ (
        of_record-LawfulFields make_list split_list (λ x. refl) _ (λ x good. (tt, (tt, good)))
          (both-LawfulFields (meta_keys_differ _ refl) J.type_meta-LawfulFields (
            both-LawfulFields refl
              (omitempty-LawfulFields "metadata" V.list_meta AnyValue J.list_meta-Lawful
                J.list_meta-EmptyIsZero)
              (field-LawfulFields "items" (slice_codec (struct_codec (resource_fields V p))) _
                (list-Lawful (struct_codec (resource_fields V p)) _ (resource-Lawful l))))))

module _ {N : Numbers} (L : LawfulNumbers N) {V : VendoredJson N} (J : LawfulJson V) where
  abbrev pub IsGoodCluster : ResourceOf V.ObjectMeta (ClusterSpec V) → Type 0
  IsGoodCluster x = J.IsGoodMeta x.metadata × IsGoodClusterSpec L J x.spec

  abbrev pub IsGoodGroup : ResourceOf V.ObjectMeta (GroupSpec V) → Type 0
  IsGoodGroup x = J.IsGoodMeta x.metadata × IsGoodGroupSpec L J x.spec

  abbrev pub IsGoodBenchmark : ResourceOf V.ObjectMeta (BenchmarkSpec V) → Type 0
  IsGoodBenchmark x = J.IsGoodMeta x.metadata × IsGoodBenchmarkSpec L J x.spec

  -- An AtomixCluster, a PartitionGroup and an AtomixBenchmark are written to a document that is
  -- read as the same resource, and so are their lists, if the integers are in the range of their
  -- types, the environments of the specifications are nil or not empty, no float32 is -0 or without
  -- a literal, and the vendored structs inside are read back.
  pub resources_read_back :
      (cluster : ResourceOf V.ObjectMeta (ClusterSpec V))
      (group : ResourceOf V.ObjectMeta (GroupSpec V))
      (benchmark : ResourceOf V.ObjectMeta (BenchmarkSpec V))
      (clusters : ResourceListOf (List (ResourceOf V.ObjectMeta (ClusterSpec V))))
      (groups : ResourceListOf (List (ResourceOf V.ObjectMeta (GroupSpec V))))
      (benchmarks : ResourceListOf (List (ResourceOf V.ObjectMeta (BenchmarkSpec V))))
      → IsGoodCluster cluster
      → IsGoodGroup group
      → IsGoodBenchmark benchmark
      → IsGoodList IsGoodCluster clusters.items
      → IsGoodList IsGoodGroup groups.items
      → IsGoodList IsGoodBenchmark benchmarks.items
      → ReadsBack (cluster_codec V) ((cluster_codec V).encode cluster) cluster
        × ReadsBack (group_codec V) ((group_codec V).encode group) group
        × ReadsBack (benchmark_codec V) ((benchmark_codec V).encode benchmark) benchmark
        × ReadsBack (cluster_list_codec V) ((cluster_list_codec V).encode clusters) clusters
        × ReadsBack (group_list_codec V) ((group_list_codec V).encode groups) groups
        × ReadsBack (benchmark_list_codec V) ((benchmark_list_codec V).encode benchmarks) benchmarks
  resources_read_back cluster group benchmark clusters groups benchmarks good good' good'' goods
        goods' goods'' =
      (
        (resource-Lawful L J (cluster_spec-LawfulFields L J)).decode-encode cluster good,
        (resource-Lawful L J (group_spec-LawfulFields L J)).decode-encode group good',
        (resource-Lawful L J (benchmark_spec-LawfulFields L J)).decode-encode benchmark good'',
        (resource_list-Lawful L J (cluster_spec-LawfulFields L J)).decode-encode clusters goods,
        (resource_list-Lawful L J (group_spec-LawfulFields L J)).decode-encode groups goods',
        (resource_list-Lawful L J (benchmark_spec-LawfulFields L J)).decode-encode benchmarks
            goods'',
      )
