-- ===== src/V1alpha1/Json/Ranges.antt =====
-- The integers of a resource that was read.
use atomix_operator.Base.{refl, String, List}
use atomix_operator.V1alpha1.Json.{Numbers, Json}
use atomix_operator.V1alpha1.Json.Codecs.{int_codec, pointer_codec, slice_codec, string_codec}
use atomix_operator.V1alpha1.Json.Codecs.Laws.{AnyValue, IsOfWidth, IsGoodPointer}
use atomix_operator.V1alpha1.Json.Fields.{Fields, field, omitempty, ◌⊗◌, struct_codec}
use atomix_operator.V1alpha1.Json.Reading.{
  Decodes, ReadsAs, any-ReadsAs, both-ReadsAs, of_record-ReadsAs, omitempty-ReadsAs, struct-Decodes,
  int-Decodes, pointer-Decodes,
}
use atomix_operator.V1alpha1.Json.Tags.{
  VendoredJson, raft_fields, make_raft, split_raft, persistent_fields, storage_fields,
  primary_backup_fields, log_fields, status_fields,
}
use atomix_operator.V1alpha1.Json.Resources.{
  GroupSpec, make_resource, split_resource, make_cluster_spec, split_cluster_spec, make_group_spec,
  split_group_spec, make_benchmark_spec, split_benchmark_spec, cluster_spec_fields,
  group_spec_fields, benchmark_spec_fields, resource_fields, cluster_codec, group_codec,
  benchmark_codec,
}

module _ {N : Numbers} (ms : List (String × Json N)) where
  raft-ReadsAs : ReadsAs ms raft_fields (λ r. IsOfWidth 63 r.partition_size)
  raft-ReadsAs =
      of_record-ReadsAs ms make_raft split_raft _ (λ a h. h.1)
        (both-ReadsAs ms (any-ReadsAs ms persistent_fields) (
          omitempty-ReadsAs ms "partitionSize" (int_codec 63) (IsOfWidth 63) (int-Decodes 63 refl)))

module _ {N : Numbers} (V : VendoredJson N) where
  -- A resource's specification has what its fields have among any members.
  pub spec-Decodes :
      {Spec : Type 0} (p : Fields N Spec) (P : Spec → Type 0)
      → P p.unset
      → ((ms : List (String × Json N)) → ReadsAs ms p P)
      → Decodes (struct_codec (resource_fields V p)) (λ x. P x.spec)
  spec-Decodes p P unset reads =
      struct-Decodes (resource_fields V p) (λ x. P x.spec) unset
        (λ ms.
          of_record-ReadsAs ms make_resource split_resource (λ x. P x.spec) (λ a h. h.1.1.0)
            (both-ReadsAs ms (any-ReadsAs ms V.type_meta) (
              both-ReadsAs ms (any-ReadsAs ms (omitempty "metadata" V.object_meta)) (
                both-ReadsAs ms
                  (omitempty-ReadsAs ms "spec" (struct_codec p) P (struct-Decodes p P unset reads))
                  (any-ReadsAs ms (omitempty "status" (struct_codec status_fields)))))))

  abbrev pub HasGroupInts : GroupSpec V → Type 0
  HasGroupInts s =
      IsOfWidth 31 s.size
      × IsOfWidth 63 s.partitions
      × IsGoodPointer (λ r. IsOfWidth 63 r.partition_size) s.raft

  module _ (ms : List (String × Json N)) where
    pub any_string : (key : String) → ReadsAs ms (omitempty {N = N} key string_codec) AnyValue
    any_string key = any-ReadsAs ms (omitempty key string_codec)

    pub any_env : ReadsAs ms (omitempty "env" (slice_codec V.env_var)) AnyValue
    any_env = any-ReadsAs ms (omitempty "env" (slice_codec V.env_var))

    pub any_resources : ReadsAs ms (omitempty "resources" V.resource_requirements) AnyValue
    any_resources = any-ReadsAs ms (omitempty "resources" V.resource_requirements)

    int32-ReadsAs :
        (key : String) → ReadsAs ms (omitempty {N = N} key (int_codec 31)) (IsOfWidth 31)
    int32-ReadsAs key = omitempty-ReadsAs ms key (int_codec 31) (IsOfWidth 31) (int-Decodes 31 refl)

    int64-ReadsAs :
        (key : String) → ReadsAs ms (omitempty {N = N} key (int_codec 63)) (IsOfWidth 63)
    int64-ReadsAs key = omitempty-ReadsAs ms key (int_codec 63) (IsOfWidth 63) (int-Decodes 63 refl)

    cluster_spec-ReadsAs : ReadsAs ms (cluster_spec_fields V) (λ s. IsOfWidth 31 s.size)
    cluster_spec-ReadsAs =
        of_record-ReadsAs ms (make_cluster_spec V) (split_cluster_spec V) _ (λ a h. h.1.0)
          (both-ReadsAs ms (any_string "version") (
            both-ReadsAs ms (int32-ReadsAs "size") (
              both-ReadsAs ms any_env (
                both-ReadsAs ms any_resources
                  (any-ReadsAs ms (omitempty "storage" (struct_codec storage_fields)))))))

    benchmark_spec-ReadsAs : ReadsAs ms (benchmark_spec_fields V) (λ s. IsOfWidth 31 s.workers)
    benchmark_spec-ReadsAs =
        of_record-ReadsAs ms (make_benchmark_spec V) (split_benchmark_spec V) _ (λ a h. h.1.1.0)
          (both-ReadsAs ms (any_string "cluster") (
            both-ReadsAs ms (any_string "version")
              (both-ReadsAs ms (int32-ReadsAs "workers") (both-ReadsAs ms any_env any_resources))))

    raft_field :
        ReadsAs ms
          (omitempty {N = N} "raft" (pointer_codec (struct_codec raft_fields)))
          (IsGoodPointer (λ r. IsOfWidth 63 r.partition_size))
    raft_field = omitempty-ReadsAs ms "raft" (pointer_codec (struct_codec raft_fields)) _ (
        pointer-Decodes (struct_codec raft_fields) _
          (struct-Decodes raft_fields (λ r. IsOfWidth 63 r.partition_size) refl raft-ReadsAs))

    group_spec-ReadsAs : ReadsAs ms (group_spec_fields V) HasGroupInts
    group_spec-ReadsAs =
        of_record-ReadsAs ms (make_group_spec V) (split_group_spec V) HasGroupInts
          (λ a h. (h.1.1.0, h.1.1.1.0, h.1.1.1.1.1.1.0))
          (both-ReadsAs ms (any_string "cluster") (
            both-ReadsAs ms (any_string "version") (
              both-ReadsAs ms (int32-ReadsAs "size") (
                both-ReadsAs ms (int64-ReadsAs "partitions") (
                  both-ReadsAs ms any_env (
                    both-ReadsAs ms any_resources (
                      both-ReadsAs ms raft_field (
                        any-ReadsAs ms (
                          omitempty "primaryBackup"
                            (pointer_codec (struct_codec primary_backup_fields))
                          ⊗ field "log:omitempty" (pointer_codec (struct_codec log_fields)))))))))))

  -- What of a resource is in the range of its type.
  pub cluster-Decodes : Decodes (cluster_codec V) (λ x. IsOfWidth 31 x.spec.size)
  cluster-Decodes =
      spec-Decodes (cluster_spec_fields V) (λ s. IsOfWidth 31 s.size) refl cluster_spec-ReadsAs

  pub group-Decodes : Decodes (group_codec V) (λ x. HasGroupInts x.spec)
  group-Decodes =
      spec-Decodes (group_spec_fields V) HasGroupInts (refl, refl, tt) group_spec-ReadsAs

  pub benchmark-Decodes : Decodes (benchmark_codec V) (λ x. IsOfWidth 31 x.spec.workers)
  benchmark-Decodes =
      spec-Decodes (benchmark_spec_fields V) (λ s. IsOfWidth 31 s.workers) refl
        benchmark_spec-ReadsAs
