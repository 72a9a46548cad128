-- ===== src/V1alpha1/Json/Specs.antt =====
-- The specifications that are read back as they were written.
use atomix_operator.Base.{◌≡◌, refl, Option, none, some, [], ◌∷◌}
use atomix_operator.V1alpha1.Types.{PrimaryBackupPartitionGroup}
use atomix_operator.V1alpha1.Json.{Numbers}
use atomix_operator.V1alpha1.Json.Codecs.{slice_codec, pointer_codec}
use atomix_operator.V1alpha1.Json.Codecs.Laws.{
  LawfulNumbers, AnyValue, IsOfWidth, IsGoodPointer, IsGoodSlice, Lawful, EmptyIsZero,
  pointer-Lawful, slice-Lawful, slice-EmptyIsZero,
}
use atomix_operator.V1alpha1.Json.Fields.{struct_codec, field, omitempty}
use atomix_operator.V1alpha1.Json.Fields.Laws.{
  LawfulFields, field-LawfulFields, omitempty-LawfulFields, both-LawfulFields,
  of_record-LawfulFields, struct-Lawful, struct-IsNotNull,
}
use atomix_operator.V1alpha1.Json.Tags.{
  VendoredJson, raft_fields, primary_backup_fields, log_fields, storage_fields,
}
use atomix_operator.V1alpha1.Json.Structs.{
  string_field, int_field, struct_field, pointer_field, storage-LawfulFields, raft-LawfulFields,
  primary_backup-LawfulFields, log-LawfulFields, IsGoodRaft, IsGoodLog,
}
use atomix_operator.V1alpha1.Json.Resources.{
  ClusterSpec, GroupSpec, BenchmarkSpec, make_cluster_spec, split_cluster_spec, make_group_spec,
  split_group_spec, make_benchmark_spec, split_benchmark_spec, cluster_spec_fields,
  group_spec_fields, benchmark_spec_fields,
}

-- What the vendored structs are relied on for: some values of them are read back, and `omitempty`
-- leaves out none that is not the zero value.
pub record LawfulJson {N : Numbers} (V : VendoredJson N) : Type 1 where
  pub IsGoodEnvVar : V.EnvVar → Type 0
  pub IsGoodResources : V.ResourceRequirements → Type 0
  pub IsGoodMeta : V.ObjectMeta → Type 0
  pub env_var-Lawful : Lawful V.env_var IsGoodEnvVar
  pub resources-Lawful : Lawful V.resource_requirements IsGoodResources
  pub resources-EmptyIsZero : EmptyIsZero V.resource_requirements IsGoodResources
  pub meta-Lawful : Lawful V.object_meta IsGoodMeta
  pub meta-EmptyIsZero : EmptyIsZero V.object_meta IsGoodMeta
  pub list_meta-Lawful : Lawful V.list_meta AnyValue
  pub list_meta-EmptyIsZero : EmptyIsZero V.list_meta AnyValue
  pub type_meta-LawfulFields : LawfulFields V.type_meta AnyValue
  pub type_meta_keys : V.type_meta.keys ≡ "kind" ∷ "apiVersion" ∷ []

module _ {N : Numbers} (L : LawfulNumbers N) {V : VendoredJson N} (J : LawfulJson V) where
  abbrev pub IsGoodClusterSpec : ClusterSpec V → Type 0
  IsGoodClusterSpec s =
      IsOfWidth 31 s.size × IsGoodSlice J.IsGoodEnvVar s.env × J.IsGoodResources s.resources

  abbrev pub IsGoodBenchmarkSpec : BenchmarkSpec V → Type 0
  IsGoodBenchmarkSpec s =
      IsOfWidth 31 s.workers × IsGoodSlice J.IsGoodEnvVar s.env × J.IsGoodResources s.resources

  abbrev pub IsGoodGroupSpec : GroupSpec V → Type 0
  IsGoodGroupSpec s =
      IsOfWidth 31 s.size
      × IsOfWidth 63 s.partitions
      × IsGoodSlice J.IsGoodEnvVar s.env
      × J.IsGoodResources s.resources
      × IsGoodPointer (IsGoodRaft N) s.raft
      × IsGoodPointer (IsGoodLog N) s.log

  env_field : LawfulFields (omitempty "env" (slice_codec V.env_var)) (IsGoodSlice J.IsGoodEnvVar)
  env_field =
      omitempty-LawfulFields "env" (slice_codec V.env_var) (IsGoodSlice J.IsGoodEnvVar)
        (slice-Lawful V.env_var J.IsGoodEnvVar J.env_var-Lawful)
        (slice-EmptyIsZero V.env_var J.IsGoodEnvVar)

  resources_field : LawfulFields (omitempty "resources" V.resource_requirements) J.IsGoodResources
  resources_field =
      omitempty-LawfulFields "resources" V.resource_requirements J.IsGoodResources
        J.resources-Lawful J.resources-EmptyIsZero

  pub cluster_spec-LawfulFields : LawfulFields (cluster_spec_fields V) IsGoodClusterSpec
  cluster_spec-LawfulFields =
      of_record-LawfulFields (make_cluster_spec V) (split_cluster_spec V) (λ s. refl) _
        (λ s good. (tt, (good.0, (good.1, (good.2, tt)))))
        (both-LawfulFields refl (string_field N "version") (
          both-LawfulFields refl (int_field N L 31 "size") (
            both-LawfulFields refl env_field (
              both-LawfulFields refl resources_field
                (struct_field "storage" storage_fields AnyValue (storage-LawfulFields N))))))

  pub benchmark_spec-LawfulFields : LawfulFields (benchmark_spec_fields V) IsGoodBenchmarkSpec
  benchmark_spec-LawfulFields =
      of_record-LawfulFields (make_benchmark_spec V) (split_benchmark_spec V) (λ s. refl) _
        (λ s good. (tt, (tt, (good.0, (good.1, good.2)))))
        (both-LawfulFields refl (string_field N "cluster") (
          both-LawfulFields refl (string_field N "version") (
            both-LawfulFields refl (int_field N L 31 "workers")
              (both-LawfulFields refl env_field resources_field))))

  any_primary_backup : (o : Option PrimaryBackupPartitionGroup) → IsGoodPointer AnyValue o
  any_primary_backup none = tt
  any_primary_backup (some x) = tt

  log_field :
      LawfulFields
        (field {N = N} "log:omitempty" (pointer_codec (struct_codec log_fields)))
        (IsGoodPointer (IsGoodLog N))
  log_field =
      field-LawfulFields "log:omitempty" (pointer_codec (struct_codec log_fields))
        (IsGoodPointer (IsGoodLog N))
        (pointer-Lawful (struct_codec log_fields) (IsGoodLog N)
          (struct-Lawful log_fields (IsGoodLog N) (log-LawfulFields N L))
          (struct-IsNotNull log_fields))

  pub group_spec-LawfulFields : LawfulFields (group_spec_fields V) IsGoodGroupSpec
  group_spec-LawfulFields =
      of_record-LawfulFields (make_group_spec V) (split_group_spec V) (λ s. refl) IsGoodGroupSpec
        (λ s good. (
          tt,
          (
            tt,
            (
              good.0,
              (good.1, (good.2, (good.3, (good.4, (any_primary_backup s.primary_backup, good.5))))),
            ),
          ),
        ))
        (both-LawfulFields refl (string_field N "cluster") (
          both-LawfulFields refl (string_field N "version") (
            both-LawfulFields refl (int_field N L 31 "size") (
              both-LawfulFields refl (int_field N L 63 "partitions") (
                both-LawfulFields refl env_field (
                  both-LawfulFields refl resources_field (
                    both-LawfulFields refl
                      (pointer_field "raft" raft_fields (IsGoodRaft N) (raft-LawfulFields N L))
                      (both-LawfulFields refl
                        (pointer_field "primaryBackup" primary_backup_fields AnyValue
                          (primary_backup-LawfulFields N))
                        log_field))))))))
