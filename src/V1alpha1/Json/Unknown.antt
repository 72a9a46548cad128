-- ===== src/V1alpha1/Json/Unknown.antt =====
-- Members under keys that no tag has are not read.
use atomix_operator.Base.{
  ◌≡◌, refl, sym, subst, ap, String, some, List, [], ◌∷◌, ok, bind, All-append_left,
  All-append_right,
}
use atomix_operator.V1alpha1.Json.{Numbers, Json, object, Members}
use atomix_operator.V1alpha1.Json.Codecs.{
  Codec, string_codec, int_codec, slice_codec, pointer_codec,
}
use atomix_operator.V1alpha1.Json.Fields.{
  Fields, of_members, lookup, read_found, field, omitempty, ◌⊗◌, of_record, struct_codec,
}
use atomix_operator.V1alpha1.Json.Fields.Keys.{Agree}
use atomix_operator.V1alpha1.Json.Tags.{
  VendoredJson, storage_fields, raft_fields, primary_backup_fields, log_fields,
}
use atomix_operator.V1alpha1.Json.Resources.{
  make_cluster_spec, split_cluster_spec, make_group_spec, split_group_spec, make_benchmark_spec,
  split_benchmark_spec, cluster_spec_fields, group_spec_fields, benchmark_spec_fields,
  resource_fields, cluster_codec, group_codec, benchmark_codec,
}

module _ {N : Numbers} where
  -- Fields that are read alike from any members that agree under the keys of the fields.
  pub record IsLocal {A : Type 0} (p : Fields N A) : Type 0 where
    pub alike : (ms ns : List (String × Json N)) → Agree p.keys ms ns → p.read ms ≡ p.read ns

  module _ {A : Type 0} (key : String) (c : Codec N A) where
    pub omitempty-IsLocal : IsLocal (omitempty key c)
    omitempty-IsLocal = record { alike = λ ms ns agree. ap (read_found key c) agree.0 }

    field-IsLocal : IsLocal (field key c)
    field-IsLocal = record { alike = λ ms ns agree. ap (read_found key c) agree.0 }

  pub both-IsLocal :
      {A B : Type 0} {p : Fields N A} {q : Fields N B} → IsLocal p → IsLocal q → IsLocal (p ⊗ q)
  both-IsLocal {p = p} {q = q} l m = record {
    alike = λ ms ns agree.
        rw (l.alike ms ns (All-append_left (λ k. lookup k ms ≡ lookup k ns) p.keys q.keys agree)) (
          rw (m.alike ms ns (All-append_right (λ k. lookup k ms ≡ lookup k ns) p.keys q.keys agree))
            refl);
  }

  pub of_record-IsLocal :
      {A B : Type 0} (make : A → B) (parts : B → A) {p : Fields N A}
      → IsLocal p
      → IsLocal (of_record p make parts)
  of_record-IsLocal make parts l = record {
    alike = λ ms ns agree. ap (λ r. bind r λ a. ok (make a)) (l.alike ms ns agree);
  }

module _ {N : Numbers} (V : VendoredJson N) where
  env_and_resources-IsLocal :
      IsLocal
        (omitempty "env" (slice_codec V.env_var) ⊗ omitempty "resources" V.resource_requirements)
  env_and_resources-IsLocal =
      both-IsLocal (omitempty-IsLocal "env" (slice_codec V.env_var))
        (omitempty-IsLocal "resources" V.resource_requirements)

  cluster_spec-IsLocal : IsLocal (cluster_spec_fields V)
  cluster_spec-IsLocal = of_record-IsLocal (make_cluster_spec V) (split_cluster_spec V) (
      both-IsLocal (omitempty-IsLocal "version" string_codec) (
        both-IsLocal (omitempty-IsLocal "size" (int_codec 31)) (
          both-IsLocal (omitempty-IsLocal "env" (slice_codec V.env_var)) (
            both-IsLocal (omitempty-IsLocal "resources" V.resource_requirements)
              (omitempty-IsLocal "storage" (struct_codec storage_fields))))))

  benchmark_spec-IsLocal : IsLocal (benchmark_spec_fields V)
  benchmark_spec-IsLocal = of_record-IsLocal (make_benchmark_spec V) (split_benchmark_spec V) (
      both-IsLocal (omitempty-IsLocal "cluster" string_codec) (
        both-IsLocal (omitempty-IsLocal "version" string_codec)
          (both-IsLocal (omitempty-IsLocal "workers" (int_codec 31)) env_and_resources-IsLocal)))

  group_spec-IsLocal : IsLocal (group_spec_fields V)
  group_spec-IsLocal = of_record-IsLocal (make_group_spec V) (split_group_spec V) (
      both-IsLocal (omitempty-IsLocal "cluster" string_codec) (
        both-IsLocal (omitempty-IsLocal "version" string_codec) (
          both-IsLocal (omitempty-IsLocal "size" (int_codec 31)) (
            both-IsLocal (omitempty-IsLocal "partitions" (int_codec 63)) (
              both-IsLocal (omitempty-IsLocal "env" (slice_codec V.env_var)) (
                both-IsLocal (omitempty-IsLocal "resources" V.resource_requirements) (
                  both-IsLocal (omitempty-IsLocal "raft" (pointer_codec (struct_codec raft_fields)))
                    (both-IsLocal
                      (omitempty-IsLocal "primaryBackup"
                        (pointer_codec (struct_codec primary_backup_fields)))
                      (field-IsLocal "log:omitempty"
                        (pointer_codec (struct_codec log_fields)))))))))))

  -- The documents of two resources agree: they have the same under the keys of a resource, and
  -- objects as their specifications that have the same under these keys.
  abbrev pub SameKnown : List String → Members N → Members N → Type 0
  SameKnown spec_keys ms ns =
      Agree ("kind" ∷ "apiVersion" ∷ "metadata" ∷ "status" ∷ []) (of_members ms) (of_members ns)
      × ((ss : Members N) × (ts : Members N) × (lookup "spec" (of_members ms) ≡ some (object ss))
          × (lookup "spec" (of_members ns) ≡ some (object ts))
          × Agree spec_keys (of_members ss) (of_members ts))

  -- TypeMeta reads what is under these two keys, as its tags say, and nothing else.
  pub record KnownTypeMeta : Type 0 where
    pub keys_lem : V.type_meta.keys ≡ "kind" ∷ "apiVersion" ∷ []
    pub local : IsLocal V.type_meta

  module _ {Spec : Type 0} (p : Fields N Spec) (types : KnownTypeMeta) where
    same_read :
        IsLocal p
        → (ms ns : Members N) → SameKnown p.keys ms ns
        → (struct_codec (resource_fields V p)).decode (object ms)
          ≡ (struct_codec (resource_fields V p)).decode (object ns)
    same_read l ms ns ((kind, (version, rest)), (ss, ts, at, at', same)) =
        let known = types.local.alike (of_members ms) (of_members ns) (
          subst (λ keys. Agree keys (of_members ms) (of_members ns)) (sym types.keys_lem)
            (kind, (version, tt))) in
        rw known (
          rw rest.0
            (rw rest.1.0 (rw at (rw at' (rw (l.alike (of_members ss) (of_members ts) same) refl)))))

  -- Two documents of an AtomixCluster are read alike, to the same cluster or the same error, if they
  -- have the same under `kind`, `apiVersion`, `metadata` and `status`, and objects under `spec` that
  -- have the same under `version`, `size`, `env`, `resources` and `storage`: what else is in them is
  -- not read. The same holds of a PartitionGroup with `cluster`, `version`, `size`, `partitions`,
  -- `env`, `resources`, `raft`, `primaryBackup` and `log:omitempty`, and of an AtomixBenchmark with
  -- `cluster`, `version`, `workers`, `env` and `resources`.
  pub unknown_members_ignored :
      (types : KnownTypeMeta) (c c' g g' b b' : Members N)
      → SameKnown ("version" ∷ "size" ∷ "env" ∷ "resources" ∷ "storage" ∷ []) c c'
      → SameKnown
          ("cluster" ∷ "version" ∷ "size" ∷ "partitions" ∷ "env" ∷ "resources" ∷ "raft"
            ∷ "primaryBackup" ∷ "log:omitempty" ∷ [])
          g
          g'
      → SameKnown ("cluster" ∷ "version" ∷ "workers" ∷ "env" ∷ "resources" ∷ []) b b'
      → ((cluster_codec V).decode (object c) ≡ (cluster_codec V).decode (object c'))
        × ((group_codec V).decode (object g) ≡ (group_codec V).decode (object g'))
        × ((benchmark_codec V).decode (object b) ≡ (benchmark_codec V).decode (object b'))
  unknown_members_ignored types c c' g g' b b' clusters groups benchmarks = (
    same_read (cluster_spec_fields V) types cluster_spec-IsLocal c c' clusters,
    same_read (group_spec_fields V) types group_spec-IsLocal g g' groups,
    same_read (benchmark_spec_fields V) types benchmark_spec-IsLocal b b' benchmarks,
  )
