-- ===== src/V1alpha1/Json/Resources.antt =====
-- The struct tags of the three resources and of their lists.
use atomix_operator.Base.{ℤ, String, Option, List}
use atomix_operator.V1alpha1.Types.{PrimaryBackupPartitionGroup}
use atomix_operator.V1alpha1.DeepCopy.Structs.{
  TypeMeta, ListMeta, Status, StorageOf, RaftPartitionGroupOf, LogPartitionGroupOf, ClusterSpecOf,
  PartitionGroupSpecOf, BenchmarkSpecOf, ResourceOf, ResourceListOf,
}
use atomix_operator.V1alpha1.Json.{Numbers}
use atomix_operator.V1alpha1.Json.Codecs.{
  Codec, string_codec, int_codec, pointer_codec, slice_codec,
}
use atomix_operator.V1alpha1.Json.Fields.{Fields, field, omitempty, ◌⊗◌, of_record, struct_codec}
use atomix_operator.V1alpha1.Json.Tags.{
  VendoredJson, storage_fields, raft_fields, primary_backup_fields, log_fields, status_fields,
}

abbrev pub make_resource :
    {Meta Spec : Type 0} → TypeMeta × (Meta × (Spec × Status)) → ResourceOf Meta Spec
make_resource (type_meta, (metadata, (spec, status))) = record {
  type_meta = type_meta;
  metadata = metadata;
  spec = spec;
  status = status;
}

abbrev pub split_resource :
    {Meta Spec : Type 0} → ResourceOf Meta Spec → TypeMeta × (Meta × (Spec × Status))
split_resource x = (x.type_meta, (x.metadata, (x.spec, x.status)))

abbrev pub make_list : {I : Type 0} → TypeMeta × (ListMeta × Option I) → ResourceListOf I
make_list (type_meta, (list_meta, items)) = record {
  type_meta = type_meta;
  list_meta = list_meta;
  items = items;
}

abbrev pub split_list : {I : Type 0} → ResourceListOf I → TypeMeta × (ListMeta × Option I)
split_list x = (x.type_meta, (x.list_meta, x.items))

module _ {N : Numbers} (V : VendoredJson N) where
  abbrev pub ClusterSpec : Type 0
  ClusterSpec = ClusterSpecOf String (List V.EnvVar) V.ResourceRequirements

  abbrev pub GroupSpec : Type 0
  GroupSpec =
      PartitionGroupSpecOf (List V.EnvVar) V.ResourceRequirements (RaftPartitionGroupOf String)
        PrimaryBackupPartitionGroup (LogPartitionGroupOf String)

  abbrev pub BenchmarkSpec : Type 0
  BenchmarkSpec = BenchmarkSpecOf (List V.EnvVar) V.ResourceRequirements

  abbrev pub make_cluster_spec :
      String × (ℤ × (Option (List V.EnvVar) × (V.ResourceRequirements × (StorageOf String))))
      → ClusterSpec
  make_cluster_spec (version, (size, (env, (resources, storage)))) = record {
    version = version;
    size = size;
    env = env;
    resources = resources;
    storage = storage;
  }

  abbrev pub split_cluster_spec :
      ClusterSpec
      → String × (ℤ × (Option (List V.EnvVar) × (V.ResourceRequirements × (StorageOf String))))
  split_cluster_spec x = (x.version, (x.size, (x.env, (x.resources, x.storage))))

  abbrev pub cluster_spec_fields : Fields N ClusterSpec
  cluster_spec_fields =
      of_record
        (omitempty "version" string_codec
          ⊗ omitempty "size" (int_codec 31)
          ⊗ omitempty "env" (slice_codec V.env_var)
          ⊗ omitempty "resources" V.resource_requirements
          ⊗ omitempty "storage" (struct_codec storage_fields))
        make_cluster_spec split_cluster_spec

  abbrev pub make_group_spec :
      String
        × (String
            × (ℤ
                × (ℤ
                    × (Option (List V.EnvVar)
                        × (V.ResourceRequirements
                            × (Option (RaftPartitionGroupOf String)
                                × (Option PrimaryBackupPartitionGroup
                                    × (Option (LogPartitionGroupOf String)))))))))
      → GroupSpec
  make_group_spec
        (
          cluster,
          (version, (size, (partitions, (env, (resources, (raft, (primary_backup, log))))))),
        ) =
      record {
        cluster = cluster;
        version = version;
        size = size;
        partitions = partitions;
        env = env;
        resources = resources;
        raft = raft;
        primary_backup = primary_backup;
        log = log;
      }

  abbrev pub split_group_spec :
      GroupSpec
      → String
        × (String
            × (ℤ
                × (ℤ
                    × (Option (List V.EnvVar)
                        × (V.ResourceRequirements
                            × (Option (RaftPartitionGroupOf String)
                                × (Option PrimaryBackupPartitionGroup
                                    × (Option (LogPartitionGroupOf String)))))))))
  split_group_spec x = (
    x.cluster,
    (
      x.version,
      (x.size, (x.partitions, (x.env, (x.resources, (x.raft, (x.primary_backup, x.log)))))),
    ),
  )

  -- The tag of `Log` has a colon where the others have a comma, so that all of it is the key.
  abbrev pub group_spec_fields : Fields N GroupSpec
  group_spec_fields =
      of_record
        (omitempty "cluster" string_codec
          ⊗ omitempty "version" string_codec
          ⊗ omitempty "size" (int_codec 31)
          ⊗ omitempty "partitions" (int_codec 63)
          ⊗ omitempty "env" (slice_codec V.env_var)
          ⊗ omitempty "resources" V.resource_requirements
          ⊗ omitempty "raft" (pointer_codec (struct_codec raft_fields))
          ⊗ omitempty "primaryBackup" (pointer_codec (struct_codec primary_backup_fields))
          ⊗ field "log:omitempty" (pointer_codec (struct_codec log_fields)))
        make_group_spec split_group_spec

  abbrev pub make_benchmark_spec :
      String × (String × (ℤ × (Option (List V.EnvVar) × (V.ResourceRequirements)))) → BenchmarkSpec
  make_benchmark_spec (cluster, (version, (workers, (env, resources)))) = record {
    cluster = cluster;
    version = version;
    workers = workers;
    env = env;
    resources = resources;
  }

  abbrev pub split_benchmark_spec :
      BenchmarkSpec → String × (String × (ℤ × (Option (List V.EnvVar) × (V.ResourceRequirements))))
  split_benchmark_spec x = (x.cluster, (x.version, (x.workers, (x.env, x.resources))))

  abbrev pub benchmark_spec_fields : Fields N BenchmarkSpec
  benchmark_spec_fields =
      of_record
        (omitempty "cluster" string_codec
          ⊗ omitempty "version" string_codec
          ⊗ omitempty "workers" (int_codec 31)
          ⊗ omitempty "env" (slice_codec V.env_var)
          ⊗ omitempty "resources" V.resource_requirements)
        make_benchmark_spec split_benchmark_spec

  -- AtomixCluster, PartitionGroup and AtomixBenchmark have the same tags.
  abbrev pub resource_fields :
      {Spec : Type 0} → Fields N Spec → Fields N (ResourceOf V.ObjectMeta Spec)
  resource_fields spec_fields =
      of_record
        (V.type_meta
          ⊗ omitempty "metadata" V.object_meta
          ⊗ omitempty "spec" (struct_codec spec_fields)
          ⊗ omitempty "status" (struct_codec status_fields))
        make_resource split_resource

  -- Their lists, too.
  abbrev pub list_fields : {A : Type 0} → Codec N A → Fields N (ResourceListOf (List A))
  list_fields c =
      of_record (V.type_meta ⊗ omitempty "metadata" V.list_meta ⊗ field "items" (slice_codec c))
        make_list split_list

  abbrev pub cluster_codec : Codec N (ResourceOf V.ObjectMeta ClusterSpec)
  cluster_codec = struct_codec (resource_fields cluster_spec_fields)

  abbrev pub group_codec : Codec N (ResourceOf V.ObjectMeta GroupSpec)
  group_codec = struct_codec (resource_fields group_spec_fields)

  abbrev pub benchmark_codec : Codec N (ResourceOf V.ObjectMeta BenchmarkSpec)
  benchmark_codec = struct_codec (resource_fields benchmark_spec_fields)

  abbrev pub cluster_list_codec :
      Codec N (ResourceListOf (List (ResourceOf V.ObjectMeta ClusterSpec)))
  cluster_list_codec = struct_codec (list_fields cluster_codec)

  abbrev pub group_list_codec : Codec N (ResourceListOf (List (ResourceOf V.ObjectMeta GroupSpec)))
  group_list_codec = struct_codec (list_fields group_codec)

  abbrev pub benchmark_list_codec :
      Codec N (ResourceListOf (List (ResourceOf V.ObjectMeta BenchmarkSpec)))
  benchmark_list_codec = struct_codec (list_fields benchmark_codec)
