-- ===== src/Tests/Documents.antt =====
-- Resources and documents, over the literals and the structs of Tests/Literals.antt.
use atomix_operator.Base.{pos, String, true, false, none, some, List, [], ◌∷◌}
use atomix_operator.V1alpha1.DeepCopy.Structs.{
  StorageOf, PersistentPartitionGroupOf, ResourceOf, ResourceListOf,
}
use atomix_operator.V1alpha1.Json.{Json, number, text, array, object, nil, Members, end, member}
use atomix_operator.V1alpha1.Json.Resources.{ClusterSpec, GroupSpec, BenchmarkSpec}
use atomix_operator.Tests.Literals.{literals, integer, vendored}

abbrev storage : StorageOf String
storage = record {
  size = "2Gi";
  class_name = some "standard";
  segment_size = "";
  entry_size = "";
  level = "disk";
  flush_on_commit = true;
}

-- 0.2 and nothing.
abbrev persistent : PersistentPartitionGroupOf String
persistent = record {
  storage = storage;
  compaction = record { dynamic = true; free_disk_buffer = 0x3e4ccccd; free_memory_buffer = 0 };
}

module _ {Spec : Type 0} where
  abbrev resource : String → Spec → ResourceOf (String × String) Spec
  resource kind spec = record {
    type_meta = record { kind = kind; api_version = "agent.atomix.io/v1alpha1" };
    metadata = ("example", "default");
    spec = spec;
    status = record { service_name = "" };
  }

abbrev pub a_cluster : ResourceOf (String × String) (ClusterSpec vendored)
a_cluster = resource "AtomixCluster" (record {
  version = "latest";
  size = pos 3;
  env = some (("A", "1") ∷ []);
  resources = "";
  storage = storage;
})

abbrev pub a_group : ResourceOf (String × String) (GroupSpec vendored)
a_group = resource "PartitionGroup" (record {
  cluster = "example";
  version = "";
  size = pos 4;
  partitions = pos 7;
  env = none;
  resources = "";
  raft = none;
  primary_backup = none;
  log = some (record { persistent = persistent; member_group_strategy = "node_aware" });
})

abbrev pub a_benchmark : ResourceOf (String × String) (BenchmarkSpec vendored)
a_benchmark =
    resource "AtomixBenchmark"
      (record { cluster = "example"; version = ""; workers = pos 2; env = none; resources = "1" })

module _ {A : Type 0} where
  abbrev pub list_of : A → ResourceListOf (List A)
  list_of x = record {
    type_meta = record { kind = "List"; api_version = "agent.atomix.io/v1alpha1" };
    list_meta = record { self_link = ""; resource_version = "8"; continue_token = "" };
    items = some (x ∷ []);
  }

-- As a user might write them: a cluster of three nodes, and a group with a section under `log`.
abbrev written_meta : Json literals
written_meta = object (member "name" (text "example") (member "namespace" (text "default") end))

abbrev pub cluster_document : Json literals
cluster_document = object (
    member "metadata" written_meta
      (member "spec" (object (member "size" (number (integer (pos 3))) end)) end))

abbrev pub log_spec_document : Members literals
log_spec_document = member "cluster" (text "example") (
    member "size" (number (integer (pos 4)))
      (member "log" (object (member "memberGroupStrategy" (text "node_aware") end)) end))

abbrev pub log_document : Members literals
log_document = member "metadata" written_meta (member "spec" (object log_spec_document) end)

abbrev no_storage : StorageOf String
no_storage = record {
  size = "";
  class_name = none;
  segment_size = "";
  entry_size = "";
  level = "";
  flush_on_commit = false;
}

-- What the two documents are read as.
module _ {Spec : Type 0} where
  abbrev read_as : Spec → ResourceOf (String × String) Spec
  read_as spec = record {
    type_meta = record { kind = ""; api_version = "" };
    metadata = ("example", "default");
    spec = spec;
    status = record { service_name = "" };
  }

abbrev pub read_cluster : ResourceOf (String × String) (ClusterSpec vendored)
read_cluster =
    read_as
      (record { version = ""; size = pos 3; env = none; resources = ""; storage = no_storage })

abbrev pub read_group : ResourceOf (String × String) (GroupSpec vendored)
read_group = read_as (record {
  cluster = "example";
  version = "";
  size = pos 4;
  partitions = pos 0;
  env = none;
  resources = "";
  raft = none;
  primary_backup = none;
  log = none;
})

-- A cluster as the README of the repository writes it, and what is left without the keys that no
-- tag has.
abbrev pub readme_document : Members literals
readme_document = member "metadata" written_meta (
    member "spec"
      (object (
        member "version" (text "3.1.0") (
          member "managementGroup" (object (member "size" (number (integer (pos 1))) end))
            (member "partitionGroups" (array nil) end))))
      end)

abbrev pub readme_known : Members literals
readme_known =
    member "metadata" written_meta
      (member "spec" (object (member "version" (text "3.1.0") end)) end)

-- The document of the group without its section under `log`.
abbrev pub log_known : Members literals
log_known = member "metadata" written_meta (
    member "spec"
      (object (member "cluster" (text "example") (member "size" (number (integer (pos 4))) end)))
      end)
