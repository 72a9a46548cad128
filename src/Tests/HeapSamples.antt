-- ===== src/Tests/HeapSamples.antt =====
-- Vendored structs with pointers, their copies, and structs on the heap that hold little.
use atomix_operator.Base.{refl, pos, String, false, Option, none, some}
use atomix_operator.V1alpha1.DeepCopy.Structs.{
  StorageOf, RaftPartitionGroupOf, ResourceOf, ResourceListOf, PartitionGroupSpecOf,
}
use atomix_operator.V1alpha1.DeepCopy.Heap.{Vendored, Addr, pure, ◌>>=◌}
use atomix_operator.V1alpha1.DeepCopy.Cells.{kept_type}
use atomix_operator.V1alpha1.DeepCopy.Into.{VendoredCopies, deep_copy}
use atomix_operator.V1alpha1.DeepCopy.Represents.{Representation, plain, plain-Copies}
use atomix_operator.V1alpha1.DeepCopy.Pointers.{pointer, deep_copy-Copies}
use atomix_operator.V1alpha1.DeepCopy.Fields.{with_field, with_field-Copies}
use atomix_operator.V1alpha1.DeepCopy.Vendored.{VendoredValues, LawfulCopies}

-- An environment variable is a name and a pointer to its source, the other structs have no pointers.
abbrev pub vendored : Vendored
vendored = record {
  EnvVar = String × Option Addr;
  ResourceRequirements = Unit {0};
  ObjectMeta = String;
  Kept = String;
}

abbrev pub source : Representation vendored (Option Addr) (Option String)
source = pointer kept_type (plain String)

abbrev pub source_of : {A : Type 0} → String × A → A
source_of x = x.1

abbrev pub name_of : {A : Type 0} → String × A → String
name_of x = x.0

abbrev pub copies : VendoredCopies vendored
copies = record {
  env_var_deep_copy_into = λ x. deep_copy kept_type pure (source_of x) >>= λ p. pure (name_of x, p);
  resource_requirements_deep_copy_into = pure;
  object_meta_deep_copy_into = pure;
}

abbrev pub values : VendoredValues vendored
values = record {
  EnvVar = String × Option String;
  ResourceRequirements = Unit {0};
  ObjectMeta = String;
  env_var = with_field source source_of source_of name_of name_of;
  resource_requirements = plain (Unit {0});
  object_meta = plain String;
}

pub lawful : LawfulCopies copies values
lawful = record {
  env_var-Copies =
      with_field-Copies source source_of source_of name_of name_of (λ x p. (name_of x, p))
        (deep_copy kept_type pure) (λ x p. refl) (λ x p. refl)
        (deep_copy-Copies kept_type (plain String) pure plain-Copies);
  resource_requirements-Copies = plain-Copies;
  object_meta-Copies = plain-Copies;
}

abbrev pub storage_with : {S : Type 0} → S → StorageOf S
storage_with s = record {
  size = "2G";
  class_name = some s;
  segment_size = "64M";
  entry_size = "1K";
  level = "mapped";
  flush_on_commit = false;
}

abbrev pub raft_with : {S : Type 0} → S → RaftPartitionGroupOf S
raft_with s = record {
  persistent = record {
    storage = storage_with s;
    compaction = record { dynamic = false; free_disk_buffer = 0; free_memory_buffer = 0 };
  };
  partition_size = pos 3;
}

abbrev pub group_with :
    {E R B L : Type 0} → E → R → ResourceOf String (PartitionGroupSpecOf E (Unit {0}) R B L)
group_with env raft = record {
  type_meta = record { kind = "PartitionGroup"; api_version = "agent.atomix.io/v1alpha1" };
  metadata = "values";
  spec = record {
    cluster = "example";
    version = "3.1.0";
    size = pos 3;
    partitions = pos 7;
    env = some env;
    resources = tt;
    raft = some raft;
    primary_backup = none;
    log = none;
  };
  status = record { service_name = "" };
}

abbrev pub list_with : {I : Type 0} → I → ResourceListOf I
list_with items = record {
  type_meta = record { kind = "PartitionGroupList"; api_version = "agent.atomix.io/v1alpha1" };
  list_meta = record { self_link = ""; resource_version = "7"; continue_token = "" };
  items = some items;
}
