-- ===== src/V1alpha1/DeepCopy/Values.antt =====
-- What pointers to the resources and their lists, and objects, stand for.
use atomix_operator.Base.{◌≡◌, refl, String, Option, none, some, List, arith}
use atomix_operator.V1alpha1.Types.{PrimaryBackupPartitionGroup}
use atomix_operator.V1alpha1.DeepCopy.Structs.{
  RaftPartitionGroupOf, LogPartitionGroupOf, ClusterSpecOf, PartitionGroupSpecOf, BenchmarkSpecOf,
  ResourceOf, ResourceListOf,
}
use atomix_operator.V1alpha1.DeepCopy.Heap.{Vendored, Addr, Heap}
use atomix_operator.V1alpha1.DeepCopy.Cells.{
  cluster_type, clusters_type, group_type, groups_type, benchmark_type, benchmarks_type, list_type,
}
use atomix_operator.V1alpha1.DeepCopy.Objects.{
  ObjectType, Object, cluster_object, group_object, benchmark_object, cluster_list_object,
  group_list_object, benchmark_list_object, as_object,
}
use atomix_operator.V1alpha1.DeepCopy.Represents.{Same, Representation}
use atomix_operator.V1alpha1.DeepCopy.Pointers.{pointer}
use atomix_operator.V1alpha1.DeepCopy.Vendored.{VendoredValues}
use atomix_operator.V1alpha1.DeepCopy.Specs.{cluster_spec, group_spec, benchmark_spec}
use atomix_operator.V1alpha1.DeepCopy.Resources.{resource, resource_list}

module _ {V : Vendored} (W : VendoredValues V) where
  abbrev pub ClusterValue : Type 0
  ClusterValue =
      ResourceOf W.ObjectMeta (ClusterSpecOf String (List W.EnvVar) W.ResourceRequirements)

  abbrev pub GroupValue : Type 0
  GroupValue = ResourceOf W.ObjectMeta (
      PartitionGroupSpecOf (List W.EnvVar) W.ResourceRequirements (RaftPartitionGroupOf String)
        PrimaryBackupPartitionGroup (LogPartitionGroupOf String))

  abbrev pub BenchmarkValue : Type 0
  BenchmarkValue = ResourceOf W.ObjectMeta (BenchmarkSpecOf (List W.EnvVar) W.ResourceRequirements)

  abbrev pub ValueOf : ObjectType → Type 0
  ValueOf cluster_object = ClusterValue
  ValueOf group_object = GroupValue
  ValueOf benchmark_object = BenchmarkValue
  ValueOf cluster_list_object = ResourceListOf (List ClusterValue)
  ValueOf group_list_object = ResourceListOf (List GroupValue)
  ValueOf benchmark_list_object = ResourceListOf (List BenchmarkValue)

  -- What a pointer to an object of a type stands for; nil for none.
  abbrev pub pointed : (k : ObjectType) → Representation V (Option Addr) (Option (ValueOf k))
  pointed cluster_object = pointer cluster_type (resource W.object_meta (cluster_spec W))
  pointed group_object = pointer group_type (resource W.object_meta (group_spec W))
  pointed benchmark_object = pointer benchmark_type (resource W.object_meta (benchmark_spec W))
  pointed cluster_list_object =
      pointer list_type (resource_list clusters_type (resource W.object_meta (cluster_spec W)))
  pointed group_list_object =
      pointer list_type (resource_list groups_type (resource W.object_meta (group_spec W)))
  pointed benchmark_list_object =
      pointer list_type (resource_list benchmarks_type (resource W.object_meta (benchmark_spec W)))

  -- An interface value that is nil stands for none; any other has the type and a pointer.
  abbrev pub IsObject :
      (k : ObjectType) → Heap V → Addr → Addr → Object → Option (ValueOf k) → Type 0
  IsObject k h lo hi none w = w ≡ none
  IsObject k h lo hi (some (j, p)) w = (j ≡ k) × (pointed k).Is h lo hi (some p) w

module _ {V : Vendored} (W : VendoredValues V) (h : Heap V) (lo hi : Addr) where
  pointed-none :
      (k : ObjectType) (w : Option (ValueOf W k)) → (pointed W k).Is h lo hi none w → w ≡ none
  pointed-none cluster_object none is = refl
  pointed-none cluster_object (some w) is = elim is [ ]
  pointed-none group_object none is = refl
  pointed-none group_object (some w) is = elim is [ ]
  pointed-none benchmark_object none is = refl
  pointed-none benchmark_object (some w) is = elim is [ ]
  pointed-none cluster_list_object none is = refl
  pointed-none cluster_list_object (some w) is = elim is [ ]
  pointed-none group_list_object none is = refl
  pointed-none group_list_object (some w) is = elim is [ ]
  pointed-none benchmark_list_object none is = refl
  pointed-none benchmark_list_object (some w) is = elim is [ ]

  pub as_object-IsObject :
      (k : ObjectType) (p : Option Addr) (w : Option (ValueOf W k))
      → (pointed W k).Is h lo hi p w
      → IsObject W k h lo hi (as_object k p) w
  as_object-IsObject k none w is = pointed-none k w is
  as_object-IsObject k (some p) w is = (refl, is)

  -- An object does not hang on other cells.
  pub IsObject-frame :
      (k : ObjectType) (g : Heap V) (o : Object) (w : Option (ValueOf W k))
      → Same lo hi h g
      → IsObject W k h lo hi o w
      → IsObject W k g lo hi o w
  IsObject-frame k g none w same is = is
  IsObject-frame k g (some (j, p)) w same (e, is) =
      (e, (pointed W k).frame h g lo hi lo hi (some p) w (omega arith) (omega arith) same is)
