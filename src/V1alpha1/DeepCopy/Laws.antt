-- ===== src/V1alpha1/DeepCopy/Laws.antt =====
-- DeepCopyObject of the six types: an equal object that shares no memory with the original.
use atomix_operator.Base.{◌≡◌, refl, sym, subst, ◌∙◌, Option, some, arith}
use mathlib.Core.Option.{some-injective}
use atomix_operator.V1alpha1.DeepCopy.Heap.{Vendored, Addr, Heap, M, pure, ◌>>=◌}
use atomix_operator.V1alpha1.DeepCopy.Cells.{
  cluster_type, clusters_type, group_type, groups_type, benchmark_type, benchmarks_type, list_type,
}
use atomix_operator.V1alpha1.DeepCopy.Into.{
  VendoredCopies, cluster_spec_deep_copy_into, partition_group_spec_deep_copy_into,
  atomix_benchmark_spec_deep_copy_into, atomix_cluster_deep_copy_into,
  partition_group_deep_copy_into, atomix_benchmark_deep_copy_into,
  atomix_cluster_list_deep_copy_into, partition_group_list_deep_copy_into,
  atomix_benchmark_list_deep_copy_into,
}
use atomix_operator.V1alpha1.DeepCopy.Objects.{
  ObjectType, Object, cluster_object, group_object, benchmark_object, cluster_list_object,
  group_list_object, benchmark_list_object, as_object, deep_copy_object, atomix_cluster_deep_copy,
  partition_group_deep_copy, atomix_benchmark_deep_copy, atomix_cluster_list_deep_copy,
  partition_group_list_deep_copy, atomix_benchmark_list_deep_copy,
}
use atomix_operator.V1alpha1.DeepCopy.Represents.{Same, same-trans, Copies}
use atomix_operator.V1alpha1.DeepCopy.Pointers.{deep_copy-Copies}
use atomix_operator.V1alpha1.DeepCopy.Vendored.{VendoredValues, LawfulCopies}
use atomix_operator.V1alpha1.DeepCopy.Specs.{cluster_spec, group_spec, benchmark_spec}
use atomix_operator.V1alpha1.DeepCopy.SpecCopies.{
  cluster_spec-Copies, group_spec-Copies, benchmark_spec-Copies,
}
use atomix_operator.V1alpha1.DeepCopy.Resources.{resource, resource-Copies, resource_list-Copies}
use atomix_operator.V1alpha1.DeepCopy.Values.{
  ValueOf, pointed, IsObject, as_object-IsObject, IsObject-frame,
}

abbrev deep_copy_at :
    {V : Vendored} (C : VendoredCopies V) (k : ObjectType) → Option Addr → M V (Option Addr)
deep_copy_at C cluster_object = atomix_cluster_deep_copy C
deep_copy_at C group_object = partition_group_deep_copy C
deep_copy_at C benchmark_object = atomix_benchmark_deep_copy C
deep_copy_at C cluster_list_object = atomix_cluster_list_deep_copy C
deep_copy_at C group_list_object = partition_group_list_deep_copy C
deep_copy_at C benchmark_list_object = atomix_benchmark_list_deep_copy C

module _ {V : Vendored} (C : VendoredCopies V) where
  deep_copy_object_at :
      (k : ObjectType) (p : Option Addr) (h : Heap V)
      → deep_copy_object C k p h ≡ ◌>>=◌ (deep_copy_at C k p) (λ c. pure (as_object k c)) h
  deep_copy_object_at cluster_object p h = refl
  deep_copy_object_at group_object p h = refl
  deep_copy_object_at benchmark_object p h = refl
  deep_copy_object_at cluster_list_object p h = refl
  deep_copy_object_at group_list_object p h = refl
  deep_copy_object_at benchmark_list_object p h = refl

module _ {V : Vendored} {C : VendoredCopies V} {W : VendoredValues V}
    (lawful : LawfulCopies C W) where
  cluster-Copies :
      Copies (resource W.object_meta (cluster_spec W)) (atomix_cluster_deep_copy_into C)
  cluster-Copies =
      resource-Copies W.object_meta (cluster_spec W) C.object_meta_deep_copy_into
        (cluster_spec_deep_copy_into C) lawful.object_meta-Copies (cluster_spec-Copies lawful)

  group-Copies : Copies (resource W.object_meta (group_spec W)) (partition_group_deep_copy_into C)
  group-Copies =
      resource-Copies W.object_meta (group_spec W) C.object_meta_deep_copy_into
        (partition_group_spec_deep_copy_into C) lawful.object_meta-Copies (group_spec-Copies lawful)

  benchmark-Copies :
      Copies (resource W.object_meta (benchmark_spec W)) (atomix_benchmark_deep_copy_into C)
  benchmark-Copies =
      resource-Copies W.object_meta (benchmark_spec W) C.object_meta_deep_copy_into
        (atomix_benchmark_spec_deep_copy_into C) lawful.object_meta-Copies
        (benchmark_spec-Copies lawful)

  pointed-Copies : (k : ObjectType) → Copies (pointed W k) (deep_copy_at C k)
  pointed-Copies cluster_object =
      deep_copy-Copies cluster_type _ (atomix_cluster_deep_copy_into C) cluster-Copies
  pointed-Copies group_object =
      deep_copy-Copies group_type _ (partition_group_deep_copy_into C) group-Copies
  pointed-Copies benchmark_object =
      deep_copy-Copies benchmark_type _ (atomix_benchmark_deep_copy_into C) benchmark-Copies
  pointed-Copies cluster_list_object =
      deep_copy-Copies list_type _ (atomix_cluster_list_deep_copy_into C)
        (resource_list-Copies clusters_type _ _ cluster-Copies)
  pointed-Copies group_list_object =
      deep_copy-Copies list_type _ (partition_group_list_deep_copy_into C)
        (resource_list-Copies groups_type _ _ group-Copies)
  pointed-Copies benchmark_list_object =
      deep_copy-Copies list_type _ (atomix_benchmark_list_deep_copy_into C)
        (resource_list-Copies benchmarks_type _ _ benchmark-Copies)

  -- If a pointer to an object of one of the six types, or nil, stands for a value, then DeepCopyObject
  -- ends without a fault, leaves every cell in use as it was, and gives an object of that type, nil
  -- for nil, that stands for the same value and reaches new cells only.
  pub deep_copy_object-copies :
      (k : ObjectType) (h : Heap V) (p : Option Addr) (w : Option (ValueOf W k))
      → (pointed W k).Is h 0 h.next p w
      → (g : Heap V) × (o : Object) × (deep_copy_object C k p h ≡ some (g, o))
        × Same 0 h.next h g
        × IsObject W k g h.next g.next o w
  deep_copy_object-copies k h p w is =
      let c = pointed-Copies k h h.next p w (omega arith) is in
      (
        c.heap,
        as_object k c.value,
        deep_copy_object_at C k p h ∙ rw c.returns refl,
        c.keeps,
        as_object-IsObject W c.heap h.next c.heap.next k c.value w c.is,
      )

  -- After DeepCopyObject the copy stands for the value whatever is then written to cells that were in
  -- use before, as those of the original are, and the original stands for it whatever is written to
  -- the copy's and other new cells.
  pub deep_copy_object-independent :
      (k : ObjectType) (h g f f' : Heap V) (p : Option Addr) (o : Object) (w : Option (ValueOf W k))
      → (pointed W k).Is h 0 h.next p w
      → deep_copy_object C k p h ≡ some (g, o)
      → Same h.next g.next g f
      → Same 0 h.next g f'
      → IsObject W k f h.next g.next o w × (pointed W k).Is f' 0 h.next p w
  deep_copy_object-independent k h g f f' p o w is ran above below =
      let (g', o', ran', keeps, copy) = deep_copy_object-copies k h p w is in
      let same = some-injective (g', o') (g, o) (sym ran' ∙ ran) in
      let kept_old = subst (λ (r : Heap V × Object). Same 0 h.next h r.0) same keeps in
      (
        IsObject-frame W g h.next g.next k f o w above
            (subst (λ (r : Heap V × Object). IsObject W k r.0 h.next r.0.next r.1 w) same copy),
        (pointed W k).frame h f' 0 h.next 0 h.next p w (omega arith) (omega arith)
            (same-trans h g f' kept_old below) is,
      )
