-- ===== src/V1alpha1/DeepCopy/Resources.antt =====
-- The resources and their lists: what they stand for, and that their copies are copies.
use atomix_operator.Base.{List, ◌≤◌, ◌≡◌, refl, arith}
use atomix_operator.V1alpha1.DeepCopy.Structs.{TypeMeta, ListMeta, ResourceOf, ResourceListOf}
use atomix_operator.V1alpha1.DeepCopy.Heap.{Vendored, Addr, Heap, CellType, M}
use atomix_operator.V1alpha1.DeepCopy.Into.{
  deep_copy, copy_elements, resource_deep_copy_into, list_deep_copy_into,
}
use atomix_operator.V1alpha1.DeepCopy.Represents.{
  Same, Representation, Copies, pure-Copied, then-Copied, kept,
}
use atomix_operator.V1alpha1.DeepCopy.Pointers.{
  pointer, deep_copy-Copies, elements, copy_elements-Copies,
}
use atomix_operator.V1alpha1.DeepCopy.Fields.{with_field, with_field-Copies}

module _ {V : Vendored} {Meta MetaValue Spec SpecValue : Type 0}
    (metas : Representation V Meta MetaValue) (specs : Representation V Spec SpecValue) where
  pub record IsResource (h : Heap V) (lo hi : Addr) (x : ResourceOf Meta Spec)
      (w : ResourceOf MetaValue SpecValue) : Type 0 where
    pub type_meta : x.type_meta ≡ w.type_meta
    pub status : x.status ≡ w.status
    pub metadata : (metas).Is h lo hi x.metadata w.metadata
    pub spec : (specs).Is h lo hi x.spec w.spec

  pub IsResource-frame :
      (h g : Heap V) (lo hi lo' hi' : Addr) (x : ResourceOf Meta Spec)
      (w : ResourceOf MetaValue SpecValue)
      → lo' ≤ lo
      → hi ≤ hi'
      → Same lo hi h g
      → IsResource h lo hi x w
      → IsResource g lo' hi' x w
  IsResource-frame h g lo hi lo' hi' x w below above same s = record {
    type_meta = s.type_meta;
    status = s.status;
    metadata = (metas).frame h g lo hi lo' hi' x.metadata w.metadata below above same s.metadata;
    spec = (specs).frame h g lo hi lo' hi' x.spec w.spec below above same s.spec;
  }

  abbrev pub resource : Representation V (ResourceOf Meta Spec) (ResourceOf MetaValue SpecValue)
  resource = record { Is = IsResource; frame = IsResource-frame }

  pub resource-Copies :
      (copy_meta : Meta → M V Meta) (copy_spec : Spec → M V Spec)
      → Copies metas copy_meta
      → Copies specs copy_spec
      → Copies resource (resource_deep_copy_into copy_meta copy_spec)
  unfolding resource_deep_copy_into
  resource-Copies copy_meta copy_spec meta_copies spec_copies h lo x w low s =
      let c0 = (meta_copies) h lo x.metadata w.metadata low s.metadata in
      let c1 =
        (spec_copies) c0.heap lo x.spec w.spec (omega (arith, low, c0.grows))
          (kept (specs) c0 x.spec w.spec s.spec) in
      then-Copied {RA = metas} _ c0 (
        then-Copied {RA = specs} _ c1 (
          pure-Copied resource c1.heap lo (record x { metadata = c0.value; spec = c1.value }) w
            (record {
              type_meta = s.type_meta;
              status = s.status;
              metadata = (kept (metas) c1 c0.value w.metadata c0.is);
              spec = c1.is;
            })))

abbrev list_rest : {I : Type 0} → ResourceListOf I → TypeMeta × ListMeta
list_rest x = (x.type_meta, x.list_meta)

module _ {V : Vendored} {T W : Type 0} (t : CellType V (List T)) (R : Representation V T W) where
  abbrev pub resource_list : Representation V (ResourceListOf Addr) (ResourceListOf (List W))
  resource_list =
      with_field (pointer t (elements R)) (λ x. x.items) (λ x. x.items) list_rest list_rest

  pub resource_list-Copies :
      (copy : T → M V T) → Copies R copy → Copies resource_list (list_deep_copy_into t copy)
  unfolding list_deep_copy_into
  resource_list-Copies copy copies =
      with_field-Copies (pointer t (elements R)) _ _ _ _ (λ x a. record x { items = a })
        (deep_copy t (copy_elements copy)) (λ x a. refl) (λ x a. refl)
        (deep_copy-Copies t (elements R) (copy_elements copy) (copy_elements-Copies R copy copies))
