-- ===== src/V1alpha1/DeepCopy/Vendored.antt =====
-- What the vendored structs stand for, and what is relied on of their deep copies: that they give a
-- struct which stands for the same value and reaches new cells only.
use atomix_operator.V1alpha1.DeepCopy.Heap.{Vendored}
use atomix_operator.V1alpha1.DeepCopy.Into.{VendoredCopies}
use atomix_operator.V1alpha1.DeepCopy.Represents.{Representation, Copies}

pub record VendoredValues (V : Vendored) : Type 1 where
  pub EnvVar : Type 0
  pub ResourceRequirements : Type 0
  pub ObjectMeta : Type 0
  pub env_var : Representation V V.EnvVar EnvVar
  pub resource_requirements : Representation V V.ResourceRequirements ResourceRequirements
  pub object_meta : Representation V V.ObjectMeta ObjectMeta

pub record LawfulCopies {V : Vendored} (C : VendoredCopies V) (W : VendoredValues V) : Type 0 where
  pub env_var-Copies : Copies W.env_var C.env_var_deep_copy_into
  pub resource_requirements-Copies :
      Copies W.resource_requirements C.resource_requirements_deep_copy_into
  pub object_meta-Copies : Copies W.object_meta C.object_meta_deep_copy_into
