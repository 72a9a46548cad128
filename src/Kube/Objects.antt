-- ===== src/Kube/Objects.antt =====
-- k8s.io/api: the objects that the operator creates besides pods.
use atomix_operator.Base.{String, Bool, Option, List, ℤ}
use atomix_operator.Kube.Meta.{Foreign, ObjectMeta, LabelSelector, StringMap}
use atomix_operator.Kube.Pod.{IntOrString, ResourceRequirements, PodTemplateSpec}

pub record ConfigMap : Type 0 where
  pub metadata : ObjectMeta
  pub contents : StringMap

pub record ServicePort : Type 0 where
  pub name : String
  pub port : ℤ

pub record ServiceSpec : Type 0 where
  pub ports : List ServicePort
  pub publish_not_ready_addresses : Bool
  pub cluster_ip : String
  pub selector : StringMap

pub record Service : Type 0 where
  pub metadata : ObjectMeta
  pub spec : ServiceSpec

pub record PodDisruptionBudgetSpec : Type 0 where
  pub min_available : Option IntOrString
  pub selector : Option LabelSelector

pub record PodDisruptionBudget : Type 0 where
  pub metadata : ObjectMeta
  pub spec : PodDisruptionBudgetSpec

pub record PersistentVolumeClaimSpec (F : Foreign) : Type 0 where
  pub storage_class_name : Option String
  pub access_modes : List String
  pub resources : ResourceRequirements F

pub record PersistentVolumeClaim (F : Foreign) : Type 0 where
  pub metadata : ObjectMeta
  pub spec : PersistentVolumeClaimSpec F

pub record StatefulSetSpec (F : Foreign) : Type 0 where
  pub service_name : String
  pub replicas : Option ℤ
  pub selector : Option LabelSelector
  pub update_strategy : String
  pub pod_management_policy : String
  pub template : PodTemplateSpec F
  pub volume_claim_templates : List (PersistentVolumeClaim F)

pub record StatefulSet (F : Foreign) : Type 0 where
  pub metadata : ObjectMeta
  pub spec : StatefulSetSpec F
