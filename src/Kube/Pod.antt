-- ===== src/Kube/Pod.antt =====
-- k8s.io/api/core/v1: pods and what they are made of.
use atomix_operator.Base.{String, Bool, Option, List, ℤ}
use atomix_operator.Kube.Meta.{Foreign, ObjectMeta, LabelSelector}

pub data IntOrStringType : Type 0 where
  int_type string_type : IntOrStringType

pub record IntOrString : Type 0 where
  pub type : IntOrStringType
  pub int_val : ℤ
  pub str_val : String

pub record EnvVar (F : Foreign) : Type 0 where
  pub name : String
  pub value : String
  pub value_from : Option F.EnvVarSource

pub record ResourceRequirements (F : Foreign) : Type 0 where
  pub limits : List (String × F.Quantity)
  pub requests : List (String × F.Quantity)

pub record ContainerPort : Type 0 where
  pub name : String
  pub container_port : ℤ

pub record VolumeMount : Type 0 where
  pub name : String
  pub mount_path : String

pub record HttpGetAction : Type 0 where
  pub path : String
  pub port : IntOrString

pub record Handler : Type 0 where
  pub http_get : Option HttpGetAction

pub record Probe : Type 0 where
  pub handler : Handler
  pub initial_delay_seconds : ℤ
  pub timeout_seconds : ℤ
  pub failure_threshold : ℤ

pub record SecurityContext : Type 0 where
  pub privileged : Option Bool

pub record Container (F : Foreign) : Type 0 where
  pub name : String
  pub image : String
  pub image_pull_policy : String
  pub command : List String
  pub args : List String
  pub env : List (EnvVar F)
  pub resources : ResourceRequirements F
  pub ports : List ContainerPort
  pub security_context : Option SecurityContext
  pub readiness_probe : Option Probe
  pub liveness_probe : Option Probe
  pub volume_mounts : List VolumeMount

pub record LocalObjectReference : Type 0 where
  pub name : String

pub record ConfigMapVolumeSource : Type 0 where
  pub local_object_reference : LocalObjectReference
  pub default_mode : Option ℤ

pub data EmptyDirVolumeSource : Type 0 where
  empty_dir_volume_source : EmptyDirVolumeSource

pub record VolumeSource : Type 0 where
  pub config_map : Option ConfigMapVolumeSource
  pub empty_dir : Option EmptyDirVolumeSource

pub record Volume : Type 0 where
  pub name : String
  pub volume_source : VolumeSource

pub record PodAffinityTerm : Type 0 where
  pub label_selector : Option LabelSelector
  pub topology_key : String

pub record WeightedPodAffinityTerm : Type 0 where
  pub weight : ℤ
  pub pod_affinity_term : PodAffinityTerm

pub record PodAntiAffinity : Type 0 where
  pub preferred_during_scheduling_ignored_during_execution : List WeightedPodAffinityTerm

pub record Affinity : Type 0 where
  pub pod_anti_affinity : Option PodAntiAffinity

pub record PodSpec (F : Foreign) : Type 0 where
  pub affinity : Option Affinity
  pub init_containers : List (Container F)
  pub containers : List (Container F)
  pub volumes : List Volume

pub record Pod (F : Foreign) : Type 0 where
  pub metadata : ObjectMeta
  pub spec : PodSpec F

pub record PodTemplateSpec (F : Foreign) : Type 0 where
  pub metadata : ObjectMeta
  pub spec : PodSpec F
