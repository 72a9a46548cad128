-- ===== src/Util/Wiring.antt =====
-- The pods of a workload fit the objects around them: what its selector, its mounts and its names
-- have to agree with.
pub mod Sets
use atomix_operator.Base.{
  ℤ, String, ◌==◌, ◌≡◌, Bool, true, false, ◌||◌, ◌&&◌, Option, none, some, List, [], ◌∷◌, ◌++◌, map,
  all, any, sprint,
}
use atomix_operator.Kube.Meta.{Foreign}
use atomix_operator.Kube.Pod.{Container, Volume, PodSpec}
use atomix_operator.Kube.Objects.{PersistentVolumeClaim, StatefulSet}
use atomix_operator.Kube.Selector.{selects}

abbrev config_map_names_of : List Volume → List String
config_map_names_of [] = []
config_map_names_of (v ∷ vs) = elim v.volume_source.config_map [
  | none ↦ config_map_names_of vs
  | some source ↦ source.local_object_reference.name ∷ config_map_names_of vs
]

module _ {F : Foreign} where
  -- The names that a mount may give: the pod's volumes, and the claims of its set.
  abbrev pub volume_names : PodSpec F → List (PersistentVolumeClaim F) → List String
  volume_names pod claims = map (λ v. v.name) pod.volumes ++ map (λ c. c.metadata.name) claims

  abbrev pub mounts_resolve : PodSpec F → List (PersistentVolumeClaim F) → Bool
  mounts_resolve pod claims =
      all (λ c. all (λ m. any (λ name. name == m.name) (volume_names pod claims)) c.volume_mounts)
        (pod.init_containers ++ pod.containers)

  -- The configuration maps that a pod mounts, in the order of its volumes.
  abbrev pub config_map_names : PodSpec F → List String
  config_map_names pod = config_map_names_of pod.volumes

  -- The values of the environment variables of the init containers.
  abbrev pub init_values : PodSpec F → List (List String)
  init_values pod = map (λ c. map (λ e. e.value) c.env) pod.init_containers

  abbrev selects_template : StatefulSet F → Bool
  selects_template set = elim set.spec.selector [
    | none ↦ false
    | some selector ↦ selects selector set.spec.template.metadata.labels
  ]

  pub record IsWired (set : StatefulSet F) (service init config : String) (size : ℤ) : Type 0 where
    -- The selector selects the pods of the template, as the API demands.
    pub selected : selects_template set ≡ true
    pub served : set.spec.service_name ≡ service
    -- Every mount of every container is of a volume of the pod or of a claim.
    pub mounted : mounts_resolve set.spec.template.spec set.spec.volume_claim_templates ≡ true
    pub configured : config_map_names set.spec.template.spec ≡ init ∷ config ∷ []
    -- The init script is told the number of replicas.
    pub replicated : set.spec.replicas ≡ some size
    pub counted : init_values set.spec.template.spec ≡ (sprint size ∷ []) ∷ []
