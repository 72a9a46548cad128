-- ===== src/Util/Resources.antt =====
-- pkg/controller/util/resources.go: the parts that the objects share.
pub mod Container
pub mod Volumes
use atomix_operator.Base.{String, pos, none, some, List, [], ◌∷◌}
use atomix_operator.Kube.Meta.{LabelSelectorRequirement, LabelSelector, op_in}
use atomix_operator.Kube.Pod.{Affinity, PodAntiAffinity, WeightedPodAffinityTerm, PodAffinityTerm}
use atomix_operator.Util.Resources.Names.{app_key, type_key, management_type}
mod Names
pub use Names.*

unfoldable pub new_affinity : String → Affinity
new_affinity name = record {
  pod_anti_affinity = some (record {
    preferred_during_scheduling_ignored_during_execution =
        record {
          weight = pos 1;
          pod_affinity_term = record {
            label_selector = some (record {
              match_labels = [];
              match_expressions =
                  record { key = app_key; operator = op_in; values = name ∷ [] }
                  ∷ record { key = type_key; operator = op_in; values = management_type ∷ [] }
                  ∷ [];
            });
            topology_key = "kubernetes.io/hostname";
          };
        }
        ∷ [];
  });
}
