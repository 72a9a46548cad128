-- ===== src/Kube/Selector.antt =====
-- When a selector selects a pod, as Kubernetes documents it: every pair of a map is among the pod's
-- labels, and every requirement holds of them. This is the meaning that the properties of the
-- created objects refer to; the operator itself does not evaluate selectors.
use atomix_operator.Base.{
  String, ◌==◌, Bool, false, not, ◌&&◌, Option, none, some, List, [], ◌∷◌, if◌then◌else◌, all, any,
  is_some,
}
use atomix_operator.Kube.Meta.{
  StringMap, LabelSelectorOperator, op_in, op_not_in, op_exists, op_does_not_exist, LabelSelector,
}

abbrev pub lookup_label : String → StringMap → Option String
lookup_label k [] = none
lookup_label k ((j, v) ∷ m) = if j == k then some v else lookup_label k m

abbrev pub has_value : List String → Option String → Bool
has_value values none = false
has_value values (some v) = any (λ w. w == v) values

abbrev pub selects_labels : StringMap → StringMap → Bool
selects_labels selector labels =
    all (λ pair. has_value (pair.1 ∷ []) (lookup_label pair.0 labels)) selector

abbrev holds : LabelSelectorOperator → List String → Option String → Bool
holds op_in values found = has_value values found
holds op_not_in values found = not (has_value values found)
holds op_exists values found = is_some found
holds op_does_not_exist values found = not (is_some found)

abbrev pub selects : LabelSelector → StringMap → Bool
selects selector labels =
    selects_labels selector.match_labels labels
    && all (λ r. holds r.operator r.values (lookup_label r.key labels)) selector.match_expressions
