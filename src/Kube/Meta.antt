-- ===== src/Kube/Meta.antt =====
-- k8s.io/apimachinery: names, object metadata, label selectors.
use atomix_operator.Base.{String, Bool, Option, List, []}

-- What the vendored types hold and the operator only passes on: a parsed quantity, and the source
-- of an environment variable.
pub record Foreign : Type 1 where
  pub Quantity : Type 0
  pub EnvVarSource : Type 0

abbrev pub StringMap : Type 0
StringMap = List (String × String)

pub record NamespacedName : Type 0 where
  pub namespace : String
  pub name : String

pub record OwnerReference : Type 0 where
  pub api_version : String
  pub kind : String
  pub name : String
  pub uid : String
  pub controller : Option Bool
  pub block_owner_deletion : Option Bool

pub record ObjectMeta : Type 0 where
  pub name : String
  pub namespace : String
  pub uid : String
  pub labels : StringMap
  pub annotations : StringMap
  pub owner_references : List OwnerReference

-- `metav1.ObjectMeta{Name, Namespace, Labels, Annotations}`, the other fields unset.
abbrev pub new_object_meta : String → String → StringMap → StringMap → ObjectMeta
new_object_meta name namespace labels annotations = record {
  name = name;
  namespace = namespace;
  uid = "";
  labels = labels;
  annotations = annotations;
  owner_references = [];
}

pub data LabelSelectorOperator : Type 0 where
  op_in op_not_in op_exists op_does_not_exist : LabelSelectorOperator

pub record LabelSelectorRequirement : Type 0 where
  pub key : String
  pub operator : LabelSelectorOperator
  pub values : List String

pub record LabelSelector : Type 0 where
  pub match_labels : StringMap
  pub match_expressions : List LabelSelectorRequirement
