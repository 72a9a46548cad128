-- ===== src/Tests/Handlers.antt =====
-- Handlers of events that read the references which the client in memory sets.
use atomix_operator.Base.{
  ◌≡◌, refl, sym, ap, ◌∙◌, String, ◌==◌, Bool, true, false, Option, none, some, List, [], ◌∷◌,
  if◌then◌else◌, ok, ok-injective,
}
use atomix_operator.Kube.Meta.{NamespacedName, ObjectMeta, OwnerReference}
use atomix_operator.Controller.Client.{
  Kind, atomix_cluster, partition_group, atomix_benchmark, config_map, service,
  pod_disruption_budget, stateful_set, pod, Owner, cluster_owner, group_owner, benchmark_owner,
}
use atomix_operator.Controller.Registration.{enqueue_request_for_object, enqueue_request_for_owner}
use atomix_operator.Controller.Registration.Events.{
  same_kind, owner_kind, owner_name, controller_of, Handlers, requests_to, LawfulHandlers,
}
use atomix_operator.Tests.Memory.{foreign, client, reference_to, references_with}

abbrev pub kind_name : Kind → String
kind_name atomix_cluster = "AtomixCluster"
kind_name partition_group = "PartitionGroup"
kind_name atomix_benchmark = "AtomixBenchmark"
kind_name config_map = "ConfigMap"
kind_name service = "Service"
kind_name pod_disruption_budget = "PodDisruptionBudget"
kind_name stateful_set = "StatefulSet"
kind_name pod = "Pod"

module _ (m : ObjectMeta) (type : Kind) where
  abbrev pub for_owner : Option OwnerReference → List NamespacedName
  for_owner none = []
  for_owner (some r) =
      if r.kind == kind_name type
      then record { namespace = m.namespace; name = r.name } ∷ []
      else []

abbrev pub handlers : Handlers
handlers = record {
  requests = λ h m. elim h [
    | enqueue_request_for_object ↦ record { namespace = m.namespace; name = m.name } ∷ []
    | enqueue_request_for_owner type b ↦ for_owner m type (controller_of m.owner_references)
  ];
  refers = λ r type. r.kind == kind_name type;
}

refers_lem :
    (owner : Owner foreign) (type : Kind)
    → ((reference_to owner).kind == kind_name type) ≡ same_kind (owner_kind owner) type
refers_lem (cluster_owner x) atomix_cluster = refl
refers_lem (cluster_owner x) partition_group = refl
refers_lem (cluster_owner x) atomix_benchmark = refl
refers_lem (cluster_owner x) config_map = refl
refers_lem (cluster_owner x) service = refl
refers_lem (cluster_owner x) pod_disruption_budget = refl
refers_lem (cluster_owner x) stateful_set = refl
refers_lem (cluster_owner x) pod = refl
refers_lem (group_owner x) atomix_cluster = refl
refers_lem (group_owner x) partition_group = refl
refers_lem (group_owner x) atomix_benchmark = refl
refers_lem (group_owner x) config_map = refl
refers_lem (group_owner x) service = refl
refers_lem (group_owner x) pod_disruption_budget = refl
refers_lem (group_owner x) stateful_set = refl
refers_lem (group_owner x) pod = refl
refers_lem (benchmark_owner x) atomix_cluster = refl
refers_lem (benchmark_owner x) partition_group = refl
refers_lem (benchmark_owner x) atomix_benchmark = refl
refers_lem (benchmark_owner x) config_map = refl
refers_lem (benchmark_owner x) service = refl
refers_lem (benchmark_owner x) pod_disruption_budget = refl
refers_lem (benchmark_owner x) stateful_set = refl
refers_lem (benchmark_owner x) pod = refl

name_lem : (owner : Owner foreign) → (reference_to owner).name ≡ owner_name owner
name_lem (cluster_owner x) = refl
name_lem (group_owner x) = refl
name_lem (benchmark_owner x) = refl

controls :
    (owner : Owner foreign) (rs : List OwnerReference)
    → controller_of (reference_to owner ∷ rs) ≡ some (reference_to owner)
controls (cluster_owner x) rs = refl
controls (group_owner x) rs = refl
controls (benchmark_owner x) rs = refl

requests_lem :
    (b : Bool) (n : NamespacedName) → (if b then n ∷ [] else []) ≡ requests_to handlers b n
requests_lem true n = refl
requests_lem false n = refl

accepted :
    (b : Bool) (r : OwnerReference) (rs : List OwnerReference) {references : List OwnerReference}
    → references_with b r rs ≡ ok references
    → r ∷ rs ≡ references
accepted true r rs e = cc
accepted false r rs e = ok-injective e

pub handlers-LawfulHandlers : LawfulHandlers handlers client
handlers-LawfulHandlers = record {
  requests_for_owner = λ type m r e.
      ap (for_owner m type) e
      ∙ requests_lem (r.kind == kind_name type) (record { namespace = m.namespace; name = r.name });
  controller-set = λ owner m references e. (
    reference_to owner,
    ap controller_of (sym (accepted _ (reference_to owner) m.owner_references e))
        ∙ controls owner m.owner_references,
    name_lem owner,
    refers_lem owner,
  );
}
