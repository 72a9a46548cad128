-- ===== src/Controller/Registration/Events.antt =====
-- Which requests an event enqueues, by the watches that are registered. The handlers of
-- controller-runtime, which make requests of an object's metadata, are a parameter.
use atomix_operator.Base.{
  ◌≡◌, ap, ◌∙◌, String, ◌==◌, ◌&&◌, Bool, true, false, Option, none, some, List, [], ◌∷◌, ◌++◌, ok,
  if◌then◌else◌,
}
use mathlib.Core.List.{append-nil}
use atomix_operator.Kube.Meta.{Foreign, NamespacedName, ObjectMeta, OwnerReference}
use atomix_operator.Kube.Platform.{Platform}
use atomix_operator.Controller.Client.{
  Kind, atomix_cluster, partition_group, atomix_benchmark, config_map, service,
  pod_disruption_budget, stateful_set, pod, Owner, cluster_owner, group_owner, benchmark_owner,
  Client,
}
use atomix_operator.Controller.Registration.{
  EventHandler, enqueue_request_for_owner, Manager, add_to_manager,
}
use atomix_operator.Controller.Registration.Laws.{
  Registered, controller, watches, registrations, Log, add_to_manager_registers,
}

abbrev pub same_kind : Kind → Kind → Bool
same_kind atomix_cluster atomix_cluster = true
same_kind partition_group partition_group = true
same_kind atomix_benchmark atomix_benchmark = true
same_kind config_map config_map = true
same_kind service service = true
same_kind pod_disruption_budget pod_disruption_budget = true
same_kind stateful_set stateful_set = true
same_kind pod pod = true
same_kind _ _ = false

module _ {F : Foreign} where
  abbrev pub owner_kind : Owner F → Kind
  owner_kind (cluster_owner x) = atomix_cluster
  owner_kind (group_owner x) = partition_group
  owner_kind (benchmark_owner x) = atomix_benchmark

  abbrev pub owner_name : Owner F → String
  owner_name (cluster_owner x) = x.metadata.name
  owner_name (group_owner x) = x.metadata.name
  owner_name (benchmark_owner x) = x.metadata.name

  -- The request for an owner of an object, which is in the object's namespace.
  abbrev pub owner_request : Owner F → ObjectMeta → NamespacedName
  owner_request owner m = record { namespace = m.namespace; name = owner_name owner }

abbrev pub with_references : ObjectMeta → List OwnerReference → ObjectMeta
with_references m references = record m { owner_references = references }

-- `metav1.GetControllerOf`: the first reference that says it is the controller.
abbrev is_controller : OwnerReference → Bool
is_controller r = elim r.controller [ some true ↦ true | _ ↦ false ]

abbrev pub controller_of : List OwnerReference → Option OwnerReference
controller_of [] = none
controller_of (r ∷ rs) = let rest = controller_of rs in if is_controller r then some r else rest

pub record Handlers : Type 0 where
  pub requests : EventHandler → ObjectMeta → List NamespacedName
  -- The reference has the group and the kind of the type.
  pub refers : OwnerReference → Kind → Bool

module _ (H : Handlers) where
  abbrev pub requests_to : Bool → NamespacedName → List NamespacedName
  requests_to true n = n ∷ []
  requests_to false n = []

  -- The requests for a controller when an object of a type changes.
  abbrev pub enqueued : List Registered → String → Kind → ObjectMeta → List NamespacedName
  enqueued [] name type m = []
  enqueued (controller n resource ∷ rest) name type m = enqueued rest name type m
  enqueued (watches n t handler ∷ rest) name type m =
      let more = enqueued rest name type m in
      if same_kind t type && (n == name) then H.requests handler m ++ more else more

  -- What the handlers and SetControllerReference are documented to do: the handler of an owner makes
  -- a request for the object's controller if that is of the type, and SetControllerReference makes
  -- the owner the controller of the object.
  pub record LawfulHandlers {F : Foreign} {P : Platform F} (C : Client P) : Type 0 where
    pub requests_for_owner :
        (type : Kind) (m : ObjectMeta) (r : OwnerReference)
        → controller_of m.owner_references ≡ some r
        → H.requests (enqueue_request_for_owner type true) m
          ≡ requests_to (H.refers r type) (record { namespace = m.namespace; name = r.name })
    pub controller-set :
        (owner : Owner F) (m : ObjectMeta) (references : List OwnerReference)
        → C.set_controller_reference owner m ≡ ok references
        → (r : OwnerReference) × (controller_of references ≡ some r)
          × (r.name ≡ owner_name owner)
          × ((type : Kind) → H.refers r type ≡ same_kind (owner_kind owner) type)

module _ {E : Type 0} (M : Manager E) (L : Log M) (H : Handlers) {F : Foreign} {P : Platform F}
    (C : Client P) (W : LawfulHandlers H C) where
  owner_requests :
      (owner : Owner F) (m : ObjectMeta) (references : List OwnerReference)
      → C.set_controller_reference owner m ≡ ok references
      → (type : Kind)
      → H.requests (enqueue_request_for_owner type true) (with_references m references)
        ≡ requests_to H (same_kind (owner_kind owner) type) (owner_request owner m)
  owner_requests owner m references set type =
      let (r, at, named, refers) = W.controller-set owner m references set in
      W.requests_for_owner type (with_references m references) r at
      ∙ ap (λ b. requests_to H b (record { namespace = m.namespace; name = r.name })) (refers type)
      ∙ ap
          (λ n.
            requests_to H (same_kind (owner_kind owner) type)
              (record { namespace = m.namespace; name = n }))
          named

  -- If `AddToManager` succeeds with a fresh manager, then a change of a StatefulSet whose controller
  -- reference was set to an owner enqueues a request for the owner, in the namespace of the
  -- StatefulSet, with the controller of clusters exactly if the owner is a cluster and with that of
  -- groups exactly if it is a group, and a change of such a pod does with the controller of
  -- benchmarks exactly if the owner is a benchmark. The controller of benchmarks is never told of a
  -- StatefulSet, and no controller of a configuration map, a service or a disruption budget.
  pub owned_events :
      (s : M.State) (owner : Owner F) (m : ObjectMeta) (references : List OwnerReference)
      (name : String)
      → L.log s ≡ []
      → (add_to_manager M s).1 ≡ ok tt
      → C.set_controller_reference owner m ≡ ok references
      → let log = L.log (add_to_manager M s).0 in
        let owned = with_references m references in
        let request = owner_request owner m in
        (enqueued H log "atomixcluster-controller" stateful_set owned
          ≡ requests_to H (same_kind (owner_kind owner) atomix_cluster) request)
        × (enqueued H log "partitiongroup-controller" stateful_set owned
            ≡ requests_to H (same_kind (owner_kind owner) partition_group) request)
        × (enqueued H log "benchmark-controller" pod owned
            ≡ requests_to H (same_kind (owner_kind owner) atomix_benchmark) request)
        × (enqueued H log "benchmark-controller" stateful_set owned ≡ [])
        × (enqueued H log name config_map owned ≡ [])
        × (enqueued H log name service owned ≡ [])
        × (enqueued H log name pod_disruption_budget owned ≡ [])
  owned_events s owner m references name fresh success set =
      let entries =
        registrations "benchmark-controller" atomix_benchmark pod
        ++ registrations "atomixcluster-controller" atomix_cluster stateful_set
        ++ registrations "partitiongroup-controller" partition_group stateful_set in
      let registered : L.log (add_to_manager M s).0 ≡ entries =
        add_to_manager_registers M L s success ∙ ap (λ l. l ++ entries) fresh in
      let owned = with_references m references in
      let at : (c : String) (k : Kind)
          → enqueued H (L.log (add_to_manager M s).0) c k owned ≡ enqueued H entries c k owned =
        λ c k. ap (λ l. enqueued H l c k owned) registered in
      let one : (k : Kind)
          → H.requests (enqueue_request_for_owner k true) owned ++ []
            ≡ requests_to H (same_kind (owner_kind owner) k) (owner_request owner m) =
        λ k. append-nil _ ∙ owner_requests owner m references set k in
      (
        at "atomixcluster-controller" stateful_set ∙ one atomix_cluster,
        at "partitiongroup-controller" stateful_set ∙ one partition_group,
        at "benchmark-controller" pod ∙ one atomix_benchmark,
        at "benchmark-controller" stateful_set,
        at name config_map,
        at name service,
        at name pod_disruption_budget,
      )
