-- ===== src/Controller/PartitionGroup/Laws.antt =====
-- What `Reconcile` does for a PartitionGroup, over any lawful client.
use atomix_operator.Base.{◌≡◌, refl, List, [], ◌∷◌, Result, ok, bind, deref, String, arith}
use atomix_operator.Kube.Meta.{Foreign, NamespacedName}
use atomix_operator.Kube.Platform.{Platform}
use atomix_operator.Kube.Objects.{StatefulSet, ConfigMap}
use atomix_operator.V1alpha1.Types.{PartitionGroup, Storage}
use atomix_operator.V1alpha1.Defaults.{set_defaults_partition_group}
use atomix_operator.Util.PartitionGroup.{
  get_partition_group_service_name, get_partition_group_disruption_budget_name,
  get_partition_group_init_config_map_name, get_partition_group_system_config_map_name,
  get_partition_group_stateful_set_name, new_partition_group_service,
  new_partition_group_init_config_map, new_partition_group_disruption_budget,
}
use atomix_operator.Util.PartitionGroup.Config.{new_partition_group_config_map}
use atomix_operator.Util.PartitionGroup.Set.{
  new_partition_group_stateful_set, new_persistent_partition_group_stateful_set,
}
use atomix_operator.Controller.Client.{
  Kind, ObjectOf, Client, key_of, Owner, group_owner, partition_group, config_map, service,
  pod_disruption_budget, stateful_set,
}
use atomix_operator.Controller.Steps.{own_and_create}
use atomix_operator.Controller.Store.{Store}
use atomix_operator.Controller.Ensures.{Child, Ensures}
use atomix_operator.Controller.Ensures.Own.{child, add-Ensures, own-Ensures, lift-bind}
use atomix_operator.Controller.Ensures.Sequence.{done-Ensures, then_do-Ensures}
use atomix_operator.Controller.Ensures.Reconciles.{
  Reconciles, get_or_stop-Reconciles, Reconciles-twice,
}
use atomix_operator.Controller.PartitionGroup.{
  reconcile_system_config, reconcile_stateful_set, reconcile_objects, reconcile,
}

module _ {F : Foreign} (P : Platform F) (group : PartitionGroup F) where
  abbrev in_namespace : String → NamespacedName
  in_namespace name = record { namespace = group.metadata.namespace; name = name }

  -- The two objects that depend on the protocol, once their pointer is followed.
  abbrev pub config_of : Result P.Error ConfigMap
  config_of = bind (new_partition_group_config_map P.errorf group) deref

  abbrev pub set_of : Result P.Error (StatefulSet F)
  set_of = bind (new_partition_group_stateful_set P group) deref

  config-key :
      (x : ConfigMap)
      → config_of ≡ ok x
      → in_namespace (get_partition_group_system_config_map_name group) ≡ key_of F config_map x
  unfolding new_partition_group_config_map
  config-key x e = ground arith

  persistent_set-key :
      (storage : Storage) (x : StatefulSet F)
      → new_persistent_partition_group_stateful_set P group storage ≡ ok x
      → in_namespace (get_partition_group_stateful_set_name group) ≡ key_of F stateful_set x
  unfolding new_persistent_partition_group_stateful_set
  persistent_set-key storage x e = ground arith

  pub set-key :
      (x : StatefulSet F)
      → set_of ≡ ok x
      → in_namespace (get_partition_group_stateful_set_name group) ≡ key_of F stateful_set x
  unfolding new_partition_group_stateful_set
  set-key x e = ground arith

module _ {F : Foreign} {P : Platform F} (C : Client P) (group : PartitionGroup F) where
  abbrev owned_child : (k : Kind) → String → Result P.Error (ObjectOf F k) → Child P
  owned_child k name = child C (group_owner group) k (in_namespace P group name)

  -- The objects that belong to a group whose defaults are set, each with its controller.
  abbrev pub group_children : List (Child P)
  group_children =
      owned_child config_map (get_partition_group_init_config_map_name group)
        (ok (new_partition_group_init_config_map group))
      ∷ owned_child config_map (get_partition_group_system_config_map_name group)
          (config_of P group)
      ∷ owned_child pod_disruption_budget (get_partition_group_disruption_budget_name group)
          (ok (new_partition_group_disruption_budget P group))
      ∷ owned_child stateful_set (get_partition_group_stateful_set_name group) (set_of P group)
      ∷ owned_child service (get_partition_group_service_name group)
          (ok (new_partition_group_service group))
      ∷ []

  module _ (S : Store C) where
    abbrev owner : Owner F
    owner = group_owner group

    system_config-Ensures : Ensures S (reconcile_system_config C group) (
        owned_child config_map
          (get_partition_group_system_config_map_name group)
          (config_of P group)
        ∷ [])
    unfolding reconcile_system_config
    system_config-Ensures =
        rw
          (lift-bind C (new_partition_group_config_map P.errorf group) deref
            (own_and_create C owner config_map))
          (add-Ensures C owner config_map S _ (config_of P group) (config-key P group))

    set-Ensures : Ensures S (reconcile_stateful_set C group) (
        owned_child stateful_set (get_partition_group_stateful_set_name group) (set_of P group)
        ∷ [])
    unfolding reconcile_stateful_set
    set-Ensures =
        rw
          (lift-bind C (new_partition_group_stateful_set P group) deref
            (own_and_create C owner stateful_set))
          (add-Ensures C owner stateful_set S _ (set_of P group) (set-key P group))

    reconcile_objects-Ensures : Ensures S (reconcile_objects C group) group_children
    unfolding reconcile_objects new_partition_group_init_config_map
        new_partition_group_disruption_budget new_partition_group_service
    reconcile_objects-Ensures =
        then_do-Ensures S _ _ _ _ (own-Ensures C owner config_map S _ _ refl) (
          then_do-Ensures S _ _ _ _ system_config-Ensures (
            then_do-Ensures S _ _ _ _ (own-Ensures C owner pod_disruption_budget S _ _ refl) (
              then_do-Ensures S _ _ _ _ set-Ensures (
                then_do-Ensures S _ _ _ _ (own-Ensures C owner service S _ _ refl)
                  (done-Ensures S)))))

module _ {F : Foreign} {P : Platform F} (C : Client P) (S : Store C)
    (request : NamespacedName) where
  -- Over a lawful client, `Reconcile` of a PartitionGroup refines its specification: it ensures the
  -- init script, the configuration of the protocol, the disruption budget, the StatefulSet of the
  -- protocol and the service of the stored group with its defaults set, never changes or removes a
  -- stored object, creates nothing else, and does nothing where the group is gone.
  pub group_reconcile-Reconciles :
      Reconciles S
        (reconcile C request)
        partition_group
        request
        (λ group. group_children C (set_defaults_partition_group group))
  unfolding reconcile
  group_reconcile-Reconciles =
      get_or_stop-Reconciles S partition_group request _ _
        (λ group. reconcile_objects-Ensures C (set_defaults_partition_group group) S)

  -- After a successful `Reconcile` of a PartitionGroup a second run changes no stored object and
  -- adds none, whatever its own calls return.
  pub group_reconcile_twice :
      (w : C.World)
      → (reconcile C request w).1 ≡ ok tt
      → (j : Kind) (n : NamespacedName)
      → S.lookup (reconcile C request (reconcile C request w).0).0 j n
        ≡ S.lookup (reconcile C request w).0 j n
  group_reconcile_twice = Reconciles-twice S group_reconcile-Reconciles
