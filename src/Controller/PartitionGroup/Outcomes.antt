-- ===== src/Controller/PartitionGroup/Outcomes.antt =====
-- When `Reconcile` of a PartitionGroup succeeds, and what a group without a protocol leads to.
use atomix_operator.Base.{
  ◌≡◌, ◌≢◌, refl, ◌∙◌, ◌⊎◌, arith, [], subst, none, some, Option-cases, String, inl, inr, ok, panic,
  true, false, bind-eq-ok, All, ok-ne-panic,
}
use atomix_operator.Kube.Meta.{Foreign, NamespacedName}
use atomix_operator.Kube.Platform.{Platform}
use atomix_operator.Kube.Objects.{StatefulSet, ConfigMap}
use atomix_operator.V1alpha1.Types.{PartitionGroup, Storage}
use atomix_operator.V1alpha1.Defaults.{set_defaults_partition_group}
use atomix_operator.Util.PartitionGroup.{
  get_partition_group_stateful_set_name, new_partition_group_init_config_map,
  new_partition_group_disruption_budget, new_partition_group_service,
}
use atomix_operator.Util.PartitionGroup.Protocol.{
  is_built, storage_size, is_parsed, HasNoProtocol, group_config_outcome, group_set_outcome,
}
use atomix_operator.Util.PartitionGroup.Config.{new_partition_group_config_map}
use atomix_operator.Util.PartitionGroup.Set.{
  new_partition_group_stateful_set, new_persistent_partition_group_stateful_set,
}
use atomix_operator.Controller.Client.{
  Client, key_of, group_owner, partition_group, stateful_set, config_map, service,
  pod_disruption_budget,
}
use atomix_operator.Controller.Steps.{own}
use atomix_operator.Controller.Store.{Store, IsReliable}
use atomix_operator.Controller.Ensures.{IsPresent, IsBuilt, IsPlanned, here, there}
use atomix_operator.Controller.Ensures.Owned.{IsOwner, OwnsCalmly, owned-ok, owned-ne-panic}
use atomix_operator.Controller.PartitionGroup.{reconcile}
use atomix_operator.Controller.PartitionGroup.Laws.{
  group_children, config_of, set_of, group_reconcile-Reconciles,
}
use atomix_operator.Controller.PartitionGroup.Building.{
  is_built-value, is_built-deref, HasNoProtocol-defaults, config_of-ne-panic, set_of-ne-panic,
  set_missing,
}

module _ {F : Foreign} (P : Platform F) (group : PartitionGroup F) where
  config-references : (x : ConfigMap) → config_of P group ≡ ok x → x.metadata.owner_references ≡ []
  unfolding new_partition_group_config_map
  config-references x e = ground arith

  persistent_set-references :
      (storage : Storage) (x : StatefulSet F)
      → new_persistent_partition_group_stateful_set P group storage ≡ ok x
      → x.metadata.owner_references ≡ []
  unfolding new_persistent_partition_group_stateful_set
  persistent_set-references storage x e = ground arith

  pub set-references :
      (x : StatefulSet F) → set_of P group ≡ ok x → x.metadata.owner_references ≡ []
  unfolding new_partition_group_stateful_set
  set-references x e = ground arith

module _ {F : Foreign} {P : Platform F} (C : Client P) (S : Store C) where
  group_children-IsBuilt :
      (group : PartitionGroup F)
      → IsOwner C (group_owner group)
      → ¬ HasNoProtocol group
      → is_parsed P (storage_size group.spec) ≡ true
      → All (IsBuilt S) (group_children C group)
  unfolding new_partition_group_init_config_map new_partition_group_disruption_budget
      new_partition_group_service
  group_children-IsBuilt group accepts protocol parsed =
      let config : is_built (new_partition_group_config_map P.errorf group) ≡ true =
        elim (group_config_outcome P group) [
          | inl (without, e) ↦ absurd (protocol without)
          | inr (_, e) ↦ e
        ] in
      let set : is_built (new_partition_group_stateful_set P group) ≡ true =
        elim (group_set_outcome P group) [
          | inl (without, e) ↦ absurd (protocol without)
          | inr (_, e) ↦ e ∙ parsed
        ] in
      let o = group_owner group in
      (
        owned-ok C o config_map _ accepts refl refl,
        (
          owned-ok C o config_map _ accepts (is_built-value _ config).1
              (config-references P group _ (is_built-value _ config).1),
          (
            owned-ok C o pod_disruption_budget _ accepts refl refl,
            (
              owned-ok C o stateful_set _ accepts (is_built-value _ set).1
                  (set-references P group _ (is_built-value _ set).1),
              (owned-ok C o service _ accepts refl refl, tt),
            ),
          ),
        ),
      )

  -- With a reliable client, for a stored group that has a protocol, whose storage size, if the
  -- protocol has storage, can be parsed after the defaults, and which is accepted as an owner of new objects,
  -- `Reconcile` succeeds and all five objects are present.
  pub group_reconcile_converges :
      IsReliable C S
      → (request : NamespacedName) (w : C.World) (group : PartitionGroup F)
      → S.lookup w partition_group request ≡ some group
      → IsOwner C (group_owner (set_defaults_partition_group group))
      → ¬ HasNoProtocol group
      → is_parsed P (storage_size (set_defaults_partition_group group).spec) ≡ true
      → ((reconcile C request w).1 ≡ ok tt)
        × All
            (IsPresent S (reconcile C request w).0)
            (group_children C (set_defaults_partition_group group))
  group_reconcile_converges reliable request w group found accepts protocol parsed =
      let spec = group_reconcile-Reconciles C S request in
      let success : (reconcile C request w).1 ≡ ok tt = spec.progress reliable w (λ x e.
        let same : group ≡ x = cc in
        rw (← same) (
          group_children-IsBuilt (set_defaults_partition_group group) accepts
            (λ without. protocol (HasNoProtocol-defaults group without)) parsed)) in
      (success, spec.present w group found success)

  unplanned_set :
      (group : PartitionGroup F) (n : NamespacedName) {y : StatefulSet F}
      → is_built (new_partition_group_stateful_set P group) ≡ false
      → ¬ IsPlanned S (group_children C group) stateful_set n y
  unfolding own
  unplanned_set group n bad (here e put) = elim put [ ]
  unplanned_set group n bad (there (here e put)) = elim put [ ]
  unplanned_set group n bad (there (there (here e put))) = elim put [ ]
  unplanned_set group n bad (there (there (there (here e put)))) =
      let (set, made, owned) = bind-eq-ok (set_of P group) _ e in
      let built = is_built-deref (new_partition_group_stateful_set P group) made in cc
  unplanned_set group n bad (there (there (there (there (here e put))))) = elim put [ ]
  unplanned_set group n bad (there (there (there (there (there p))))) = elim p [ ]

  -- For a stored group that has no protocol, or whose storage size cannot be parsed after the
  -- defaults, and without a StatefulSet under its name, `Reconcile` does not succeed and creates no
  -- such StatefulSet.
  pub group_reconcile_unbuilt :
      (request : NamespacedName) (w : C.World) (group : PartitionGroup F)
      → S.lookup w partition_group request ≡ some group
      → HasNoProtocol group
        ⊎ (is_parsed P (storage_size (set_defaults_partition_group group).spec) ≡ false)
      → S.lookup w stateful_set (key_of F partition_group group) ≡ none
      → ((reconcile C request w).1 ≢ ok tt)
        × (S.lookup (reconcile C request w).0 stateful_set (key_of F partition_group group) ≡ none)
  unfolding set_defaults_partition_group get_partition_group_stateful_set_name
  group_reconcile_unbuilt request w group found bad missing =
      let spec = group_reconcile-Reconciles C S request in
      let still : S.lookup (reconcile C request w).0 stateful_set (key_of F partition_group group)
          ≡ none =
        elim (Option-cases
          (S.lookup (reconcile C request w).0 stateful_set (key_of F partition_group group))) [
            | inl empty ↦ empty
            | inr (y, e) ↦ elim (spec.adds w stateful_set _ y e) [
              | inl before ↦ cc
              | inr (x, present, planned) ↦
                  let same : group ≡ x = cc in
                  absurd (
                    unplanned_set (set_defaults_partition_group x) _
                      (subst
                        (λ z.
                          is_built
                            (new_partition_group_stateful_set P (set_defaults_partition_group z))
                          ≡ false)
                        same (set_missing P group bad))
                      planned)
            ]
          ] in
      ((λ success. (spec.present w group found success).1.1.1.0 still), still)

  -- If neither the parser of sizes nor `SetControllerReference` panics, `Reconcile` does not: the
  -- pointers that it follows without a test are never nil.
  pub group_reconcile-ne-panic :
      OwnsCalmly C
      → ((size : String) → P.parse_quantity size ≢ panic)
      → (request : NamespacedName) (w : C.World) → (reconcile C request w).1 ≢ panic
  group_reconcile-ne-panic calm parses request w =
      (group_reconcile-Reconciles C S request).ne_panic w λ group _.
        let g = set_defaults_partition_group group in
        let o = group_owner g in
        (
          owned-ne-panic C o config_map _ calm ok-ne-panic,
          (
            owned-ne-panic C o config_map _ calm (config_of-ne-panic P g),
            (
              owned-ne-panic C o pod_disruption_budget _ calm ok-ne-panic,
              (
                owned-ne-panic C o stateful_set _ calm (set_of-ne-panic P g parses),
                (owned-ne-panic C o service _ calm ok-ne-panic, tt),
              ),
            ),
          ),
        )
