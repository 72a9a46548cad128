-- ===== src/Controller/Cluster/Outcomes.antt =====
-- When `Reconcile` of an AtomixCluster succeeds, and what a storage size that cannot be parsed
-- leads to.
use atomix_operator.Base.{
  ◌≡◌, ◌≢◌, refl, none, some, Option-cases, String, inl, inr, ok, panic, true, false, All, arith,
  is_ok, is_ok-value, ok-ne-panic, [],
}
use atomix_operator.Kube.Meta.{Foreign, NamespacedName}
use atomix_operator.Kube.Platform.{Platform}
use atomix_operator.Kube.Objects.{StatefulSet}
use atomix_operator.V1alpha1.Types.{AtomixCluster}
use atomix_operator.V1alpha1.Defaults.{set_defaults_cluster}
use atomix_operator.Util.Resources.Volumes.{new_persistent_volume_claims}
use atomix_operator.Util.Cluster.{
  new_management_stateful_set, new_management_init_config_map, new_management_system_config_map,
  new_management_disruption_budget, new_management_service, get_management_stateful_set_name,
}
use atomix_operator.Controller.Client.{
  Client, key_of, cluster_owner, atomix_cluster, stateful_set, config_map, service,
  pod_disruption_budget,
}
use atomix_operator.Controller.Store.{Store, IsReliable}
use atomix_operator.Controller.Steps.{own}
use atomix_operator.Controller.Ensures.{IsPresent, IsBuilt, IsPlanned, here, there}
use atomix_operator.Controller.Ensures.Owned.{IsOwner, OwnsCalmly, owned-ok, owned-ne-panic}
use atomix_operator.Controller.Cluster.{reconcile}
use atomix_operator.Controller.Cluster.Laws.{cluster_children, cluster_reconcile-Reconciles}

pub set-references :
    {F : Foreign} (P : Platform F) (cluster : AtomixCluster F) (x : StatefulSet F)
    → new_management_stateful_set P cluster ≡ ok x
    → x.metadata.owner_references ≡ []
unfolding new_management_stateful_set
set-references P cluster x e = ground arith

module _ {F : Foreign} {P : Platform F} (C : Client P) (S : Store C) where
  pub cluster_children-IsBuilt :
      (c : AtomixCluster F)
      → IsOwner C (cluster_owner c)
      → is_ok (P.parse_quantity c.spec.storage.size) ≡ true
      → All (IsBuilt S) (cluster_children C c)
  unfolding new_management_stateful_set new_persistent_volume_claims new_management_init_config_map
      new_management_system_config_map new_management_disruption_budget new_management_service
  cluster_children-IsBuilt c accepts parsed =
      let (set, made) = is_ok-value (new_management_stateful_set P c) (ground arith) in
      let o = cluster_owner c in
      (
        owned-ok C o config_map _ accepts refl refl,
        (
          owned-ok C o config_map _ accepts refl refl,
          (
            owned-ok C o pod_disruption_budget _ accepts refl refl,
            (
              owned-ok C o stateful_set _ accepts made (set-references P c set made),
              (owned-ok C o service _ accepts refl refl, tt),
            ),
          ),
        ),
      )

  -- With a reliable client, for a stored cluster whose storage size, after the defaults, can be
  -- parsed and which is accepted as an owner of new objects, `Reconcile` succeeds and all five objects are present.
  pub cluster_reconcile_converges :
      IsReliable C S
      → (request : NamespacedName) (w : C.World) (cluster : AtomixCluster F)
      → S.lookup w atomix_cluster request ≡ some cluster
      → IsOwner C (cluster_owner (set_defaults_cluster cluster))
      → is_ok (P.parse_quantity (set_defaults_cluster cluster).spec.storage.size) ≡ true
      → ((reconcile C request w).1 ≡ ok tt)
        × All
            (IsPresent S (reconcile C request w).0)
            (cluster_children C (set_defaults_cluster cluster))
  cluster_reconcile_converges reliable request w cluster found accepts parsed =
      let spec = cluster_reconcile-Reconciles C S request in
      let success : (reconcile C request w).1 ≡ ok tt = spec.progress reliable w (λ x e.
        let same : cluster ≡ x = cc in
        rw (← same) (cluster_children-IsBuilt (set_defaults_cluster cluster) accepts parsed)) in
      (success, spec.present w cluster found success)

  -- Without a size that can be parsed, no StatefulSet is planned.
  unplanned_set :
      (c : AtomixCluster F) (n : NamespacedName) {y : StatefulSet F}
      → is_ok (P.parse_quantity c.spec.storage.size) ≡ false
      → ¬ IsPlanned S (cluster_children C c) stateful_set n y
  unfolding new_management_stateful_set new_persistent_volume_claims own
  unplanned_set c n bad (here e put) = elim put [ ]
  unplanned_set c n bad (there (here e put)) = elim put [ ]
  unplanned_set c n bad (there (there (here e put))) = elim put [ ]
  unplanned_set c n bad (there (there (there (here e put)))) = ground arith
  unplanned_set c n bad (there (there (there (there (here e put))))) = elim put [ ]
  unplanned_set c n bad (there (there (there (there (there p))))) = elim p [ ]

  -- For a stored cluster whose storage size, after the defaults, cannot be parsed, and without a
  -- StatefulSet under its name, `Reconcile` does not succeed and creates no such StatefulSet.
  pub cluster_reconcile_bad_size :
      (request : NamespacedName) (w : C.World) (cluster : AtomixCluster F)
      → S.lookup w atomix_cluster request ≡ some cluster
      → is_ok (P.parse_quantity (set_defaults_cluster cluster).spec.storage.size) ≡ false
      → S.lookup w stateful_set (key_of F atomix_cluster cluster) ≡ none
      → ((reconcile C request w).1 ≢ ok tt)
        × (S.lookup (reconcile C request w).0 stateful_set (key_of F atomix_cluster cluster) ≡ none)
  unfolding set_defaults_cluster get_management_stateful_set_name
  cluster_reconcile_bad_size request w cluster found bad missing =
      let spec = cluster_reconcile-Reconciles C S request in
      let still : S.lookup (reconcile C request w).0 stateful_set (key_of F atomix_cluster cluster)
          ≡ none =
        elim (Option-cases
          (S.lookup (reconcile C request w).0 stateful_set (key_of F atomix_cluster cluster))) [
            | inl empty ↦ empty
            | inr (y, e) ↦ elim (spec.adds w stateful_set _ y e) [
              | inl before ↦ cc
              | inr (x, present, planned) ↦
                  elim (unplanned_set (set_defaults_cluster x) _
                    (let same : cluster ≡ x = cc in rw (← same) bad) planned) [ ]
            ]
          ] in
      ((λ success. (spec.present w cluster found success).1.1.1.0 still), still)

  -- If neither the parser of sizes nor `SetControllerReference` panics, `Reconcile` does not.
  pub cluster_reconcile-ne-panic :
      OwnsCalmly C
      → ((size : String) → P.parse_quantity size ≢ panic)
      → (request : NamespacedName) (w : C.World) → (reconcile C request w).1 ≢ panic
  unfolding new_management_stateful_set new_persistent_volume_claims
  cluster_reconcile-ne-panic calm parses request w =
      (cluster_reconcile-Reconciles C S request).ne_panic w λ cluster _.
        let c = set_defaults_cluster cluster in
        let o = cluster_owner c in
        (
          owned-ne-panic C o config_map _ calm ok-ne-panic,
          (
            owned-ne-panic C o config_map _ calm ok-ne-panic,
            (
              owned-ne-panic C o pod_disruption_budget _ calm ok-ne-panic,
              (
                owned-ne-panic C o stateful_set _ calm (ground (arith, parses c.spec.storage.size)),
                (owned-ne-panic C o service _ calm ok-ne-panic, tt),
              ),
            ),
          ),
        )
