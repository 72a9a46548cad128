-- ===== src/Controller/Runs/Resources.antt =====
-- What runs of the three reconcilers leave alone: the resources, and all objects once a resource has
-- been reconciled.
use atomix_operator.Base.{
  ◌≡◌, refl, ◌∙◌, sym, Bool, true, false, Option-cases, inl, inr, ok, List, [], ◌∷◌, All,
}
use atomix_operator.Kube.Meta.{Foreign, NamespacedName}
use atomix_operator.Kube.Platform.{Platform}
use atomix_operator.Controller.Client.{
  Kind, ObjectOf, Client, atomix_cluster, partition_group, atomix_benchmark, config_map, service,
  pod_disruption_budget, stateful_set, pod,
}
use atomix_operator.Controller.Store.{Store, stored}
use atomix_operator.Controller.Ensures.{Child, IsPlanned, here, there}
use atomix_operator.Controller.Runs.{
  Controller, cluster_controller, group_controller, benchmark_controller, resource_of, Request,
  reconcile_request, run, children_of,
}
use atomix_operator.Controller.Runs.Laws.{request-Reconciles, run-keeps, run-IsPresent}

-- The types of the resources that users write.
abbrev pub is_resource : Kind → Bool
is_resource atomix_cluster = true
is_resource partition_group = true
is_resource atomix_benchmark = true
is_resource config_map = false
is_resource service = false
is_resource pod_disruption_budget = false
is_resource stateful_set = false
is_resource pod = false

module _ {F : Foreign} {P : Platform F} (C : Client P) (S : Store C) where
  abbrev IsObjects : List (Child P) → Type 0
  IsObjects = All (λ child. is_resource child.kind ≡ false)

  planned_kind :
      (children : List (Child P)) (j : Kind) (n : NamespacedName) (y : ObjectOf F j)
      → IsObjects children
      → IsPlanned S children j n y
      → is_resource j ≡ false
  planned_kind [] j n y kinds p = elim p [ ]
  planned_kind (child ∷ children) _ n y (kind, kinds) (here e (stored _ _)) = kind
  planned_kind (child ∷ children) j n y (kind, kinds) (there p) =
      planned_kind children j n y kinds p

  children-IsObjects :
      (c : Controller) (x : ObjectOf F (resource_of c)) → IsObjects (children_of C c x)
  children-IsObjects cluster_controller x = (refl, (refl, (refl, (refl, (refl, tt)))))
  children-IsObjects group_controller x = (refl, (refl, (refl, (refl, (refl, tt)))))
  children-IsObjects benchmark_controller x =
      (refl, (refl, (refl, (refl, (refl, (refl, (refl, (refl, tt))))))))

  request-resource :
      (c : Controller) (m : NamespacedName) (w : C.World) (j : Kind) (n : NamespacedName)
      → is_resource j ≡ true
      → S.lookup (reconcile_request C c m w).0 j n ≡ S.lookup w j n
  request-resource c m w j n e =
      let r = request-Reconciles C S c m in
      elim (Option-cases (S.lookup w j n)) [
        | inr (y, before) ↦ r.keeps w j n before ∙ sym before
        | inl missing ↦ elim (Option-cases (S.lookup (reconcile_request C c m w).0 j n)) [
          | inl gone ↦ gone ∙ sym missing
          | inr (y, after) ↦ elim (r.adds w j n y after) [
            | inl before ↦ cc
            | inr (x, found, planned) ↦
                let object =
                  planned_kind (children_of C c x) j n y (children-IsObjects c x) planned in
                cc
          ]
        ]
      ]

  -- No run of the three reconcilers creates, changes or removes an AtomixCluster, a PartitionGroup or
  -- an AtomixBenchmark, whatever the calls of the client return.
  pub run-resource :
      (requests : List Request) (w : C.World) (j : Kind) (n : NamespacedName)
      → is_resource j ≡ true
      → S.lookup (run C requests w) j n ≡ S.lookup w j n
  unfolding run
  run-resource [] w j n e = refl
  run-resource ((c, m) ∷ requests) w j n e =
      run-resource requests (reconcile_request C c m w).0 j n e ∙ request-resource c m w j n e

  resource-is_resource : (c : Controller) → is_resource (resource_of c) ≡ true
  resource-is_resource cluster_controller = refl
  resource-is_resource group_controller = refl
  resource-is_resource benchmark_controller = refl

  -- After a successful `Reconcile` a later one for the same request changes no stored object and adds
  -- none, for each of the three reconcilers, whatever requests come between the two, and whatever the
  -- calls of the client return in those and in the later one.
  pub request_twice :
      (c : Controller) (n : NamespacedName) (between : List Request) (w : C.World)
      → (reconcile_request C c n w).1 ≡ ok tt
      → (j : Kind) (m : NamespacedName)
      → let v = run C between (reconcile_request C c n w).0 in
        S.lookup (reconcile_request C c n v).0 j m ≡ S.lookup v j m
  unfolding run
  request_twice c n between w success =
      let r = request-Reconciles C S c n in
      let first = (reconcile_request C c n w).0 in
      let v = run C between first in
      elim (Option-cases (S.lookup w (resource_of c) n)) [
        | inl missing ↦
            r.gone v (
              run-resource ((c, n) ∷ between) w (resource_of c) n (resource-is_resource c)
              ∙ missing)
        | inr (x, found) ↦
            r.still v x (run-keeps C S ((c, n) ∷ between) w (resource_of c) n x found)
              (run-IsPresent C S between first (children_of C c x) (r.present w x found success))
      ]
