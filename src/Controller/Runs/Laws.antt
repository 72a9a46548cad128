-- ===== src/Controller/Runs/Laws.antt =====
-- Whatever the order of the calls, every resource gets its objects and keeps them.
use atomix_operator.Base.{
  ◌≡◌, refl, ◌∙◌, sym, Option-cases, inl, inr, some, ok, List, [], ◌∷◌, ◌++◌, All,
}
use atomix_operator.Kube.Meta.{Foreign, NamespacedName}
use atomix_operator.Kube.Platform.{Platform}
use atomix_operator.Controller.Client.{Kind, ObjectOf, Client}
use atomix_operator.Controller.Store.{Store, IsReliable}
use atomix_operator.Controller.Ensures.{Child, IsPresent, IsBuilt}
use atomix_operator.Controller.Ensures.Reconciles.{Reconciles}
use atomix_operator.Controller.Cluster.Laws.{cluster_reconcile-Reconciles}
use atomix_operator.Controller.PartitionGroup.Laws.{group_reconcile-Reconciles}
use atomix_operator.Controller.Benchmark.Laws.{benchmark_reconcile-Reconciles}
use atomix_operator.Controller.Runs.{
  Controller, cluster_controller, group_controller, benchmark_controller, resource_of, Request,
  reconcile_request, run, children_of,
}

module _ {F : Foreign} {P : Platform F} (C : Client P) (S : Store C) where
  -- A request whose resource is gone, or has all of its objects.
  abbrev pub IsSettled : C.World → Request → Type 0
  IsSettled w (c, n) =
      (x : ObjectOf F (resource_of c))
      → S.lookup w (resource_of c) n ≡ some x
      → All (IsPresent S w) (children_of C c x)

  pub request-Reconciles :
      (c : Controller) (n : NamespacedName)
      → Reconciles S (reconcile_request C c n) (resource_of c) n (children_of C c)
  request-Reconciles cluster_controller n = cluster_reconcile-Reconciles C S n
  request-Reconciles group_controller n = group_reconcile-Reconciles C S n
  request-Reconciles benchmark_controller n = benchmark_reconcile-Reconciles C S n

  -- No call changes or removes a stored object.
  pub run-keeps :
      (requests : List Request) (w : C.World) (j : Kind) (n : NamespacedName) (y : ObjectOf F j)
      → S.lookup w j n ≡ some y
      → S.lookup (run C requests w) j n ≡ some y
  unfolding run
  run-keeps [] w j n y e = e
  run-keeps ((c, m) ∷ requests) w j n y e =
      run-keeps requests (reconcile_request C c m w).0 j n y
        ((request-Reconciles c m).keeps w j n e)

  pub run-IsPresent :
      (requests : List Request) (w : C.World) (children : List (Child P))
      → All (IsPresent S w) children
      → All (IsPresent S (run C requests w)) children
  run-IsPresent requests w [] here = tt
  run-IsPresent requests w (child ∷ children) (here, there) = (
    elim (Option-cases (S.lookup w child.kind child.name)) [
      | inl missing ↦ absurd (here missing)
      | inr (y, e) ↦ λ gone. let still = run-keeps requests w child.kind child.name y e in cc
    ],
    run-IsPresent requests w children there,
  )

  run-append :
      (before after : List Request) (w : C.World)
      → run C (before ++ after) w ≡ run C after (run C before w)
  unfolding run
  run-append [] after w = refl
  run-append ((c, n) ∷ before) after w = run-append before after (reconcile_request C c n w).0

  -- With a reliable client, in every run in which a stored resource of one of the three kinds is
  -- requested at least once, at any place among any other requests, and whose objects can be built,
  -- all of its objects are there in the end.
  pub run_settles :
      IsReliable C S
      → (before after : List Request) (c : Controller) (n : NamespacedName) (w : C.World)
        (x : ObjectOf F (resource_of c))
      → S.lookup w (resource_of c) n ≡ some x
      → All (IsBuilt S) (children_of C c x)
      → All (IsPresent S (run C (before ++ (c, n) ∷ after) w)) (children_of C c x)
  unfolding run
  run_settles reliable before after c n w x found built =
      let v = run C before w in
      let spec = request-Reconciles c n in
      let still : S.lookup v (resource_of c) n ≡ some x =
        run-keeps before w (resource_of c) n x found in
      let success : (reconcile_request C c n v).1 ≡ ok tt =
        spec.progress reliable v (λ y e. let same : x ≡ y = cc in rw (← same) built) in
      rw (run-append before ((c, n) ∷ after) w) (
        run-IsPresent after (reconcile_request C c n v).0 (children_of C c x)
          (spec.present v x still success))

  module _ {v w : C.World}
      (same : (j : Kind) (m : NamespacedName) → S.lookup v j m ≡ S.lookup w j m) where
    still-IsPresent :
        (children : List (Child P)) → All (IsPresent S w) children → All (IsPresent S v) children
    still-IsPresent [] here = tt
    still-IsPresent (child ∷ children) (here, there) =
        (λ gone. here (sym (same child.kind child.name) ∙ gone), still-IsPresent children there)

    still-IsSettled :
        (requests : List Request) → All (IsSettled w) requests → All (IsSettled v) requests
    still-IsSettled [] settled = tt
    still-IsSettled ((c, n) ∷ requests) (settled, rest) = (
      λ x found.
          still-IsPresent (children_of C c x) (settled x (sym (same (resource_of c) n) ∙ found)),
      still-IsSettled requests rest,
    )

  request-still :
      (c : Controller) (n : NamespacedName) (w : C.World)
      → IsSettled w (c, n)
      → (j : Kind) (m : NamespacedName)
      → S.lookup (reconcile_request C c n w).0 j m ≡ S.lookup w j m
  request-still c n w settled = elim (Option-cases (S.lookup w (resource_of c) n)) [
    | inl missing ↦ (request-Reconciles c n).gone w missing
    | inr (x, found) ↦ (request-Reconciles c n).still w x found (settled x found)
  ]

  -- Once all of the resources that a run requests have their objects, or are gone, the run changes no
  -- stored object and adds none, whatever the calls of the client return.
  pub run_rests :
      (requests : List Request) (w : C.World)
      → All (IsSettled w) requests
      → (j : Kind) (m : NamespacedName) → S.lookup (run C requests w) j m ≡ S.lookup w j m
  unfolding run
  run_rests [] w settled j m = refl
  run_rests ((c, n) ∷ requests) w (settled, rest) j m =
      let same = request-still c n w settled in
      run_rests requests (reconcile_request C c n w).0 (still-IsSettled same requests rest) j m
      ∙ same j m
