-- ===== src/Controller/Benchmark/Cached.antt =====
-- What a client that reads from a cache shows of a benchmark's objects, and what of it every call
-- leaves as it is.
pub mod Runs
use atomix_operator.Kube.Meta.{Foreign, NamespacedName}
use atomix_operator.Kube.Platform.{Platform}
use atomix_operator.V1alpha1.Types.{AtomixBenchmark}
use atomix_operator.Controller.Client.{
  Kind, ObjectOf, Client, config_map, service, pod, stateful_set,
}
use atomix_operator.Controller.Steps.{M, get_or_add}
use atomix_operator.Controller.Store.{IsStored}
use atomix_operator.Controller.Cached.{
  CachedClient, Has, Settled, Ready, GetKeeps, CreateKeeps, Triple, get-keeps_Has,
  get-keeps_Settled, get-keeps_Ready, create-keeps_Settled,
}
use atomix_operator.Controller.Cached.Calls.{found-Triple}
use atomix_operator.Controller.Benchmark.Laws.{
  controller_init, controller_config, controller_pod, controller_service, worker_set,
}

module _ {F : Foreign} {P : Platform F} (C : Client P) (K : CachedClient C)
    (b : AtomixBenchmark F) where
  abbrev pub init_name : NamespacedName
  init_name = (controller_init C b).name

  abbrev pub config_name : NamespacedName
  config_name = (controller_config C b).name

  abbrev pub service_name : NamespacedName
  service_name = (controller_service C b).name

  abbrev pub pod_name : NamespacedName
  pod_name = (controller_pod C b).name

  abbrev pub set_name : NamespacedName
  set_name = (worker_set C b).name

  -- The cache shows the objects whose names the controller's and the workers' share.
  abbrev pub SharedSettled : C.World → Type 0
  SharedSettled w =
      Settled C K config_map init_name w
      × Settled C K config_map config_name w
      × Settled C K service service_name w

  abbrev pub PodReady : C.World → Type 0
  PodReady = Ready C K pod pod_name

  abbrev pub SetReady : C.World → Type 0
  SetReady = Ready C K stateful_set set_name

  abbrev pub HasPod : C.World → Type 0
  HasPod = Has C K pod pod_name

  abbrev pub HasSet : C.World → Type 0
  HasSet = Has C K stateful_set set_name

  -- Before the pod is made, between that and the StatefulSet, and after that.
  abbrev pub Before : C.World → Type 0
  Before w = SharedSettled w × (PodReady w × SetReady w)

  abbrev pub Between : C.World → Type 0
  Between w = SharedSettled w × (HasPod w × SetReady w)

  abbrev pub After : C.World → Type 0
  After w = SharedSettled w × (HasPod w × HasSet w)

  pub shared_gets : GetKeeps C K SharedSettled
  shared_gets k n w (i, c, s) = (
    get-keeps_Settled C K config_map init_name k n w i,
    get-keeps_Settled C K config_map config_name k n w c,
    get-keeps_Settled C K service service_name k n w s,
  )

  pub shared_creates : (k : Kind) → CreateKeeps C K k SharedSettled
  shared_creates k x w (i, c, s) = (
    create-keeps_Settled C K config_map init_name k x w i,
    create-keeps_Settled C K config_map config_name k x w c,
    create-keeps_Settled C K service service_name k x w s,
  )

  pub pod_gets : GetKeeps C K PodReady
  pod_gets = get-keeps_Ready C K pod pod_name

  pub set_gets : GetKeeps C K SetReady
  set_gets = get-keeps_Ready C K stateful_set set_name

  pub made_pod_gets : GetKeeps C K HasPod
  made_pod_gets = get-keeps_Has C K pod pod_name

  pub made_set_gets : GetKeeps C K HasSet
  made_set_gets = get-keeps_Has C K stateful_set set_name

  pub both_gets :
      (R Q : C.World → Type 0) → GetKeeps C K R → GetKeeps C K Q → GetKeeps C K (λ w. R w × Q w)
  both_gets R Q f g k n w (r, q) = (f k n w r, g k n w q)

  -- A method for one of the shared names does nothing.
  shared-Triple :
      (k : Kind) (n : NamespacedName) (add : M C (Unit {0})) (R : C.World → Type 0)
      → ((w : C.World) → SharedSettled w → Settled C K k n w)
      → GetKeeps C K R
      → Triple C K (λ w. SharedSettled w × R w) (get_or_add C k n add) (λ w. SharedSettled w × R w)
  shared-Triple k n add R at gets w (shared, r) =
      let (success, (still, rest)) =
        found-Triple C K k n (λ v. SharedSettled v × R v)
          (both_gets SharedSettled R shared_gets gets) add w (at w shared, (shared, r)) in
      (success, rest)

  pub init-Triple :
      (add : M C (Unit {0})) (R : C.World → Type 0)
      → GetKeeps C K R
      → Triple C K
          (λ w. SharedSettled w × R w)
          (get_or_add C config_map init_name add)
          (λ w. SharedSettled w × R w)
  init-Triple add R = shared-Triple config_map init_name add R (λ w s. s.0)

  pub config-Triple :
      (add : M C (Unit {0})) (R : C.World → Type 0)
      → GetKeeps C K R
      → Triple C K
          (λ w. SharedSettled w × R w)
          (get_or_add C config_map config_name add)
          (λ w. SharedSettled w × R w)
  config-Triple add R = shared-Triple config_map config_name add R (λ w s. s.1)

  pub service-Triple :
      (add : M C (Unit {0})) (R : C.World → Type 0)
      → GetKeeps C K R
      → Triple C K
          (λ w. SharedSettled w × R w)
          (get_or_add C service service_name add)
          (λ w. SharedSettled w × R w)
  service-Triple add R = shared-Triple service service_name add R (λ w s. s.2)

  pub pod_is_no_set :
      (x : ObjectOf F pod) (y : ObjectOf F stateful_set)
      → ¬ IsStored K.admitted pod x stateful_set set_name y
  pod_is_no_set x y made = elim made [ ]
