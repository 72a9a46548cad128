-- ===== src/Controller/Registration.antt =====
-- pkg/controller/manager.go, and Add of the three reconcilers: the controllers and their watches are
-- registered with a manager of controller-runtime, which is a parameter.
pub mod Laws
pub mod Events
use atomix_operator.Base.{String, Bool, true, Result, ok, err, panic, List, [], ◌∷◌, ◌++◌}
use atomix_operator.Controller.Client.{
  Kind, atomix_cluster, partition_group, atomix_benchmark, stateful_set, pod,
}

-- Which resource an event enqueues: the object itself, or its owner of a type.
pub data EventHandler : Type 0 where
  enqueue_request_for_object : EventHandler
  enqueue_request_for_owner : (owner_type : Kind) (is_controller : Bool) → EventHandler

-- `controller.New`, which is given the reconciler of a resource, and `Controller.Watch`.
pub record Manager (E : Type 0) : Type 1 where
  pub State : Type 0
  pub Handle : Type 0
  pub new : String → Kind → State → State × Result E Handle
  pub watch : Handle → Kind → EventHandler → State → State × Result E (Unit {0})

module _ {E : Type 0} (M : Manager E) where
  abbrev pub Step : Type 0 → Type 0
  Step A = M.State → M.State × Result E A

  abbrev pub and_then : {A B : Type 0} → M.State × Result E A → (A → Step B) → M.State × Result E B
  and_then (s, ok a) f = f a s
  and_then (s, err e) f = (s, err e)
  and_then (s, panic) f = (s, panic)

  -- What the three Add functions share.
  unfoldable pub add_reconciler : String → Kind → Kind → Step (Unit {0})
  add_reconciler name resource secondary s = and_then (M.new name resource s) λ c t.
      and_then (M.watch c resource enqueue_request_for_object t) λ _ u.
        and_then (M.watch c secondary (enqueue_request_for_owner resource true) u) λ _ v. (v, ok tt)

  unfoldable pub add_benchmark : Step (Unit {0})
  add_benchmark = add_reconciler "benchmark-controller" atomix_benchmark pod

  unfoldable pub add_cluster : Step (Unit {0})
  add_cluster = add_reconciler "atomixcluster-controller" atomix_cluster stateful_set

  unfoldable pub add_partition_group : Step (Unit {0})
  add_partition_group = add_reconciler "partitiongroup-controller" partition_group stateful_set

  -- `AddController`: the list of functions with one more.
  unfoldable pub add_controller : Step (Unit {0}) → List (Step (Unit {0})) → List (Step (Unit {0}))
  add_controller f functions = functions ++ f ∷ []

  -- The list after `init`.
  unfoldable pub add_to_manager_funcs : List (Step (Unit {0}))
  unfolding add_controller add_benchmark add_cluster add_partition_group
  add_to_manager_funcs =
      add_controller add_partition_group
        (add_controller add_cluster (add_controller add_benchmark []))

  -- The loop of `AddToManager`.
  unfoldable pub add_all : List (Step (Unit {0})) → Step (Unit {0})
  add_all [] s = (s, ok tt)
  add_all (f ∷ fs) s = and_then (f s) λ _ t. add_all fs t

  unfoldable pub add_to_manager : Step (Unit {0})
  unfolding add_to_manager_funcs add_all
  add_to_manager = add_all add_to_manager_funcs
