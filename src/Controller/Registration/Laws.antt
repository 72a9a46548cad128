-- ===== src/Controller/Registration/Laws.antt =====
-- What is registered with the manager, and where the registration stops.
use atomix_operator.Base.{
  ◌≡◌, refl, sym, ◌∙◌, ap, String, true, Result, ok, err, panic, List, [], ◌∷◌, ◌++◌,
}
use mathlib.Core.List.{append_assoc, append-nil}
use atomix_operator.Controller.Client.{
  Kind, atomix_cluster, partition_group, atomix_benchmark, stateful_set, pod,
}
use atomix_operator.Controller.Registration.{
  EventHandler, enqueue_request_for_object, enqueue_request_for_owner, Manager, Step, and_then,
  add_reconciler, add_benchmark, add_cluster, add_partition_group, add_all, add_to_manager,
}

-- A controller by its name with the resource it reconciles, or one of its watches.
pub data Registered : Type 0 where
  controller : (name : String) (resource : Kind) → Registered
  watches : (name : String) (type : Kind) (handler : EventHandler) → Registered

-- What Add of a reconciler registers.
abbrev pub registrations : String → Kind → Kind → List Registered
registrations name resource secondary =
    controller name resource
    ∷ watches name resource enqueue_request_for_object
    ∷ watches name secondary (enqueue_request_for_owner resource true)
    ∷ []

module _ {E : Type 0} (M : Manager E) where
  -- What the manager has accepted so far, in order.
  pub record Log : Type 0 where
    pub log : M.State → List Registered
    pub name_of : M.Handle → String
    pub log-new :
        (name : String) (resource : Kind) (s : M.State) {c : M.Handle}
        → (M.new name resource s).1 ≡ ok c
        → (name_of c ≡ name)
          × (log (M.new name resource s).0 ≡ log s ++ controller name resource ∷ [])
    pub log-watch :
        (c : M.Handle) (type : Kind) (handler : EventHandler) (s : M.State)
        → (M.watch c type handler s).1 ≡ ok tt
        → log (M.watch c type handler s).0 ≡ log s ++ watches (name_of c) type handler ∷ []

  -- If a step goes on to `next` with success, it goes on to `other` in the same way.
  and_then-swap :
      (r : M.State × Result E (Unit {0})) (next other : Step M (Unit {0})) (t u : M.State) (e : E)
      → ((s : M.State) → next s ≡ (t, ok tt) → other s ≡ (u, err e))
      → and_then M r (λ _ s. next s) ≡ (t, ok tt)
      → and_then M r (λ _ s. other s) ≡ (u, err e)
  and_then-swap (s, ok a) next other t u e h done = h s done
  and_then-swap (s, err x) next other t u e h done = cc
  and_then-swap (s, panic) next other t u e h done = cc

  -- Where the functions before one succeed and it fails, its error is returned and the functions
  -- after it are not called, whatever they are.
  pub add_all_stops :
      (before after : List (Step M (Unit {0}))) (f : Step M (Unit {0})) (s t u : M.State) (e : E)
      → add_all M before s ≡ (t, ok tt)
      → f t ≡ (u, err e)
      → add_all M (before ++ f ∷ after) s ≡ (u, err e)
  unfolding add_all
  add_all_stops [] after f s t u e done fails =
      let same : s ≡ t = ap (λ p. p.0) done in rw same (rw fails refl)
  add_all_stops (g ∷ gs) after f s t u e done fails =
      and_then-swap (g s) (add_all M gs) (add_all M (gs ++ f ∷ after)) t u e
        (λ s' done'. add_all_stops gs after f s' t u e done' fails) done

  module _ (L : Log) where
    -- If the first step leaves one list, and the second makes another of it, so do both together.
    log-and_then :
        {A B : Type 0} (r : M.State × Result E A) (f : A → Step M B) {b : B}
        (middle after : List Registered)
        → ((a : A)
            → r.1 ≡ ok a
            → (L.log r.0 ≡ middle)
              × ((f a r.0).1 ≡ ok b → L.log r.0 ≡ middle → L.log (f a r.0).0 ≡ after))
        → (and_then M r f).1 ≡ ok b
        → L.log (and_then M r f).0 ≡ after
    log-and_then (s, ok a) f middle after h e = let (at, then) = h a refl in then e at
    log-and_then (s, err x) f middle after h e = cc
    log-and_then (s, panic) f middle after h e = cc

    -- A watch of the controller with a name adds its entry.
    log-watched :
        (c : M.Handle) (name : String) (type : Kind) (handler : EventHandler) (s : M.State)
        (before : List Registered)
        → L.name_of c ≡ name
        → L.log s ≡ before
        → (M.watch c type handler s).1 ≡ ok tt
        → L.log (M.watch c type handler s).0 ≡ before ++ watches name type handler ∷ []
    log-watched c name type handler s before named at e =
        L.log-watch c type handler s e
        ∙ ap (λ l. l ++ watches (L.name_of c) type handler ∷ []) at
        ∙ ap (λ n. before ++ watches n type handler ∷ []) named

    log-add_reconciler :
        (name : String) (resource secondary : Kind) (s : M.State) (before : List Registered)
        → L.log s ≡ before
        → (add_reconciler M name resource secondary s).1 ≡ ok tt
        → L.log (add_reconciler M name resource secondary s).0
          ≡ before ++ registrations name resource secondary
    unfolding add_reconciler
    log-add_reconciler name resource secondary s before at =
        let first = before ++ controller name resource ∷ [] in
        let second = first ++ watches name resource enqueue_request_for_object ∷ [] in
        let third =
          second ++ watches name secondary (enqueue_request_for_owner resource true) ∷ [] in
        let shape : third ≡ before ++ registrations name resource secondary =
          append_assoc first _ _ ∙ append_assoc before _ _ in
        log-and_then (M.new name resource s) _ first _ λ c created.
          let (named, logged) = L.log-new name resource s created in
          (
            logged ∙ ap (λ l. l ++ controller name resource ∷ []) at,
            λ e at1.
                log-and_then _ _ second _
                  (λ _ e1. (
                    log-watched c name resource enqueue_request_for_object _ first named at1 e1,
                    λ e2 at2.
                        log-and_then _ _ third _
                          (λ _ e3. (
                            log-watched c name secondary (enqueue_request_for_owner resource true) _
                                second named at2 e3,
                            λ _ at3. at3 ∙ shape,
                          ))
                          e2,
                  ))
                  e,
          )

    -- A success adds these entries.
    abbrev Logs : Step M (Unit {0}) → List Registered → Type 0
    Logs f entries =
        (s : M.State) (before : List Registered)
        → L.log s ≡ before
        → (f s).1 ≡ ok tt
        → L.log (f s).0 ≡ before ++ entries

    Logs-nil : Logs (add_all M []) []
    unfolding add_all
    Logs-nil s before at e = at ∙ sym (append-nil before)

    Logs-cons :
        (f : Step M (Unit {0})) (fs : List (Step M (Unit {0}))) (entries rest : List Registered)
        → Logs f entries
        → Logs (add_all M fs) rest
        → Logs (add_all M (f ∷ fs)) (entries ++ rest)
    unfolding add_all
    Logs-cons f fs entries rest one more s before at e =
        log-and_then (f s) (λ _ t. add_all M fs t) (before ++ entries) (before ++ (entries ++ rest))
          (λ _ e1. (
            one s before at e1,
            λ e2 at2. more (f s).0 (before ++ entries) at2 e2 ∙ append_assoc before entries rest,
          ))
          e

    -- If `AddToManager` succeeds, the manager has accepted, after what it had before and in this order,
    -- the controller of benchmarks with the watches of benchmarks and of pods for their owners, that
    -- of clusters with the watches of clusters and of StatefulSets, and that of partition groups with
    -- the watches of partition groups and of StatefulSets, and nothing else.
    pub add_to_manager_registers :
        (s : M.State)
        → (add_to_manager M s).1 ≡ ok tt
        → L.log (add_to_manager M s).0
          ≡ L.log s
            ++ (registrations "benchmark-controller" atomix_benchmark pod
                ++ registrations "atomixcluster-controller" atomix_cluster stateful_set
                ++ registrations "partitiongroup-controller" partition_group stateful_set)
    unfolding add_to_manager add_benchmark add_cluster add_partition_group
    add_to_manager_registers s =
        Logs-cons (add_benchmark M) (add_cluster M ∷ add_partition_group M ∷ []) _ _
          (log-add_reconciler _ _ _)
          (Logs-cons (add_cluster M) (add_partition_group M ∷ []) _ _ (log-add_reconciler _ _ _)
            (Logs-cons (add_partition_group M) [] _ _ (log-add_reconciler _ _ _) Logs-nil))
          s (L.log s) refl
