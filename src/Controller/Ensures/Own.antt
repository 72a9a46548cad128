-- ===== src/Controller/Ensures/Own.antt =====
-- Setting the owner of an object changes neither its type nor its name, and building, owning and
-- creating it is one creation.
use atomix_operator.Base.{
  ◌≡◌, refl, sym, ◌∙◌, ap, ok-injective, List, [], ◌∷◌, Result, ok, err, panic, bind,
}
use atomix_operator.Kube.Meta.{Foreign, NamespacedName, OwnerReference}
use atomix_operator.Kube.Platform.{Platform}
use atomix_operator.Controller.Client.{
  Kind, ObjectOf, Client, key_of, metadata_of, set_metadata, Owner, atomix_cluster, partition_group,
  atomix_benchmark, config_map, service, pod_disruption_budget, stateful_set, pod,
}
use atomix_operator.Controller.Steps.{M, then_do, lift, own, own_and_create, get_or_add}
use atomix_operator.Controller.Store.{Store}
use atomix_operator.Controller.Ensures.{Child, Attempts, Ensures}
use atomix_operator.Controller.Ensures.Create.{create-Attempts}
use atomix_operator.Controller.Ensures.GetOrAdd.{get_or_add-Ensures, get_or_add-Attempts}

set_metadata-key :
    (F : Foreign) (k : Kind) (x : ObjectOf F k) (m : List OwnerReference)
    → key_of F k (set_metadata F k x (record (metadata_of F k x) { owner_references = m }))
      ≡ key_of F k x
set_metadata-key F atomix_cluster x m = refl
set_metadata-key F partition_group x m = refl
set_metadata-key F atomix_benchmark x m = refl
set_metadata-key F config_map x m = refl
set_metadata-key F service x m = refl
set_metadata-key F pod_disruption_budget x m = refl
set_metadata-key F stateful_set x m = refl
set_metadata-key F pod x m = refl

module _ {F : Foreign} {P : Platform F} (C : Client P) where
  -- Two fallible constructions in a row are one.
  pub lift-bind :
      {A B : Type 0} (r : Result P.Error A) (f : A → Result P.Error B) (next : B → M C (Unit {0}))
      → then_do C (lift C r) (λ a. then_do C (lift C (f a)) next)
        ≡ then_do C (lift C (bind r f)) next
  lift-bind (ok a) f next = refl
  lift-bind (err e) f next = refl
  lift-bind panic f next = refl

module _ {F : Foreign} {P : Platform F} (C : Client P) (owner : Owner F) (k : Kind) where
  own-key_at :
      (r : Result P.Error (List OwnerReference)) (x : ObjectOf F k) {y : ObjectOf F k}
      → bind {E = P.Error} r
          (λ m. ok (set_metadata F k x (record (metadata_of F k x) { owner_references = m })))
        ≡ ok y
      → key_of F k y ≡ key_of F k x
  own-key_at (ok m) x e = cc (set_metadata-key F k x m)
  own-key_at (err f) x e = cc
  own-key_at panic x e = cc

  pub own-key :
      (x : ObjectOf F k) {y : ObjectOf F k} → own C owner k x ≡ ok y → key_of F k y ≡ key_of F k x
  unfolding own
  own-key x e = own-key_at (C.set_controller_reference owner (metadata_of F k x)) x e

  -- What becomes of an object that may fail to be built, once it has its owner.
  abbrev pub owned : Result P.Error (ObjectOf F k) → Result P.Error (ObjectOf F k)
  owned r = bind r (own C owner k)

  owned-key :
      (r : Result P.Error (ObjectOf F k)) (name : NamespacedName)
      → ((x : ObjectOf F k) → r ≡ ok x → name ≡ key_of F k x)
      → (y : ObjectOf F k) → owned r ≡ ok y
      → name ≡ key_of F k y
  owned-key (ok x) name named y e = named x refl ∙ sym (own-key x e)
  owned-key (err f) name named y e = cc
  owned-key panic name named y e = cc

  lift-own :
      (r : Result P.Error (ObjectOf F k))
      → ◌≡◌ {A = M C (Unit {0})}
          (then_do C (lift C r) (own_and_create C owner k))
          (then_do C (lift C (owned r)) (C.create k))
  unfolding own_and_create
  lift-own (ok x) = refl
  lift-own (err e) = refl
  lift-own panic = refl

  -- The child that an add method builds by `r`.
  abbrev pub child : NamespacedName → Result P.Error (ObjectOf F k) → Child P
  child name r = record { kind = k; name = name; object = owned r }

  module _ (S : Store C) (name : NamespacedName) (r : Result P.Error (ObjectOf F k))
      (named : (x : ObjectOf F k) → r ≡ ok x → name ≡ key_of F k x) where
    abbrev pub add : M C (Unit {0})
    add = then_do C (lift C r) (own_and_create C owner k)

    add-Attempts : Attempts S add (child name r)
    add-Attempts =
        rw lift-own (create-Attempts S (child name r) (λ y e. owned-key r name named y e))

    pub add-Ensures : Ensures S (get_or_add C k name add) (child name r ∷ [])
    add-Ensures = get_or_add-Ensures S (child name r) add add-Attempts

    -- The benchmark's add methods look for the object once more.
    pub add_again-Ensures :
        Ensures S (get_or_add C k name (get_or_add C k name add)) (child name r ∷ [])
    add_again-Ensures =
        get_or_add-Ensures S (child name r) _
          (get_or_add-Attempts S (child name r) add add-Attempts)

  module _ (S : Store C) (name : NamespacedName) (x : ObjectOf F k)
      (named : name ≡ key_of F k x) where
    -- An object that is built without fail.
    pub own-Ensures :
        Ensures S (get_or_add C k name (own_and_create C owner k x)) (child name (ok x) ∷ [])
    unfolding own_and_create
    own-Ensures = add-Ensures S name (ok x) (λ y e. named ∙ ap (key_of F k) (ok-injective e))

    pub own_again-Ensures :
        Ensures S
          (get_or_add C k name (get_or_add C k name (own_and_create C owner k x)))
          (child name (ok x) ∷ [])
    unfolding own_and_create
    own_again-Ensures =
        add_again-Ensures S name (ok x) (λ y e. named ∙ ap (key_of F k) (ok-injective e))
