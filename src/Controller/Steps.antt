-- ===== src/Controller/Steps.antt =====
-- The shape that the methods of the reconcilers share, in a monad over the world: a `Get` whose
-- failure with "not found" leads to a `Create`, and the `Get` of the resource itself.
use atomix_operator.Base.{Result, ok, err, panic, bind, if◌then◌else◌}
use atomix_operator.Kube.Meta.{Foreign, NamespacedName}
use atomix_operator.Kube.Platform.{Platform}
use atomix_operator.Controller.Client.{Kind, ObjectOf, metadata_of, set_metadata, Owner, Client}

module _ {F : Foreign} {P : Platform F} (C : Client P) where
  abbrev pub M : Type 0 → Type 0
  M A = C.World → C.World × Result P.Error A

  abbrev pub continue :
      {A B : Type 0} → C.World × Result P.Error A → (A → M B) → C.World × Result P.Error B
  continue (w, ok a) f = f a w
  continue (w, err e) f = (w, err e)
  continue (w, panic) f = (w, panic)

  -- `x, err := m; if err != nil { return err }; ...`
  abbrev pub then_do : {A B : Type 0} → M A → (A → M B) → M B
  then_do m f w = continue (m w) f

  abbrev pub lift : {A : Type 0} → Result P.Error A → M A
  lift r w = (w, r)

  abbrev pub done : M (Unit {0})
  done = lift (ok tt)

  -- `SetControllerReference(owner, object, scheme)`
  unfoldable pub own : Owner F → (k : Kind) → ObjectOf F k → Result P.Error (ObjectOf F k)
  own owner k object =
      bind (C.set_controller_reference owner (metadata_of F k object)) λ references. ok (
        set_metadata F k object (record (metadata_of F k object) { owner_references = references }))

  -- The end of every add method.
  unfoldable pub own_and_create : Owner F → (k : Kind) → ObjectOf F k → M (Unit {0})
  own_and_create owner k object = then_do (lift (own owner k object)) (λ owned. C.create k owned)

  abbrev pub unless_found :
      {A : Type 0} → C.World × Result P.Error A → M (Unit {0}) → C.World × Result P.Error (Unit {0})
  unless_found (w, ok _) add = (w, ok tt)
  unless_found (w, err e) add = if P.is_not_found e then add w else (w, err e)
  unless_found (w, panic) add = (w, panic)

  -- `err := Get(name); if err != nil && IsNotFound(err) { err = add() }; return err`
  unfoldable pub get_or_add : (k : Kind) → NamespacedName → M (Unit {0}) → M (Unit {0})
  get_or_add k name add w = unless_found (C.get k name w) add

  abbrev pub when_found :
      {A : Type 0}
      → C.World × Result P.Error A
      → (A → M (Unit {0}))
      → C.World × Result P.Error (Unit {0})
  when_found (w, ok a) next = next a w
  when_found (w, err e) next = if P.is_not_found e then (w, ok tt) else (w, err e)
  when_found (w, panic) next = (w, panic)

  -- The beginning of `Reconcile`: a resource that is gone needs nothing.
  unfoldable pub get_or_stop :
      (k : Kind) → NamespacedName → (ObjectOf F k → M (Unit {0})) → M (Unit {0})
  get_or_stop k name next w = when_found (C.get k name w) next
