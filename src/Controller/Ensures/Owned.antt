-- ===== src/Controller/Ensures/Owned.antt =====
-- When an owned object can be built, and that following its owner does not panic.
use atomix_operator.Base.{
  ◌≡◌, ◌≢◌, refl, ap, ◌∙◌, ok-injective, List, [], Result, ok, err, panic, arith,
}
use atomix_operator.Kube.Meta.{Foreign, ObjectMeta, OwnerReference}
use atomix_operator.Kube.Platform.{Platform}
use atomix_operator.Controller.Client.{Kind, ObjectOf, Client, Owner, metadata_of, set_metadata}
use atomix_operator.Controller.Steps.{own}
use atomix_operator.Controller.Ensures.Own.{owned}

module _ {F : Foreign} {P : Platform F} (C : Client P) where
  -- `SetControllerReference` accepts the owner for an object that has no owner reference, as a new
  -- object has none. It may refuse one that another controls.
  abbrev pub IsOwner : Owner F → Type 0
  IsOwner owner =
      (m : ObjectMeta)
      → m.owner_references ≡ []
      → (references : List OwnerReference) × (C.set_controller_reference owner m ≡ ok references)

  abbrev pub OwnsCalmly : Type 0
  OwnsCalmly = (owner : Owner F) (m : ObjectMeta) → C.set_controller_reference owner m ≢ panic

  pub owned-ok :
      (owner : Owner F) (k : Kind) (r : Result P.Error (ObjectOf F k)) {x : ObjectOf F k}
      → IsOwner owner
      → r ≡ ok x
      → (metadata_of F k x).owner_references ≡ []
      → (y : ObjectOf F k) × (owned C owner k r ≡ ok y)
  unfolding own
  owned-ok owner k (ok z) accepts e new =
      let same = ap (λ a. (metadata_of F k a).owner_references) (ok-injective e) in
      let (references, accepted) = accepts (metadata_of F k z) (same ∙ new) in
      (
        set_metadata F k z (record (metadata_of F k z) { owner_references = references }),
        rw accepted refl,
      )
  owned-ok owner k (err f) accepts e new = cc
  owned-ok owner k panic accepts e new = cc

  pub owned-ne-panic :
      (owner : Owner F) (k : Kind) (r : Result P.Error (ObjectOf F k))
      → OwnsCalmly
      → r ≢ panic
      → owned C owner k r ≢ panic
  unfolding own
  owned-ne-panic owner k (ok z) calm h e = ground (arith, calm owner (metadata_of F k z))
  owned-ne-panic owner k (err f) calm h e = cc
  owned-ne-panic owner k panic calm h e = h refl
